-- ===== src/Consumer/Archives/Refilling.antt =====
-- Deliveries that `redrive_batch` inserts chunk by chunk are inserted as if at once.
use litefan.Prelude.{◌≡◌, refl, inl, inr, List, [], ◌∷◌, ◌++◌, concat}
use litefan.Error.{◌>>=◌, Result-cases}
use litefan.Schema.{Database, DeliveryRow, insert_delivery, insert_deliveries}
use litefan.Consumer.Archives.{insert_delivery_chunks}

insert_deliveries-append :
    (xs ys : List DeliveryRow) (db : Database)
    → insert_deliveries db (xs ++ ys)
      ≡ (insert_deliveries db xs >>= λ db'. insert_deliveries db' ys)
unfolding insert_deliveries
insert_deliveries-append [] ys db = refl
insert_deliveries-append (x ∷ xs) ys db = elim (Result-cases (insert_delivery db x)) [
  | inl (db', e) ↦ rw e (insert_deliveries-append xs ys db')
  | inr (e, q) ↦ rw q refl
]

pub insert_delivery_chunks-concat :
    (cs : List (List DeliveryRow)) (db : Database)
    → insert_delivery_chunks db cs ≡ insert_deliveries db (concat cs)
unfolding insert_delivery_chunks insert_deliveries
insert_delivery_chunks-concat [] db = refl
insert_delivery_chunks-concat (c ∷ cs) db = elim (Result-cases (insert_deliveries db c)) [
  | inl (db', e) ↦
      rw (insert_deliveries-append c (concat cs) db, e) (insert_delivery_chunks-concat cs db')
  | inr (e, q) ↦ rw (insert_deliveries-append c (concat cs) db, q) refl
]
