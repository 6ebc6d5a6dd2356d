-- ===== src/Consumer/Claim/Fetch.antt =====
-- The bodies of a claim: every lease finds its message, in the order of the leases.
use litefan.Prelude.{
  ◌≡◌, refl, sym, ap, ◌∙◌, inl, inr, Bool, true, List, [], ◌∷◌, arith, ◌==◌, ==_iff, Among,
  Among-append, Among-append_left, Among-append_right, concat, concat-chunks, chunks, select,
  Among-select, Among-select_inv, exists_where, exists_where-Among, exists_where-true, Distinct,
  Distinct-select, Distinct-append, Ascending, sort_by, sort_by-Ascending, Among-sort_by,
  Among-sort_by_back, Ascending-Distinct, Distinct-right, Distinct-apart,
}
use litefan.Api.{Message}
use litefan.Schema.WellFormed.{message_key, Retained}
use litefan.Storage.{Lease, max_sql_variables}
use litefan.Consumer.Claim.{fetch_chunks, fetch_messages, matched, lease_message_id}

-- Two lists that rise by the same keys agree place by place.
matched_of :
    (ls : List Lease) (ms : List Message)
    → Ascending lease_message_id ls
    → Ascending message_key ms
    → ((l : Lease) → Among l ls → (m : Message) × Among m ms × (m.id ≡ l.message_id))
    → ((m : Message) → Among m ms → (l : Lease) × Among l ls × (l.message_id ≡ m.id))
    → matched ls ms ≡ true
unfolding matched
matched_of [] [] sl sm f g = refl
matched_of [] (m ∷ ms) sl sm f g = elim (g m (inl refl)).1 [ ]
matched_of (l ∷ ls) [] sl sm f g = elim (f l (inl refl)).1 [ ]
matched_of (l ∷ ls) (m ∷ ms) sl sm f g =
    let first = heads (f l (inl refl)) (g m (inl refl)) in
    rw ((==_iff l.message_id m.id).1 first) (
      matched_of ls ms sl.1 sm.1 (λ k n. later_message k n first (f k (inr n)))
        (λ k n. later_lease k n first (g k (inr n))))
  where
    heads :
        ((x : Message) × Among x (m ∷ ms) × (x.id ≡ l.message_id))
        → ((x : Lease) × Among x (l ∷ ls) × (x.message_id ≡ m.id))
        → l.message_id ≡ m.id
    heads (x, inl p, e) k = sym e ∙ ap message_key p
    heads (x, inr p, e) (y, inl q, d) = ap lease_message_id (sym q) ∙ d
    heads (x, inr p, e) (y, inr q, d) = absurd (omega (arith, sm.0 x p, sl.0 y q, e, d))

    later_message :
        (k : Lease)
        → Among k ls
        → l.message_id ≡ m.id
        → ((x : Message) × Among x (m ∷ ms) × (x.id ≡ k.message_id))
        → (x : Message) × Among x ms × (x.id ≡ k.message_id)
    later_message k n first (x, inl p, e) =
        absurd (omega (arith, sl.0 k n, first, e, ap message_key p))
    later_message k n first (x, inr p, e) = (x, p, e)

    later_lease :
        (k : Message)
        → Among k ms
        → l.message_id ≡ m.id
        → ((x : Lease) × Among x (l ∷ ls) × (x.message_id ≡ k.id))
        → (x : Lease) × Among x ls × (x.message_id ≡ k.id)
    later_lease k n first (x, inl p, e) =
        absurd (omega (arith, sm.0 k n, first, e, ap lease_message_id p))
    later_lease k n first (x, inr p, e) = (x, p, e)

abbrev asked : List Lease → Message → Bool
asked c m = exists_where (λ (l : Lease). l.message_id == m.id) c

fetched_inv :
    (messages : List Message) (cs : List (List Lease)) (m : Message)
    → Among m (fetch_chunks messages cs)
    → (Among m messages) × ((l : Lease) × Among l (concat cs) × (l.message_id ≡ m.id))
unfolding fetch_chunks
fetched_inv messages [] m n = elim n [ ]
fetched_inv messages (c ∷ cs) m n =
    elim (Among-append m (sort_by message_key (select (asked c) messages))
      (fetch_chunks messages cs) n) [
        | inl h ↦
            let r = Among-select_inv (asked c) m messages (Among-sort_by message_key m _ h) in
            let k = exists_where-Among (λ (l : Lease). l.message_id == m.id) c r.1 in
            (r.0, (k.0, Among-append_left k.0 c (concat cs) k.1, (==_iff _ _).0 k.2))
        | inr h ↦
            let r = fetched_inv messages cs m h in
            (r.0, (r.1.0, Among-append_right r.1.0 c (concat cs) r.1.1, r.1.2))
      ]

fetched :
    (messages : List Message) (cs : List (List Lease)) (m : Message) (l : Lease)
    → Among m messages
    → Among l (concat cs)
    → l.message_id ≡ m.id
    → Among m (fetch_chunks messages cs)
unfolding fetch_chunks
fetched messages [] m l n k e = elim k [ ]
fetched messages (c ∷ cs) m l n k e = elim (Among-append l c (concat cs) k) [
  | inl h ↦ Among-append_left m _ _ (
      Among-sort_by_back message_key m _ (
        Among-select (asked c) m messages n
          (exists_where-true (λ (x : Lease). x.message_id == m.id) l c h ((==_iff _ _).1 e))))
  | inr h ↦ Among-append_right m _ _ (fetched messages cs m l n h e)
]

fetched-Distinct :
    (messages : List Message) (cs : List (List Lease))
    → Distinct message_key messages
    → Distinct lease_message_id (concat cs)
    → Distinct message_key (fetch_chunks messages cs)
unfolding fetch_chunks
fetched-Distinct messages [] d e = tt
fetched-Distinct messages (c ∷ cs) d e =
    Distinct-append message_key _ _
      (Ascending-Distinct message_key _
        (sort_by-Ascending message_key _ (Distinct-select message_key (asked c) messages d)))
      (fetched-Distinct messages cs d (Distinct-right lease_message_id c (concat cs) e))
      λ a b m n same.
        let r = Among-select_inv (asked c) a messages (Among-sort_by message_key a _ m) in
        let k = exists_where-Among (λ (l : Lease). l.message_id == a.id) c r.1 in
        let j = (fetched_inv messages cs b n).1 in
        Distinct-apart lease_message_id c (concat cs) k.0 j.0 e k.1 j.1
          ((==_iff _ _).0 k.2 ∙ same ∙ sym j.2)

-- Leases in the order of their messages, all retained, are matched by what `fetch_messages` returns.
pub matched-fetch_messages :
    (messages : List Message) (leases : List Lease)
    → Ascending message_key messages
    → Ascending lease_message_id leases
    → ((l : Lease) → Among l leases → Retained messages l.message_id)
    → matched leases (fetch_messages messages leases) ≡ true
unfolding fetch_messages
matched-fetch_messages messages leases sm sl kept =
    matched_of leases _ sl
      (sort_by-Ascending message_key _ (
        fetched-Distinct messages cs (Ascending-Distinct message_key messages sm)
          (rw whole (Ascending-Distinct lease_message_id leases sl))))
      (λ l n.
        let r = kept l n in
        (
          r.0,
          Among-sort_by_back message_key r.0 _
              (fetched messages cs r.0 l r.1 (rw whole n) (sym r.2)),
          r.2,
        ))
      (λ m n.
        let r = (fetched_inv messages cs m (Among-sort_by message_key m _ n)).1 in
        (r.0, rw whole at r.1, r.2))
  where
    cs : List (List Lease)
    cs = chunks max_sql_variables leases

    whole : concat cs ≡ leases
    whole = concat-chunks max_sql_variables leases (omega arith)
