-- ===== src/Schema/Archived.antt =====
-- The invariant after rows are added to the archive.
use litefan.Prelude.{
  ℕ, ◌+◌, ◌≤◌, ◌<◌, ◌≡◌, ◌≢◌, refl, sym, ap, ◌∙◌, subst, inl, inr, List, [], ◌∷◌, Among,
  Among-append, Distinct, Ascending, Ascending-append, length, arith,
}
use litefan.Schema.{Database, DeliveryRow, ArchiveRow, NewArchive, archive_row}
use litefan.Schema.WellFormed.{WellFormed, IsWork, delivery_key, archive_key, Retained, Scanned}
use litefan.Schema.Work.{IsWork-append}
use litefan.Schema.Inserts.{CanArchive, new_key, numbered, with_archives}

-- What becomes of the columns of a new archive.
pub record IsNumbered (seq : ℕ) (news : List NewArchive) (a : ArchiveRow) : Type 0 where
  pub new : NewArchive
  pub among : Among new news
  pub same : archive_key a ≡ new_key new
  pub row : a ≡ archive_row a.id new
  pub above : seq < a.id
  pub within : a.id ≤ seq + length news

pub Among-numbered :
    (seq : ℕ) (news : List NewArchive) (a : ArchiveRow)
    → Among a (numbered seq news)
    → IsNumbered seq news a
Among-numbered seq [] a m = elim m [ ]
Among-numbered seq (n ∷ ns) a (inl e) = record {
  new = n;
  among = inl refl;
  same = ap archive_key e;
  row = e ∙ ap (λ i. archive_row i n) (sym (ap (λ (x : ArchiveRow). x.id) e));
  above = omega (arith, ap (λ (x : ArchiveRow). x.id) e);
  within = omega (arith, ap (λ (x : ArchiveRow). x.id) e);
}
Among-numbered seq (n ∷ ns) a (inr m) =
    let r = Among-numbered (seq + 1) ns a m in
    record {
      new = r.new;
      among = inr r.among;
      same = r.same;
      row = r.row;
      above = omega (arith, r.above);
      within = omega (arith, r.within);
    }

pub numbered-Among :
    (seq : ℕ) (news : List NewArchive) (n : NewArchive)
    → Among n news
    → (id : ℕ) × Among (archive_row id n) (numbered seq news)
numbered-Among seq [] n m = elim m [ ]
numbered-Among seq (x ∷ xs) n (inl e) = (seq + 1, inl (ap (archive_row (seq + 1)) e))
numbered-Among seq (x ∷ xs) n (inr m) = let r = numbered-Among (seq + 1) xs n m in (r.0, inr r.1)

numbered-Ascending :
    (seq : ℕ) (news : List NewArchive) → Ascending (λ (a : ArchiveRow). a.id) (numbered seq news)
numbered-Ascending seq [] = tt
numbered-Ascending seq (n ∷ ns) =
    (λ a m. omega (arith, (Among-numbered (seq + 1) ns a m).above), numbered-Ascending (seq + 1) ns)

numbered-Distinct :
    (seq : ℕ) (news : List NewArchive)
    → Distinct new_key news
    → Distinct archive_key (numbered seq news)
numbered-Distinct seq [] d = tt
numbered-Distinct seq (n ∷ ns) d = (
  λ a m e. let r = Among-numbered (seq + 1) ns a m in d.0 r.new r.among (e ∙ r.same),
  numbered-Distinct (seq + 1) ns d.1,
)

-- Archives of retained messages, of none of which a delivery is left.
pub record IsNextArchives (db : Database) (news : List NewArchive) : Type 0 where
  pub can : CanArchive db news
  pub retained : (n : NewArchive) → Among n news → Retained db.messages n.message_id
  pub scanned : (n : NewArchive) → Among n news → Scanned db.consumers n.consumer_id n.message_id
  pub gone :
      (d : DeliveryRow) (n : NewArchive)
      → Among d db.deliveries
      → Among n news
      → delivery_key d ≢ new_key n

module _ (db : Database) (news : List NewArchive) (w : WellFormed db)
    (h : IsNextArchives db news) where
  new_work : IsWork archive_key db.messages db.consumers (numbered db.archive_seq news)
  new_work = record {
    distinct = numbered-Distinct db.archive_seq news h.can.distinct;
    retained = λ a m.
        let r = Among-numbered db.archive_seq news a m in
        subst (λ (k : ℕ × ℕ). Retained db.messages k.1) (sym r.same) (h.retained r.new r.among);
    scanned = λ a m.
        let r = Among-numbered db.archive_seq news a m in
        subst (λ (k : ℕ × ℕ). Scanned db.consumers k.0 k.1) (sym r.same) (h.scanned r.new r.among);
  }

  pub with_archives-WellFormed : WellFormed (with_archives db news)
  with_archives-WellFormed = record {
    log = w.log;
    ledger = w.ledger;
    registry = w.registry;
    deliveries = w.deliveries;
    archives = IsWork-append (numbered db.archive_seq news) w.archives new_work λ a b m n e.
        let r = Among-numbered db.archive_seq news b n in
        h.can.fresh a r.new m r.among (e ∙ r.same);
    archive_ids =
        Ascending-append (λ (a : ArchiveRow). a.id) db.archives (numbered db.archive_seq news)
          w.archive_ids (numbered-Ascending db.archive_seq news)
          (λ a b m n.
            omega (arith, w.archives_bounded a m, (Among-numbered db.archive_seq news b n).above));
    archives_bounded = λ a m. elim (Among-append a db.archives (numbered db.archive_seq news) m) [
      | inl l ↦ omega (arith, w.archives_bounded a l)
      | inr r ↦ omega (arith, (Among-numbered db.archive_seq news a r).within)
    ];
    disjoint = λ d a m n. elim (Among-append a db.archives (numbered db.archive_seq news) n) [
      | inl l ↦ w.disjoint d a m l
      | inr r ↦
          let k = Among-numbered db.archive_seq news a r in
          λ e. h.gone d k.new m k.among (e ∙ k.same)
    ];
  }
