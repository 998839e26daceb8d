-- ===== src/Android/Insertion.antt =====
-- SyncItemDao's insertions, and statements that delete or change rows: ids, number and status of the rows.
use Prim.Native.String.{String}
use text.Mathlib.Text.{◌==◌ as str_eq}
use text.Mathlib.TextEquality.{eq_iff}
use react_native_sync_provid.Common.{
  ℕ, suc, ◌+◌, ◌≤◌, ◌≡◌, refl, sym, ap, ◌∙◌, Bool, true, false, ◌||◌, [], ◌∷◌, Option, none, some,
  length, arith, inl, inr, Bool-cases, if◌then◌else◌, All,
}
use react_native_sync_provid.Android.Rows.{
  SyncItemEntity, Table, kept, each, has_id, includes_row, insert, insert_batch, count_by_id,
}
use react_native_sync_provid.Android.Tables.{Distinct, tick, count-cons, count_is, count_other}
use react_native_sync_provid.Android.Settled.{Kept, NotInFlight}

pub count-each :
    (id : String) (f : SyncItemEntity → Option SyncItemEntity) (rows : Table)
    → ((t : SyncItemEntity) → Kept (λ u. u.id ≡ t.id) (f t))
    → count_by_id id (each f rows) ≤ count_by_id id rows
count-each id f [] h = omega arith
count-each id f (r ∷ rows) h = go (f r) (h r) (count-each id f rows h)
  where
    go :
        (o : Option SyncItemEntity)
        → Kept (λ u. u.id ≡ r.id) o
        → count_by_id id (each f rows) ≤ count_by_id id rows
        → count_by_id id (kept o (each f rows)) ≤ count_by_id id (r ∷ rows)
    go none k less = omega (arith, less, count-cons id r rows)
    go (some u) k less =
        let same : tick (has_id id u) ≡ tick (has_id id r) = ap (λ i. tick (str_eq i id)) k in
        omega (arith, less, same, count-cons id r rows, count-cons id u (each f rows))

pub length-each :
    (f : SyncItemEntity → Option SyncItemEntity) (rows : Table) → length (each f rows) ≤ length rows
length-each f [] = omega arith
length-each f (r ∷ rows) = go (f r) (length-each f rows)
  where
    go :
        (o : Option SyncItemEntity)
        → length (each f rows) ≤ length rows
        → length (kept o (each f rows)) ≤ suc (length rows)
    go none less = omega (arith, less)
    go (some u) less = omega (arith, less)

includes_row-count :
    (id : String) (rows : Table) → includes_row id rows ≡ false → count_by_id id rows ≡ 0
includes_row-count id [] h = refl
includes_row-count id (r ∷ rows) h = elim (Bool-cases (has_id id r)) [
  | inl is ↦ absurd (ground (arith, sym h ∙ ap (λ b. b || includes_row id rows) is))
  | inr other ↦
      count_other id r rows other
      ∙ includes_row-count id rows (sym (ap (λ b. b || includes_row id rows) other) ∙ h)
]

-- What an insertion of `n` rows leaves, where it is not refused.
abbrev pub Inserted : ℕ → Table → Option Table → Type 0
Inserted n rows none = Unit
Inserted n rows (some after) =
    Distinct after × (length after ≡ n + length rows) × All NotInFlight after

pub insert-Inserted :
    (r : SyncItemEntity) (rows : Table)
    → NotInFlight r
    → Distinct rows
    → All NotInFlight rows
    → Inserted 1 rows (insert r rows)
insert-Inserted r rows new distinct idle = go (includes_row r.id rows) refl
  where
    one_more : includes_row r.id rows ≡ false → Distinct (r ∷ rows)
    one_more fresh id = elim (Bool-cases (has_id id r)) [
      | inl is ↦
          let same : r.id ≡ id = (eq_iff r.id id).0 is in
          let unused : count_by_id id rows ≡ 0 =
            ap (λ i. count_by_id i rows) (sym same) ∙ includes_row-count r.id rows fresh in
          omega (arith, unused, count_is id r rows is)
      | inr other ↦ omega (arith, distinct id, count_other id r rows other)
    ]

    go :
        (b : Bool)
        → includes_row r.id rows ≡ b
        → Inserted 1 rows (if b then none else some (r ∷ rows))
    go true e = tt
    go false e = (one_more e, omega arith, (new, idle))

pub insert_batch-Inserted :
    (rs rows : Table)
    → All NotInFlight rs
    → Distinct rows
    → All NotInFlight rows
    → Inserted (length rs) rows (insert_batch rs rows)
insert_batch-Inserted [] rows new distinct idle = (distinct, omega arith, idle)
insert_batch-Inserted (r ∷ rs) rows new distinct idle =
    go (insert r rows) (insert-Inserted r rows new.0 distinct idle)
      (λ after d i. insert_batch-Inserted rs after new.1 d i)
  where
    go :
        (o : Option Table)
        → Inserted 1 rows o
        → ((after : Table)
            → Distinct after
            → All NotInFlight after
            → Inserted (length rs) after (insert_batch rs after))
        → Inserted
            (suc (length rs))
            rows
            (elim o [ none ↦ none | some inserted ↦ insert_batch rs inserted ])
    go none h rest = tt
    go (some after) h rest = more (insert_batch rs after) (rest after h.0 h.2)
      where
        more : (o : Option Table) → Inserted (length rs) after o → Inserted (suc (length rs)) rows o
        more none k = tt
        more (some last) k = (k.0, omega (arith, k.1, h.1), k.2)
