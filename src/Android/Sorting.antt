-- ===== src/Android/Sorting.antt =====
-- SyncItemDao: what `ORDER BY priorityWeight ASC, createdAt ASC` makes of the rows.
use react_native_sync_provid.Common.{
  ◌≤◌, ◌<◌, ◌≡◌, ◌⊎◌, inl, inr, true, false, Bool-cases, [], ◌∷◌, arith, All,
}
use react_native_sync_provid.Hooks.Runtime.{Picks, here, there}
use react_native_sync_provid.Android.Rows.{
  SyncItemEntity, Table, goes_before, put_in_order, order_by,
}
use react_native_sync_provid.Android.Tables.{Arranges, done, next}

-- Of two rows, the one that is more urgent, or as urgent and not younger, may come first.
abbrev pub Precedes : SyncItemEntity → SyncItemEntity → Type 0
Precedes a b =
    (a.priority_weight < b.priority_weight)
    ⊎ ((a.priority_weight ≡ b.priority_weight) × (a.created_at ≤ b.created_at))

abbrev pub IsSorted : Table → Type 0
IsSorted [] = Unit
IsSorted (r ∷ rows) = All (Precedes r) rows × IsSorted rows

swap :
    {x r : SyncItemEntity} {zs ys rest : Table}
    → Picks r zs ys
    → Picks x ys rest
    → (left : Table) × Picks x zs left × Picks r left rest
swap {r} here q = (_, there q, here)
swap (there p) here = (_, here, p)
swap (there p) (there q) = let (left, q', p') = swap p q in (_, there q', there p')

put_in_order-Arranges :
    (r : SyncItemEntity) (xs : Table) {ys zs : Table}
    → Arranges xs ys
    → Picks r zs ys
    → Arranges (put_in_order r xs) zs
put_in_order-Arranges r [] done p = next p done
put_in_order-Arranges r (x ∷ xs) {ys} {zs} (next q a) p = elim (Bool-cases (goes_before r x)) [
  | inl first ↦ rw first (next p (next q a))
  | inr after ↦
      let (left, q', p') = swap p q in rw after (next q' (put_in_order-Arranges r xs a p'))
]

-- The rows are all there, each once.
pub order_by-Arranges : {xs ys : Table} → Arranges xs ys → Arranges (order_by xs) ys
order_by-Arranges done = done
order_by-Arranges (next {x} {xs} p a) =
    put_in_order-Arranges x (order_by xs) (order_by-Arranges a) p

Precedes-trans : (a b c : SyncItemEntity) → Precedes a b → Precedes b c → Precedes a c
Precedes-trans a b c h k = ground arith

All-Precedes :
    (a b : SyncItemEntity) (rows : Table)
    → Precedes a b
    → All (Precedes b) rows
    → All (Precedes a) rows
All-Precedes a b [] h k = tt
All-Precedes a b (c ∷ rows) h k = (Precedes-trans a b c h k.0, All-Precedes a b rows h k.1)

before_first : (a b : SyncItemEntity) → goes_before a b ≡ true → Precedes a b
before_first a b h = ground arith

before_second : (a b : SyncItemEntity) → goes_before a b ≡ false → Precedes b a
before_second a b h = ground arith

All-put_in_order :
    (a r : SyncItemEntity) (rows : Table)
    → Precedes a r
    → All (Precedes a) rows
    → All (Precedes a) (put_in_order r rows)
All-put_in_order a r [] h k = (h, tt)
All-put_in_order a r (x ∷ rows) h k = elim (Bool-cases (goes_before r x)) [
  | inl first ↦ rw first (h, k)
  | inr after ↦ rw after (k.0, All-put_in_order a r rows h k.1)
]

put_in_order-IsSorted :
    (r : SyncItemEntity) (rows : Table) → IsSorted rows → IsSorted (put_in_order r rows)
put_in_order-IsSorted r [] h = (tt, tt)
put_in_order-IsSorted r (x ∷ rows) h = elim (Bool-cases (goes_before r x)) [
  | inl first ↦ let p = before_first r x first in rw first ((p, All-Precedes r x rows p h.0), h)
  | inr after ↦
      rw after
        (All-put_in_order x r rows (before_second r x after) h.0, put_in_order-IsSorted r rows h.1)
]

pub order_by-IsSorted : (rows : Table) → IsSorted (order_by rows)
order_by-IsSorted [] = tt
order_by-IsSorted (r ∷ rows) = put_in_order-IsSorted r (order_by rows) (order_by-IsSorted rows)
