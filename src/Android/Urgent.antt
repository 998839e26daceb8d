-- ===== src/Android/Urgent.antt =====
-- SyncItemDao.claimPending: which rows a claim takes.
use react_native_sync_provid.Common.{
  ℕ, zero, suc, ◌≤◌, min, ◌≡◌, refl, ap, ◌∙◌, Bool, true, false, ◌&&◌, [], ◌∷◌, ◌++◌, length, arith,
  leb, leb→le, if◌then◌else◌, All,
}
use react_native_sync_provid.Hooks.Runtime.{Picks, here, there}
use react_native_sync_provid.Android.Rows.{
  SyncItemEntity, RowStatus, pending, in_flight, failed, is_pending, Table, select, take, claimable,
  claim_pending, order_by,
}
use react_native_sync_provid.Android.Sorting.{
  Precedes, IsSorted, order_by-Arranges, order_by-IsSorted,
}
use react_native_sync_provid.Android.Tables.{Arranges, done, next}
use react_native_sync_provid.Android.Budget.{All-take, All-Arranges}

abbrev pub IsDue : ℕ → SyncItemEntity → Type 0
IsDue now r = (r.status ≡ pending) × (r.next_retry_at ≤ now)

abbrev pub drop : ℕ → Table → Table
drop zero rows = rows
drop (suc n) [] = []
drop (suc n) (r ∷ rows) = drop n rows

-- A claim of `limit` rows at the time `now`, and the rows that it leaves.
pub record IsClaim (now limit : ℕ) (table claimed : Table) : Type 0 where
  pub left : Table
  pub whole : Arranges (claimed ++ left) (select (claimable now) table)
  pub due : All (IsDue now) claimed
  pub size : length claimed ≡ min limit (length (select (claimable now) table))
  pub sorted : IsSorted claimed
  pub urgent : All (λ c. All (Precedes c) left) claimed

take-drop : (n : ℕ) (rows : Table) → take n rows ++ drop n rows ≡ rows
take-drop zero rows = refl
take-drop (suc n) [] = refl
take-drop (suc n) (r ∷ rows) = ap (λ t. r ∷ t) (take-drop n rows)

length-take : (n : ℕ) (rows : Table) → length (take n rows) ≡ min n (length rows)
length-take zero rows = omega arith
length-take (suc n) [] = omega arith
length-take (suc n) (r ∷ rows) = omega (arith, length-take n rows)

All-drop : (P : SyncItemEntity → Type 0) (n : ℕ) (rows : Table) → All P rows → All P (drop n rows)
All-drop P zero rows h = h
All-drop P (suc n) [] h = tt
All-drop P (suc n) (r ∷ rows) h = All-drop P n rows h.1

take-IsSorted : (n : ℕ) (rows : Table) → IsSorted rows → IsSorted (take n rows)
take-IsSorted zero rows h = tt
take-IsSorted (suc n) [] h = tt
take-IsSorted (suc n) (r ∷ rows) h = (All-take (Precedes r) n rows h.0, take-IsSorted n rows h.1)

take-urgent :
    (n : ℕ) (rows : Table) → IsSorted rows → All (λ c. All (Precedes c) (drop n rows)) (take n rows)
take-urgent zero rows h = tt
take-urgent (suc n) [] h = tt
take-urgent (suc n) (r ∷ rows) h = (All-drop (Precedes r) n rows h.0, take-urgent n rows h.1)

length-Picks :
    {r : SyncItemEntity} {rows rest : Table} → Picks r rows rest → length rows ≡ suc (length rest)
length-Picks here = refl
length-Picks (there p) = ap suc (length-Picks p)

length-Arranges : {xs ys : Table} → Arranges xs ys → length xs ≡ length ys
length-Arranges done = refl
length-Arranges (next p a) = omega (arith, length-Picks p, length-Arranges a)

is_due :
    (status : RowStatus) (at now : ℕ)
    → (is_pending status && leb at now) ≡ true
    → (status ≡ pending) × (at ≤ now)
is_due pending at now e = (refl, leb→le at now e)
is_due in_flight at now e = absurd (ground (arith, e))
is_due failed at now e = absurd (ground (arith, e))

select-IsDue : (now : ℕ) (table : Table) → All (IsDue now) (select (claimable now) table)
select-IsDue now [] = tt
select-IsDue now (r ∷ rows) = go (claimable now r) refl (select-IsDue now rows)
  where
    go :
        (b : Bool)
        → claimable now r ≡ b
        → All (IsDue now) (select (claimable now) rows)
        → All
            (IsDue now)
            (if b then r ∷ select (claimable now) rows else select (claimable now) rows)
    go true e rest = (is_due r.status r.next_retry_at now e, rest)
    go false e rest = rest

-- A claim takes rows that are pending and whose cooldown is over, as many as there are up to the
-- limit, by priority and then by age; and every such row that it leaves comes after each row that it
-- takes: in whatever order the statement comes upon the rows that it selects.
pub claim_pending-IsClaim :
    (scan : Table → Table) (now limit : ℕ) (table : Table)
    → Arranges (scan (select (claimable now) table)) (select (claimable now) table)
    → IsClaim now limit table (claim_pending scan now limit table).1
claim_pending-IsClaim scan now limit table orders =
    let eligible = select (claimable now) table in
    let rows = order_by (scan eligible) in
    let ordered : Arranges rows eligible = order_by-Arranges orders in
    let sorts = order_by-IsSorted (scan eligible) in
    record {
      left = drop limit rows;
      whole = rw (take-drop limit rows) ordered;
      due =
          All-take (IsDue now) limit rows
            (All-Arranges (IsDue now) ordered (select-IsDue now table));
      size = length-take limit rows ∙ ap (min limit) (length-Arranges ordered);
      sorted = take-IsSorted limit rows sorts;
      urgent = take-urgent limit rows sorts;
    }
