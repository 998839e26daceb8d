-- ===== src/Drain/Cooldown.antt =====
-- `soonestCooldownEnd` finds the least retry deadline that is still ahead.
use react_native_sync_provid.Common.{
  ℕ, ◌≤◌, ◌<◌, ◌≡◌, ◌⊎◌, inl, refl, List, [], ◌∷◌, Option, none, some, All, arith, ltb, ◌&&◌, true,
  if◌then◌else◌,
}
use react_native_sync_provid.Types.Sync.{SyncItem}
use react_native_sync_provid.Drain.Loop.{soonest_from, soonest_cooldown_end}

-- Some item of the list is due at `t`.
abbrev pub IsDueAt : ℕ → List SyncItem → Type 0
IsDueAt t [] = ⊥
IsDueAt t (item ∷ items) = (item.next_retry_at ≡ t) ⊎ IsDueAt t items

abbrev pub IsSoonest : List SyncItem → ℕ → Option ℕ → Type 0
IsSoonest items now none = All (λ item. item.next_retry_at ≤ now) items
IsSoonest items now (some t) =
    (now < t)
    × IsDueAt t items
    × All (λ item. (item.next_retry_at ≤ now) ⊎ (t ≤ item.next_retry_at)) items

-- The same for a loop that began with a candidate.
abbrev Continues : Option ℕ → List SyncItem → ℕ → Option ℕ → Type 0
Continues none items now o = IsSoonest items now o
Continues (some s) items now none = ⊥
Continues (some s) items now (some t) =
    (now < t)
    × (t ≤ s)
    × ((t ≡ s) ⊎ IsDueAt t items)
    × All (λ item. (item.next_retry_at ≤ now) ⊎ (t ≤ item.next_retry_at)) items

candidate : Option ℕ → SyncItem → ℕ → Option ℕ
candidate soonest item now =
    if ltb now item.next_retry_at
      && (elim soonest [ none ↦ true | some t ↦ ltb item.next_retry_at t ])
    then some item.next_retry_at
    else soonest

abbrev IsAhead : ℕ → Option ℕ → Type 0
IsAhead now none = Unit
IsAhead now (some t) = now < t

candidate-IsAhead :
    (s : Option ℕ) (item : SyncItem) (now : ℕ) → IsAhead now s → IsAhead now (candidate s item now)
unfolding candidate
candidate-IsAhead none item now h = ground arith
candidate-IsAhead (some t) item now h = ground arith

Continues-candidate :
    (s : Option ℕ) (item : SyncItem) (items : List SyncItem) (now : ℕ) (o : Option ℕ)
    → IsAhead now s
    → Continues (candidate s item now) items now o
    → Continues s (item ∷ items) now o
unfolding candidate
Continues-candidate none item items now none a h = ground arith
Continues-candidate none item items now (some t) a h = ground arith
Continues-candidate (some s) item items now none a h = ground arith
Continues-candidate (some s) item items now (some t) a h = ground arith

soonest_from-Continues :
    (s : Option ℕ) (items : List SyncItem) (now : ℕ)
    → IsAhead now s
    → Continues s items now (soonest_from s items now)
unfolding soonest_from candidate
soonest_from-Continues none [] now a = tt
soonest_from-Continues (some t) [] now a = (a, omega arith, inl refl, tt)
soonest_from-Continues s (item ∷ items) now a =
    Continues-candidate s item items now (soonest_from (candidate s item now) items now) a
      (soonest_from-Continues (candidate s item now) items now (candidate-IsAhead s item now a))

-- The result is the least of the items' retry deadlines that lie after `now`, and nothing if there
-- is no such deadline.
pub soonest_cooldown_end-IsSoonest :
    (items : List SyncItem) (now : ℕ) → IsSoonest items now (soonest_cooldown_end items now)
unfolding soonest_cooldown_end
soonest_cooldown_end-IsSoonest items now = soonest_from-Continues none items now tt
