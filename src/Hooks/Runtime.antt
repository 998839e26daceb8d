-- ===== src/Hooks/Runtime.antt =====
-- What React and the event loop do for one mounted hook: the promises that it waits for settle in
-- any order, inputs (events, timers, calls of the component) come at any time, and the effect's
-- cleanup runs once. A `setState` is seen by every later step.
use Prim.Native.String.{String}
use react_native_sync_provid.Common.{
  ◌≡◌, refl, ap, Bool, true, false, List, [], ◌∷◌, ◌++◌, Option, none, some, ℕ, ◌+◌, arith,
}

-- The code of a hook, over its state `S`, the waits `W` that it can be in, what can settle them
-- (`R`), and its inputs `I`. Each handler gives the state after it and the waits that it begins.
-- `removal` and `subscription` read the calls of `removeSyncEventListener` and the answers of
-- `addSyncEventListener` off them.
pub record Program (S W R I : Type 0) : Type 0 where
  pub settles : R → W
  pub settle : R → S → S × List W
  pub input : I → S → S × List W
  pub cleanup : S → S × List W
  pub removal : W → Option String
  pub subscription : R → Option String

abbrev pub listed : Option String → List String → List String
listed none ids = ids
listed (some id) ids = id ∷ ids

abbrev pub collect : {W : Type 0} → (W → Option String) → List W → List String → List String
collect f [] ids = ids
collect f (w ∷ ws) ids = listed (f w) (collect f ws ids)

pub collect-append :
    {W : Type 0} (f : W → Option String) (xs ys : List W) (ids : List String)
    → collect f (xs ++ ys) ids ≡ collect f xs (collect f ys ids)
collect-append f [] ys ids = refl
collect-append f (x ∷ xs) ys ids = ap (listed (f x)) (collect-append f xs ys ids)

-- A hook at work: the waits that are pending, and, newest first, all that were begun and all that
-- settled one.
pub record Running (S W R : Type 0) : Type 0 where
  pub state : S
  pub pending : List W
  pub mounted : Bool
  pub calls : List W
  pub answers : List R

-- Taking one of the waits.
pub data Picks {W : Type 0} (w : W) : List W → List W → Type 0 where
  here : {ws : List W} → Picks w (w ∷ ws) ws
  there : {v : W} {ws rest : List W} → Picks w ws rest → Picks w (v ∷ ws) (v ∷ rest)

module _ {S W R I : Type 0} (p : Program S W R I) where
  abbrev pub begun : S × List W → Running S W R
  begun (s, ws) = record { state = s; pending = ws; mounted = true; calls = ws; answers = [] }

  abbrev pub continued : Running S W R → S × List W → List W → Running S W R
  continued h (s, ws) rest = record h { state = s; pending = rest ++ ws; calls = ws ++ h.calls }

  abbrev pub settled_by : Running S W R → R → List W → Running S W R
  settled_by h r rest = record (continued h (p.settle r h.state) rest) { answers = r ∷ h.answers }

  abbrev pub received_by : Running S W R → I → Running S W R
  received_by h i = continued h (p.input i h.state) h.pending

  abbrev pub unmounted_by : Running S W R → Running S W R
  unmounted_by h = record (continued h (p.cleanup h.state) h.pending) { mounted = false }

  -- The listeners that native has given out, and those whose removal was asked for.
  abbrev pub obtained : Running S W R → List String
  obtained h = collect p.subscription h.answers []

  abbrev pub removed : Running S W R → List String
  removed h = collect p.removal h.calls []

  pub data Step (h : Running S W R) : Running S W R → Type 0 where
    settles :
        (r : R) {rest : List W} → Picks (p.settles r) h.pending rest → Step h (settled_by h r rest)
    receives : (i : I) → Step h (received_by h i)
    unmounts : h.mounted ≡ true → Step h (unmounted_by h)

  pub data Reach (h : Running S W R) : Running S W R → Type 0 where
    start : Reach h h
    later : {g k : Running S W R} → Reach h g → Step g k → Reach h k

  -- What every step keeps holds of all that is reached.
  pub Reach-inv :
      (P : Running S W R → Type 0)
      → ((g k : Running S W R) → Step g k → P g → P k)
      → {h k : Running S W R} → P h
      → Reach h k
      → P k
  Reach-inv P keep holds start = holds
  Reach-inv P keep holds (later {g} {k} r st) = keep g k st (Reach-inv P keep holds r)

  pub Reach-trans : {h k m : Running S W R} → Reach h k → Reach k m → Reach h m
  Reach-trans r start = r
  Reach-trans r (later q st) = later (Reach-trans r q) st

-- How many of the waits are of a kind.
abbrev pub tally : {W : Type 0} → (W → ℕ) → List W → ℕ
tally f [] = 0
tally f (w ∷ ws) = f w + tally f ws

pub tally-Picks :
    {W : Type 0} (f : W → ℕ) {w : W} {ws rest : List W}
    → Picks w ws rest
    → tally f ws ≡ f w + tally f rest
tally-Picks f here = refl
tally-Picks f (there p) = omega (arith, tally-Picks f p)

pub tally-append :
    {W : Type 0} (f : W → ℕ) (xs ys : List W) → tally f (xs ++ ys) ≡ tally f xs + tally f ys
tally-append f [] ys = omega arith
tally-append f (x ∷ xs) ys = omega (arith, tally-append f xs ys)
