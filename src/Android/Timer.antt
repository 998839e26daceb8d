-- ===== src/Android/Timer.antt =====
-- android/.../retry/RetryTimer.kt: the timer, its threads and the network. What the timer's own thread does
-- (`onFire`) and the callback of the network come between each other and everything else.
use react_native_sync_provid.Common.{ℕ, suc, ◌+◌, ◌≤◌, ◌≡◌, Bool, true, false, if◌then◌else◌}
use react_native_sync_provid.Android.Tables.{tick}

-- `waiting` and `wakeOwed`; the firings that found the device offline and have not set the flag yet
-- (`found_offline`), and those that have set it and not looked again (`flagged`); the connection
-- and its callbacks that are due; and how many timers fired and flushes were launched.
pub record Timer : Type 0 where
  pub waiting : Bool
  pub wake_owed : Bool
  pub found_offline : ℕ
  pub flagged : ℕ
  pub online : Bool
  pub callbacks : ℕ
  pub fired : ℕ
  pub flushes : ℕ

abbrev pub idle : Bool → Timer
idle online = record {
  waiting = false;
  wake_owed = false;
  found_offline = 0;
  flagged = 0;
  online = online;
  callbacks = 0;
  fired = 0;
  flushes = 0;
}

-- `arm` and `cancel`.
abbrev pub arm : Timer → Timer
arm t = record t { waiting = true; wake_owed = false }

abbrev pub cancel : Timer → Timer
cancel t = record t { waiting = false; wake_owed = false }

-- `dispatch`.
abbrev pub dispatch : Timer → Timer
dispatch t = record t { flushes = suc t.flushes }

-- `onNetworkAvailable`: `compareAndSet` and the dispatch.
abbrev pub on_network_available : Timer → Timer
on_network_available t = if t.wake_owed then dispatch (record t { wake_owed = false }) else t

-- `onFire` up to the flag, and after it.
abbrev pub check_network : Timer → Timer
check_network t =
    if t.online
    then dispatch (record t { waiting = false; fired = suc t.fired })
    else record t { waiting = false; fired = suc t.fired; found_offline = suc t.found_offline }

abbrev pub look_again : Timer → Timer
look_again t = if t.online then on_network_available t else t

-- One step: a call, a step of `onFire`, or the network. A timer that is cancelled or armed again
-- while `onFire` runs does not stop it.
pub data Step (t : Timer) : Timer → Type 0 where
  arms : Step t (arm t)
  cancels : Step t (cancel t)
  fires : t.waiting ≡ true → Step t (check_network t)
  flags :
      (n : ℕ)
      → t.found_offline ≡ suc n
      → Step t (record t { found_offline = n; wake_owed = true; flagged = suc t.flagged })
  looks_again : (n : ℕ) → t.flagged ≡ suc n → Step t (look_again (record t { flagged = n }))
  connects : Step t (record t { online = true; callbacks = suc t.callbacks })
  disconnects : Step t (record t { online = false })
  calls_back :
      (n : ℕ) → t.callbacks ≡ suc n → Step t (on_network_available (record t { callbacks = n }))

pub data Reach (t : Timer) : Timer → Type 0 where
  start : Reach t t
  later : {u v : Timer} → Reach t u → Step u v → Reach t v

-- A wake that is owed is on its way to be delivered as soon as the device is online, and each flush
-- is the delivery of a timer that fired, at most once.
pub record IsDelivered (t : Timer) : Type 0 where
  pub on_its_way : t.wake_owed ≡ true → t.online ≡ true → 1 ≤ t.callbacks + t.flagged
  pub at_most_once : t.flushes + t.found_offline + tick t.wake_owed ≤ t.fired
