-- ===== src/Hooks/AutoSync/Reconnects.antt =====
-- The reconnect trigger of useAutoSync, over a sequence of events.
use react_native_sync_provid.Common.{
  ℕ, ◌+◌, ◌≡◌, refl, Bool, true, List, [], ◌∷◌, Option, Option-cases, none, some, inl, inr, arith,
  if◌then◌else◌,
}
use react_native_sync_provid.Types.Enums.{ConnectionStatus, connected, metered}
use react_native_sync_provid.Types.Sync.{SyncEvent}
use react_native_sync_provid.Hooks.Results.{is_connection_changed}
use react_native_sync_provid.Hooks.Runtime.{tally}
use react_native_sync_provid.Hooks.AutoSync.{
  Settings, State, event, input, on_connection, reconnects,
}
use react_native_sync_provid.Hooks.AutoSync.Triggers.{checks}

-- The status that an event reports, where it reports one.
abbrev pub reported : SyncEvent → Option ConnectionStatus
reported e = if is_connection_changed e.type then e.connection_status else none

abbrev turns_connected : Option ConnectionStatus → ℕ
turns_connected (some connected) = 0
turns_connected _ = 1

abbrev turns_metered : Option ConnectionStatus → ℕ
turns_metered (some metered) = 0
turns_metered _ = 1

-- 1 if the device turns connected, or metered where that counts, and 0 otherwise.
abbrev pub turn : Bool → Option ConnectionStatus → ConnectionStatus → ℕ
turn also_metered prev connected = turns_connected prev
turn also_metered prev metered = if also_metered then turns_metered prev else 0
turn also_metered prev _ = 0

-- How often the device does so in a sequence of events, by the statuses that they report.
unfoldable pub turns : Bool → Option ConnectionStatus → List SyncEvent → ℕ
turns also_metered prev [] = 0
turns also_metered prev (e ∷ es) = elim (reported e) [
  | none ↦ turns also_metered prev es
  | some next ↦ turn also_metered prev next + turns also_metered (some next) es
]

-- The checks, each of which leads to a flush if no cycle runs, that the listener begins on them.
unfoldable pub checks_begun : Settings → List SyncEvent → State → ℕ
checks_begun options [] s = 0
checks_begun options (e ∷ es) s =
    tally checks (input options (event e) s).1
    + checks_begun options es (input options (event e) s).0

on_connection-turn :
    (also_metered : Bool) (prev : Option ConnectionStatus) (next : ConnectionStatus) (s : State)
    → s.last_connection ≡ prev
    → tally checks (on_connection also_metered (some next) s).1 ≡ turn also_metered prev next
unfolding on_connection reconnects
on_connection-turn also_metered answer other s h = ground arith

on_connection-state :
    (also_metered : Bool) (next : ConnectionStatus) (s : State)
    → (on_connection also_metered (some next) s).0 ≡ record s { last_connection = some next }
unfolding on_connection
on_connection-state also_metered next s = ground arith

on_connection-none : (also_metered : Bool) (s : State) → on_connection also_metered none s ≡ (s, [])
unfolding on_connection
on_connection-none also_metered s = refl

input-on_connection :
    (options : Settings) (e : SyncEvent) (s : State)
    → options.flush_on_reconnect ≡ true
    → input options (event e) s ≡ on_connection options.flush_on_metered (reported e) s
unfolding input on_connection
input-on_connection options e s h = ground arith

-- With `flushOnReconnect` the listener begins exactly one check for each time that the device, by
-- the statuses that the events report, turns connected (or metered, with `flushOnMetered`), and
-- none while the status stays what it was.
pub checks_begun-turns :
    (options : Settings) (es : List SyncEvent) (s : State)
    → options.flush_on_reconnect ≡ true
    → checks_begun options es s ≡ turns options.flush_on_metered s.last_connection es
unfolding checks_begun turns
checks_begun-turns options [] s h = refl
checks_begun-turns options (e ∷ es) s h = elim (Option-cases (reported e)) [
  | inl silent ↦
      rw
        (
          input-on_connection options e s h,
          silent,
          turns,
          on_connection-none options.flush_on_metered s,
        )
        (omega (arith, checks_begun-turns options es s h))
  | inr (next, reports) ↦
      rw
        (
          input-on_connection options e s h,
          reports,
          turns,
          on_connection-turn options.flush_on_metered s.last_connection next s refl,
          on_connection-state options.flush_on_metered next s,
          checks_begun-turns options es (record s { last_connection = some next }) h,
        )
        refl
]
