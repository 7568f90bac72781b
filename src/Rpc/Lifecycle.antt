-- ===== src/Rpc/Lifecycle.antt =====
-- `Start` and `Shutdown` of streaming_rpc/streamnode.go, called in any order by any threads. Each use of a
-- `sync.Once` and each access to the server is a step.
pub mod Shutdowns
mod Tests
use carlo.Common.{Bool, true, false, Option, none, some, Outcome, ok, panic, if◌then◌else◌, ◌≡◌}

-- Whether `start` and `stop` have been used, whether a thread of `Start` is about to make the server, and
-- one of `Shutdown` about to shut it down; and the server, nil or with whether its `done` is closed.
pub record Lifecycle : Type 0 where
  pub start_used : Bool
  pub stop_used : Bool
  pub starting : Bool
  pub stopping : Bool
  pub srv : Option Bool

abbrev pub new_node : Lifecycle
new_node = record {
  start_used = false;
  stop_used = false;
  starting = false;
  stopping = false;
  srv = none;
}

-- `n.start.Do(func() { start = true })`: true if `Start` goes on, false for "listener already started".
unfoldable pub begin_start : Lifecycle → Bool × Lifecycle
begin_start s =
    if s.start_used then (false, s) else (true, record s { start_used = true; starting = true })

-- `n.setStreamTransmitServer()`
unfoldable pub set_server : Lifecycle → Lifecycle
set_server s = record s { starting = false; srv = some false }

-- `Shutdown` up to the call on the server, which it reaches with `stopping` set.
unfoldable pub begin_shutdown : Lifecycle → Lifecycle
begin_shutdown s =
    if s.start_used
    then if s.stop_used then s else record s { stop_used = true; stopping = true }
    else record s { start_used = true }

-- `n.Srv.Shutdown()`: it panics on a nil server, and closes `done`, which panics if that is closed.
unfoldable pub shut_server : Lifecycle → Outcome Lifecycle
shut_server s = elim s.srv [
  | none ↦ panic
  | some closed ↦ if closed then panic else ok (record s { stopping = false; srv = some true })
]

pub data Step (s : Lifecycle) : Outcome Lifecycle → Type 0 where
  starts : Step s (ok (begin_start s).1)
  sets : s.starting ≡ true → Step s (ok (set_server s))
  shuts : Step s (ok (begin_shutdown s))
  stops : s.stopping ≡ true → Step s (shut_server s)

pub data Reach : Lifecycle → Type 0 where
  here : Reach new_node
  next : {s r : Lifecycle} → Reach s → Step s (ok r) → Reach r
