-- ===== src/Transmit/Server.antt =====
-- streaming_transmit/server.go: one call of `Serve`, the goroutines of its connections, and `Shutdown`.
-- `sem` is the number of tokens in the channel `s.sem`, whose capacity is what `getMaxConns` returned;
-- `running` counts the goroutines inside `client`, `closing` those behind it.
pub mod Bounds
mod Tests
use carlo.Common.{
  ℕ, ◌+◌, ◌-◌, ◌<◌, ◌≡◌, ◌≢◌, Bool, true, false, Outcome, ok, panic, if◌then◌else◌, ◌==◌,
}

-- `Serve` is at `Accept` or in `serverAvailable`, or it has a token for a connection.
pub data Serving : Type 0 where
  accepting : Serving
  holding : Serving

pub record Server : Type 0 where
  pub sem : ℕ
  pub wg : ℕ
  pub done : Bool
  pub serving : Serving
  pub running : ℕ
  pub closing : ℕ

-- A server after `init`.
abbrev pub new_server : Server
new_server = record { sem = 0; wg = 0; done = false; serving = accepting; running = 0; closing = 0 }

-- `case s.sem <- struct{}{}: return true`
unfoldable pub take_token : Server → Server
take_token s = record s { sem = s.sem + 1; serving = holding }

-- `s.wg.Add(1); go func() { ... }()`
unfoldable pub start_client : Server → Server
start_client s = record s { wg = s.wg + 1; serving = accepting; running = s.running + 1 }

-- The end of `client` on any path: `<-s.sem`, which waits on an empty channel.
unfoldable pub end_client : Server → Server
end_client s = record s { sem = s.sem - 1; running = s.running - 1; closing = s.closing + 1 }

-- `conn.Close()` and the deferred `s.wg.Done()`, which panics on a counter of 0.
unfoldable pub finish_client : Server → Outcome Server
finish_client s =
    if s.wg == 0 then panic else ok (record s { wg = s.wg - 1; closing = s.closing - 1 })

-- `close(s.done)`, which panics on a closed channel.
unfoldable pub close_done : Server → Outcome Server
close_done s = if s.done then panic else ok (record s { done = true })

-- The steps of the threads. A full channel refuses a token; a select takes any case that is ready, so
-- a token can be had with `done` closed.
pub data Step (max : ℕ) (s : Server) : Outcome Server → Type 0 where
  token : s.serving ≡ accepting → s.sem < max → Step max s (ok (take_token s))
  started : s.serving ≡ holding → Step max s (ok (start_client s))
  ended : s.running ≢ 0 → s.sem ≢ 0 → Step max s (ok (end_client s))
  finished : s.closing ≢ 0 → Step max s (finish_client s)
  shut : Step max s (close_done s)

pub data Reach (max : ℕ) : Server → Type 0 where
  start : Reach max new_server
  step : {s r : Server} → Reach max s → Step max s (ok r) → Reach max r
