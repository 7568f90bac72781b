-- ===== src/Transmit/Client.antt =====
-- The pool of connections of streaming_transmit/client.go. A connection is named by the number of those
-- made before it; `pending` gives what `NumOfPendingWrites` returns for a connection at the time of the
-- call, and `max` is what `getMaxConns` returns.
pub mod Choice
pub mod Pool
pub mod Dial
pub mod Leaks
mod Tests
use carlo.Common.{
  ℕ, zero, suc, ◌+◌, Bool, true, false, List, [], ◌∷◌, ◌++◌, length, ltb, ◌==◌, if◌then◌else◌,
}

pub record Client : Type 0 where
  pub conns : List ℕ
  pub made : ℕ

-- `newClientConn`, up to the goroutine that dials.
unfoldable pub new_client_conn : Client → ℕ × Client
new_client_conn c = (c.made, record { conns = c.conns ++ c.made ∷ []; made = c.made + 1 })

-- How the loop of `getClientConn` ends: with a connection that has nothing to write, or with one that
-- has the least to write.
pub data Found : Type 0 where
  idle : ℕ → Found
  least : ℕ → Found

-- The loop, with `mc` and `mp`.
unfoldable pub scan : (ℕ → ℕ) → ℕ → ℕ → List ℕ → Found
scan pending mc mp [] = least mc
scan pending mc mp (conn ∷ conns) =
    let cp = pending conn in
    let lower = ltb cp mp in
    let rest = scan pending (if lower then conn else mc) (if lower then cp else mp) conns in
    if cp == 0 then idle conn else rest

unfoldable pub choose : (ℕ → ℕ) → ℕ → List ℕ → Found
choose pending mc conns = if pending mc == 0 then idle mc else scan pending mc (pending mc) conns

-- The connection that `getClientConn` returns, and the client afterwards.
unfoldable pub from_pool : (ℕ → ℕ) → ℕ → Client → List ℕ → ℕ × Client
from_pool pending max c [] = new_client_conn c
from_pool pending max c (mc ∷ conns) = elim (choose pending mc conns) [
  | idle conn ↦ (conn, c)
  | least conn ↦ if ltb (length (mc ∷ conns)) max then new_client_conn c else (conn, c)
]

unfoldable pub get_client_conn : (ℕ → ℕ) → ℕ → Client → ℕ × Client
get_client_conn pending max c = from_pool pending max c c.conns

unfoldable pub without : ℕ → List ℕ → List ℕ
without conn [] = []
without conn (entry ∷ entries) =
    let rest = without conn entries in if entry == conn then rest else entry ∷ rest

unfoldable pub delete_client_conn : ℕ → Client → Client
delete_client_conn conn c = record c { conns = without conn c.conns }
