-- ===== src/Rpc/Lifecycle/Tests.antt =====
-- Two calls of `Shutdown` on a node that was never started.
use carlo.Common.{true, false, none, panic, ◌≡◌, ◌↔◌, refl}
use carlo.Rpc.Lifecycle.{
  Lifecycle, new_node, begin_start, begin_shutdown, shut_server, shuts, Reach, here, next,
}
use carlo.Rpc.Lifecycle.Shutdowns.{shut_server-panic_iff, begin_shutdown-shut_server}

abbrev stopping_node : Lifecycle
stopping_node = record {
  start_used = true;
  stop_used = true;
  starting = false;
  stopping = true;
  srv = none;
}

stopping_node_reach : Reach stopping_node
unfolding begin_shutdown
stopping_node_reach = next (next here shuts) shuts

shut_server-panic_iff_example : (shut_server stopping_node ≡ panic) ↔ (stopping_node.srv ≡ none)
shut_server-panic_iff_example = shut_server-panic_iff stopping_node stopping_node_reach refl

begin_shutdown-shut_server_example :
    ((begin_start (begin_shutdown new_node)).0 ≡ false)
    × ((begin_shutdown (begin_shutdown new_node)).stopping ≡ true)
    × (shut_server (begin_shutdown (begin_shutdown new_node)) ≡ panic)
begin_shutdown-shut_server_example = begin_shutdown-shut_server new_node here refl refl
