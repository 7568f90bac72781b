-- ===== src/Transmit/Server/Tests.antt =====
-- Runs of a server for one connection.
use carlo.Common.{◌+◌, ◌≤◌, ◌≡◌, ◌↔◌, refl, true, arith, panic}
use carlo.Transmit.Server.{
  Server, new_server, take_token, start_client, finish_client, close_done, token, started, shut,
  Reach, start, step,
}
use carlo.Transmit.Server.Bounds
use carlo.Transmit.Server.Bounds.{tokens}

-- A connection that is being served.
abbrev one_client : Server
one_client = record new_server { sem = 1; wg = 1; running = 1 }

one_client-Reach : Reach 1 one_client
unfolding take_token start_client
one_client-Reach = step (step start (token refl (omega arith))) (started refl)

server_bounded_example :
    (one_client.sem ≡ one_client.running + tokens one_client.serving)
    × (one_client.sem ≤ 1)
    × ((finish_client one_client ≡ panic) ↔ ((one_client.running ≡ 0) × (one_client.closing ≡ 0)))
    × ((one_client.wg ≡ 0) ↔ ((one_client.running ≡ 0) × (one_client.closing ≡ 0)))
server_bounded_example = Bounds.server_bounded 1 one_client one_client-Reach

closed_server : close_done (record new_server { done = true }) ≡ panic
unfolding close_done
closed_server = refl

-- A connection that comes after `Shutdown` has closed `done` can still get a token and be served.
served_after_shutdown : Reach 1 (record one_client { done = true })
unfolding take_token start_client close_done
served_after_shutdown = step (step (step start shut) (token refl (omega arith))) (started refl)
