-- ===== src/Backoff/Tests.antt =====
-- A backoff from one second to thirty.
use tcp_server_simulator.Prelude.{ok, refl, ◌≡◌}
use tcp_server_simulator.Backoff.{ReconnectBackoff, advance, fail, init}

abbrev fresh : ReconnectBackoff
fresh = record { initial = 1; max_seconds = 30; current = 1 }

init-fresh : init 1 30 ≡ ok fresh
unfolding init
init-fresh = refl

three_failures : (advance (fail 3 fresh)).1 ≡ 8
unfolding advance fail
three_failures = refl
