-- ===== src/Tests/Ping.antt =====
-- Runs of ping.
use rtems_ssrl_apps.Prelude.{◌≡◌, refl, true, ◌↔◌, [], ◌∷◌}
use rtems_ssrl_apps.Net.Ping.{Reply, Request, success, wait}
use rtems_ssrl_apps.Net.Ping.Replies.{Answered, wait-Answered}

abbrev request : Request
request = record { id = 7; seq = 3; dest = 9; send_time = 4294967200; us_per_tick = 10000 }

-- An answer to another request, then that to this one.
abbrev stale : Reply
stale = record {
  set = true;
  now = 4294967210;
  is_echoreply = true;
  id = 7;
  seq = 2;
  from = 9;
  same_data = true;
}

abbrev fresh : Reply
fresh = record stale { seq = 3; now = 4294967220 }

wait_succeeds : (wait request 4294967290 4294967200 (stale ∷ fresh ∷ [])).0 ≡ success
unfolding wait
wait_succeeds = refl

wait-Answered_example :
    ((wait request 4294967290 4294967200 (stale ∷ fresh ∷ [])).0 ≡ success)
    ↔ Answered request 4294967290 4294967200 (stale ∷ fresh ∷ [])
wait-Answered_example = wait-Answered request 4294967290 4294967200 (stale ∷ fresh ∷ [])
