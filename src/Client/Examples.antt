-- ===== src/Client/Examples.antt =====
-- llm_client.py: a call over two keys, and the theorems at it.
use label_kit.Prelude.{ℕ, ◌+◌, ◌*◌, ◌≤◌, ◌≡◌, refl, ◌⊎◌, true, Option, none, some, List, [], ◌∷◌}
use label_kit.Breaker.{new, record_provider_result}
use label_kit.Client.Pool.{
  KeyState, new_pool, new_key, live, select, least, earliest_wake, update_key, key_at,
}
use label_kit.Client.Pool.Count.{live_count}
use label_kit.Client.Pool.Select.{IsSelection, select-IsSelection}
use label_kit.Client.Call.{
  Spec, Call, returned, Reply, response, Event, resume, wake, replied, ProfileUsage, parsed,
  update_usage,
}
use label_kit.Client.Call.Steps.{run, start, send_with, begin_park}
use label_kit.Client.Progress.{moves, is_over, CanMove}
use label_kit.Client.Progress.Ends.{call_ends}
use label_kit.Client.Accounting.{IsAccounted}
use label_kit.Client.Accounting.Run.{run-IsAccounted}

abbrev two_keys : List KeyState
unfolding new_pool new_key
two_keys = new_pool 0 ("KEY_A" ∷ "KEY_B" ∷ [])

abbrev no_use : ProfileUsage
no_use = record { retries = 0; parked_calls = 0; parked_ms = 0; keys = [] }

abbrev spec : Spec
spec = record {
  max_retries = 2;
  retry_base_delay = 1000000;
  context_window = 0;
  park_budget = 60000000;
  lower = λ text. text;
}

abbrev answered : ℕ → Option ℕ → Reply ℕ
answered status wait =
    response (record { status_code = status; body = []; retry_after = wait; decoded = parsed 7 })

-- The first key is refused, the second is limited for 5 seconds, and then answers.
abbrev refused_then_limited : List (Event ℕ)
refused_then_limited =
    resume 0
    ∷ replied 3 10 (λ u. u) (answered 401 none)
    ∷ resume 10
    ∷ replied 4 20 (λ u. u) (answered 429 (some 5000000))
    ∷ resume 20
    ∷ wake 1000000
    ∷ wake 5000020
    ∷ resume 5000020
    ∷ replied 5 5000030 (λ u. u) (answered 200 none)
    ∷ []

abbrev begun : Call ℕ
unfolding start two_keys new
begun = start two_keys (new 3) no_use

limited_run : (run spec refused_then_limited begun).phase ≡ returned 7
unfolding run begun record_provider_result live select earliest_wake update_key key_at send_with
    least update_usage begin_park
limited_run = refl

select-IsSelection_example : IsSelection 20 two_keys (select 20 two_keys)
select-IsSelection_example = select-IsSelection 20 two_keys

call_ends_example :
    (moves spec refused_then_limited (start two_keys (new 3) no_use)
      ≤ 2 * (2 + live_count two_keys + 60000000) + 2)
    × ((is_over (run spec refused_then_limited (start two_keys (new 3) no_use)).phase ≡ true)
        ⊎ CanMove (run spec refused_then_limited (start two_keys (new 3) no_use)))
unfolding two_keys
call_ends_example = call_ends spec two_keys (new 3) no_use refused_then_limited (refl, (refl, tt))

run-IsAccounted_example :
    IsAccounted spec (run spec refused_then_limited (start two_keys (new 3) no_use))
run-IsAccounted_example = run-IsAccounted spec two_keys (new 3) no_use refused_then_limited
