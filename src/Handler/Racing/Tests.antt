-- ===== src/Handler/Racing/Tests.antt =====
-- Work_generates that race (src/workserver/work_handler.cpp), with the reference libraries.
use pow_server.Bigint.{from_hex, number, of_hex, overlay, set}
use pow_server.Bigint.Digits.{is_hex}
use pow_server.Bigint.Reference.{all_hex, bytes_of, digits_of, scan, strip}
use pow_server.Config.{default_server}
use pow_server.Prelude.{
  ℕ, ◌≤◌, ◌<◌, ◌++◌, ◌≡◌, refl, ap, length, subst, [], ◌∷◌, none, some, Text, codes, text_eq, false,
  arith,
}
use pow_server.Json.{Key-discrete}
use pow_server.Json.Reference.{
  choose, double_of, find, key_of, pairs, strings, text_of, unsigned_of,
}
use pow_server.Job.{fetch_add, less, new_job, set_priority, start}
use pow_server.JobQueue.{pop_job, push, take_top}
use pow_server.Handler.{new_handler, Handler, PoolTask}
use pow_server.Handler.Accounting.{tally, reply_client}
use pow_server.Handler.Reference.{lib}
use pow_server.Handler.Request.{
  fill_job, granted_priority, requested_difficulty, handle_request_async, dispatch, generate,
  report,
}
use pow_server.Handler.Racing.{
  Racing, Prepared, prepare, prepare_action, prepare_job, dispense, on_prepare,
}
use pow_server.Handler.Racing.Lambdas.{threads, on_lambda, on_pop}
use pow_server.Handler.Racing.Steps.{Reach, alone, initial, later, prepares, takes, pops}
use pow_server.Handler.Racing.Composed.{Reach-Reach}
use pow_server.Handler.Racing.Settled.{settled_lem}
use pow_server.Handler.Racing.Swapped.{swapped_lem, two_prepared}
use pow_server.Handler.Run.{
  asked, queued_job, never_throws, mocking, generate_body, finished, cycle, finished-Reach, idle,
  idle_running,
}
use pow_server.Handler.Racing.Drivers.{driver_available}
use pow_server.Handler.Racing.Held.{holders}
use pow_server.Handler.Stages.{Popped, find_driver, pop_top}
use pow_server.Handler.System as HandlerSystem
use pow_server.Handler.System.{System, init, on_finish, request, on_request}

no_thread : threads (alone lib mocking finished) ≡ 0
unfolding on_finish
no_thread = ap length cycle.2

settled_lem_example :
    (finished.handler.jobs ≡ [])
    × ((c : ℕ) → tally reply_client c finished.replies ≡ tally (λ client. client) c finished.asked)
settled_lem_example =
    settled_lem lib mocking (Reach-Reach lib mocking finished-Reach) refl refl no_thread cycle.1

abbrev other_body : Text
other_body = codes "{\"action\": \"work_generate\", \"hash\": \"0b\"}"

abbrev nothing_prepared : Prepared ℕ
nothing_prepared = record { task = idle_running.task; job = idle_running.job }

abbrev first : Prepared ℕ
first = elim (prepare lib mocking generate_body 5 idle) [ none ↦ nothing_prepared | some p ↦ p ]

abbrev begun : Racing ℕ
begun = on_prepare lib mocking 5 first (alone lib mocking (init lib mocking))

abbrev second : Prepared ℕ
second = elim (prepare lib mocking other_body 6 begun.system.handler) [
  | none ↦ nothing_prepared
  | some p ↦ p
]

abbrev both : Racing ℕ
both = on_prepare lib mocking 6 second begun

preparing :
    (prepare lib mocking generate_body 5 idle ≡ some first)
    × (prepare lib mocking other_body 6 begun.system.handler ≡ some second)
    × (both ≡ two_prepared lib mocking both second first)
    × (less first.job second.job ≡ false)
unfolding prepare prepare_action prepare_job dispense on_prepare text_eq of_hex from_hex number
    overlay set is_hex scan strip all_hex digits_of bytes_of default_server fetch_add less new_job
    set_priority Key-discrete choose find key_of pairs strings text_of double_of unsigned_of
    new_handler fill_job granted_priority requested_difficulty
preparing = (refl, refl, refl, refl)

both-Reach : Reach lib mocking (two_prepared lib mocking both second first)
both-Reach = subst (Reach lib mocking) preparing.2 (
    later (later initial (prepares generate_body 5 first preparing.0))
      (prepares other_body 6 second preparing.1))

room : 2 ≤ mocking.server.request_limit
unfolding default_server
room = omega arith

-- The second request's lambda is the next to run, the first request's job the next to be served.
swapped_lem_example :
    (t : Racing ℕ) × Reach lib mocking t
    × (t.preparing ≡ [])
    × (t.posting ≡ [])
    × (t.system.handler.posted ≡ second.task ∷ first.task ∷ [])
    × (pop_job t.system.handler.jobs ≡ some (first.job, second.job ∷ []))
swapped_lem_example = swapped_lem lib mocking both second first both-Reach preparing.3 room

abbrev lambda : PoolTask
lambda = record { correlation_id = some (codes "7"); client = 5 }

abbrev popping : Racing ℕ
popping =
    on_pop lib mocking [] lambda [] (on_lambda lib mocking lambda [] (alone lib mocking asked))

abbrev popped_first : Popped ℕ
popped_first = record { task = lambda; job = queued_job }

popped_facts :
    (asked.handler.posted ≡ lambda ∷ [])
    × (popping.popped ≡ [] ++ popped_first ∷ [])
    × (threads (alone lib mocking asked) < 1)
unfolding on_request on_lambda on_pop handle_request_async dispatch generate report pop_top pop_job
    text_eq of_hex from_hex number overlay set is_hex scan strip all_hex digits_of bytes_of
    default_server fetch_add less new_job set_priority Key-discrete choose find key_of pairs strings
    text_of double_of unsigned_of new_handler fill_job granted_priority requested_difficulty push
    take_top
popped_facts = (refl, refl, omega arith)

popping-Reach : Reach lib mocking popping
unfolding on_lambda
popping-Reach =
    later
      (later
        (Reach-Reach lib mocking
          (HandlerSystem.later HandlerSystem.initial (request generate_body 5)))
        (takes lambda [] popped_facts.0 popped_facts.2))
      (pops [] lambda [] refl)

driver_available_example :
    (i : ℕ) × (h : Handler ℕ) × (i < length mocking.devices)
    × (holders popping i ≡ 0)
    × (find_driver lib mocking 8 popped_first popping.system.handler
        ≡ (h, [], some (record { task = lambda; device = i; job = start 8 popped_first.job })))
driver_available_example =
    driver_available lib mocking 8 [] popped_first [] never_throws popping-Reach popped_facts.1
