-- ===== src/Handler/Tests.antt =====
-- The theorems on the handler (src/workserver/work_handler.cpp) at concrete inputs.
use pow_server.Prelude.{ℕ, ◌<◌, ◌≡◌, List, [], ◌∷◌, some, codes, arith}
use pow_server.Handler.{Handler, PoolTask}
use pow_server.Handler.Reference.{lib}
use pow_server.Handler.Request.{handle_request_async}
use pow_server.Handler.Outcome.{Outcome, handle_request-Outcome}
use pow_server.Handler.Own.{take_task-own}
use pow_server.Handler.Accounting.{tally}
use pow_server.Handler.Answers.{IsSystem, Reach-IsSystem}
use pow_server.Handler.Pool.{begin_task-IsBegun, IsBegun}
use pow_server.Prelude.{◌+◌, ◌<◌, ◌^◌, length}
use pow_server.Handler.Shown.{active_jobs-running}
use pow_server.Handler.Tallies.{running_place}
use pow_server.Handler.Task.Active.{IsOrdered}
use pow_server.Handler.Task.Places.{place}
use pow_server.Handler.System.{on_take, on_request}
use pow_server.Handler.Run.{
  mocking, cancel_body, asked, taken, worked, finished, cycle, never_throws, taken-Reach,
  finished-Reach, queued_job, queueing, asked-Calm,
}

Reach-IsSystem_example : IsSystem lib mocking 0 (λ c. 0) finished
Reach-IsSystem_example = Reach-IsSystem lib mocking finished-Reach

handle_request-Outcome_example :
    Outcome lib mocking 5 asked.handler
      (handle_request_async lib mocking cancel_body 5 asked.handler)
handle_request-Outcome_example = handle_request-Outcome lib mocking cancel_body 5 asked.handler

abbrev begun_handler : Handler ℕ
begun_handler = record taken.handler { posted = asked.handler.posted }

begin_task-IsBegun_example : IsBegun 8 worked.task asked.handler begun_handler worked
begin_task-IsBegun_example =
    begin_task-IsBegun lib mocking 8 worked.task asked.handler begun_handler worked cycle.3

take_task-own_example :
    (rest : List (PoolTask × ℕ)) × ((
      record { correlation_id = some (codes "7"); client = 5 },
      queued_job.job_id,
    )
        ∷ []
      ≡ (worked.task, worked.job.job_id) ∷ rest)
take_task-own_example = take_task-own lib mocking 8 worked queueing.0 asked-Calm queueing.3

few_requests : length taken.asked + 1 < 2 ^ 32
unfolding on_take on_request
few_requests = omega arith

active_jobs-running_example :
    IsOrdered taken.handler.active_jobs
    × ((k : ℕ) → tally place k taken.handler.active_jobs ≡ tally running_place k taken.running)
active_jobs-running_example = active_jobs-running lib mocking never_throws taken-Reach few_requests
