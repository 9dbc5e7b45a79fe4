-- ===== src/Handler/Tracked.antt =====
-- src/workserver/work_handler.cpp: the active jobs are those that the threads work on.
use pow_server.Prelude.{
  ℕ, ◌+◌, ◌^◌, ◌≤◌, ◌<◌, ◌≡◌, inl, inr, List, Text, ok, ◌==◌, All, Bool-cases, >>=-eq-ok, arith,
}
use pow_server.Bigint.{of_hex, u256_size}
use pow_server.Config.{Config}
use pow_server.Job.{Job, new_job, fetch_add, set_priority}
use pow_server.Json.{Key}
use pow_server.JobQueue.{push}
use pow_server.JobQueue.Kept.{All-remove_job}
use pow_server.Handler.{Libraries, Handler, PoolTask}
use pow_server.Handler.Accounting.{tally}
use pow_server.Handler.Outcome.{
  queued, refused, refused_job, answered, removed, handle_request-Outcome,
}
use pow_server.Handler.Request.{fill_job, handle_request_async, required, requested_difficulty}
use pow_server.Handler.Tallies.{id_of, running_id, running_place, tally-remove_job}
use pow_server.Handler.Task.{Running}
use pow_server.Handler.Task.Active.{IsOrdered}
use pow_server.Handler.Task.Places.{place, IsId}

module _ {Double Float Tree : Type 0} (lib : Libraries Double Float Tree) (config : Config) where
  -- The ids of the jobs that wait or are worked on are different and were given; the active jobs
  -- are in the order of their set, at the places of the jobs that are worked on.
  pub record IsTracked (h : Handler Double) (running : List (Running Double)) : Type 0 where
    pub fresh :
        (c : ℕ) → h.job_id_dispenser ≤ c → tally id_of c h.jobs + tally running_id c running ≡ 0
    pub once : (c : ℕ) → tally id_of c h.jobs + tally running_id c running ≤ 1
    pub tracked : (k : ℕ) → tally place k h.active_jobs ≡ tally running_place k running
    pub ordered : IsOrdered h.active_jobs
    pub small : All IsId h.active_jobs
    pub waiting_small : All IsId h.jobs
    pub running_small : All (λ r. IsId r.job) running

  fill_job-id :
      (tree : Tree) (j filled : Job Double)
      → fill_job lib config tree j ≡ ok filled
      → filled.job_id ≡ j.job_id
  unfolding fill_job set_priority
  fill_job-id tree j filled h =
      let (hex, _, h1) = >>=-eq-ok (required (lib.json.get_optional tree Key.hash) _) _ h in
      let (hash, _, h2) = >>=-eq-ok (of_hex lib.mp u256_size _ hex) _ h1 in
      let (difficulty, _, h3) = >>=-eq-ok (requested_difficulty lib config tree) _ h2 in
      ground arith

  spent-IsTracked :
      (h : Handler Double) (running : List (Running Double))
      → h.job_id_dispenser + 1 < 2 ^ 32
      → IsTracked h running
      → IsTracked (record h { job_id_dispenser = fetch_add h.job_id_dispenser }) running
  unfolding fetch_add
  spent-IsTracked h running fits v =
      let next : fetch_add h.job_id_dispenser ≡ h.job_id_dispenser + 1 = omega arith in
      record {
        fresh = λ c above. v.fresh c (omega (arith, next, above));
        once = v.once;
        tracked = v.tracked;
        ordered = v.ordered;
        small = v.small;
        waiting_small = v.waiting_small;
        running_small = v.running_small;
      }

  queued-IsTracked :
      (h : Handler Double) (running : List (Running Double)) (posted : List PoolTask)
      (j : Job Double)
      → j.job_id ≡ h.job_id_dispenser
      → h.job_id_dispenser + 1 < 2 ^ 32
      → IsTracked h running
      → IsTracked
          (record h {
            job_id_dispenser = fetch_add h.job_id_dispenser;
            jobs = push h.jobs j;
            posted = posted;
          })
          running
  unfolding fetch_add push
  queued-IsTracked h running posted j named fits v =
      let next : fetch_add h.job_id_dispenser ≡ h.job_id_dispenser + 1 = omega arith in
      record {
        fresh =
            λ c above. ground (arith, v.fresh c (omega (arith, next, above)), named, next, above);
        once = λ c. elim (Bool-cases (j.job_id == c)) [
          | inl here ↦ ground (arith, here, v.fresh c (ground (arith, here, named)))
          | inr other ↦ ground (arith, other, v.once c)
        ];
        tracked = v.tracked;
        ordered = v.ordered;
        small = v.small;
        waiting_small = (omega (arith, named), v.waiting_small);
        running_small = v.running_small;
      }

  pub request-IsTracked :
      (h : Handler Double) (running : List (Running Double)) (body : Text) (client : ℕ)
      → h.job_id_dispenser + 1 < 2 ^ 32
      → IsTracked h running
      → IsTracked (handle_request_async lib config body client h).0 running
  unfolding new_job
  request-IsTracked h running body client fits v =
      elim (handle_request-Outcome lib config body client h) [
        | queued id tree j there good room e ↦ rw e (
            queued-IsTracked h running _ j
              (fill_job-id tree (new_job lib.fl lib.mp h.job_id_dispenser) j good) fits v)
        | refused id e r ↦ rw r v
        | refused_job id e r ↦ rw r (spent-IsTracked h running fits v)
        | answered text r ↦ rw r v
        | removed hash text r ↦ rw r (record {
          fresh = λ c above.
              omega (arith, v.fresh c above, tally-remove_job lib.mp id_of c h.jobs hash);
          once = λ c. omega (arith, v.once c, tally-remove_job lib.mp id_of c h.jobs hash);
          tracked = v.tracked;
          ordered = v.ordered;
          small = v.small;
          waiting_small = All-remove_job lib.mp IsId h.jobs hash v.waiting_small;
          running_small = v.running_small;
        })
      ]
