-- ===== src/Handler/Shown.antt =====
-- src/workserver/work_handler.cpp: over every history the active jobs, which a queue report shows,
-- are those that the threads work on.
use pow_server.Prelude.{
  ℕ, ◌+◌, ◌^◌, ◌≤◌, ◌<◌, ◌≡◌, refl, subst, inl, inr, Bool, true, false, [], Text, Error, err,
  if◌then◌else◌, length, Result-cases, arith,
}
use pow_server.Config.{Config}
use pow_server.Job.{Job, fetch_add}
use pow_server.Handler.{Libraries, Handler, new_handler}
use pow_server.Handler.Accounting.{tally, resting, failed, begun, take_task-TakeOutcome}
use pow_server.Handler.Active.{take-IsTracked, finish-IsTracked, deleted-IsTracked}
use pow_server.Handler.Outcome.{
  queued, refused, refused_job, answered, removed, handle_request-Outcome,
}
use pow_server.Handler.Reports.{handle_queue_delete_request}
use pow_server.Handler.Request.{handle_request_async}
use pow_server.Handler.System.{
  System, on_request, on_take, on_finish, on_delete, Step, request, take, finish, delete, Reach,
  initial, later,
}
use pow_server.Handler.Tallies.{running_place}
use pow_server.Handler.Task.{Running, take_task, finish_task, work_result}
use pow_server.Handler.Task.Active.{IsOrdered}
use pow_server.Handler.Task.Places.{place}
use pow_server.Handler.Tracked.{IsTracked, request-IsTracked}

module _ {Double Float Tree : Type 0} (lib : Libraries Double Float Tree) (config : Config) where
  -- Each call of handle_request_async takes one id at most.
  request-counted :
      (body : Text) (client : ℕ) (h : Handler Double)
      → (handle_request_async lib config body client h).0.job_id_dispenser ≤ h.job_id_dispenser + 1
  unfolding fetch_add
  request-counted body client h = elim (handle_request-Outcome lib config body client h) [
    | queued id tree j there good room e ↦ rw e (omega arith)
    | refused id e r ↦ rw r (omega arith)
    | refused_job id e r ↦ rw r (omega arith)
    | answered text r ↦ rw r (omega arith)
    | removed hash text r ↦ rw r (omega arith)
  ]

  take-counted :
      (now : ℕ) (h : Handler Double)
      → (take_task lib config now h).0.job_id_dispenser ≡ h.job_id_dispenser
  take-counted now h = elim (take_task-TakeOutcome lib config now h) [
    | resting none_left r ↦ rw r refl
    | failed task rest devices jobs e split shorter r ↦ rw r refl
    | begun task rest devices jobs active i j split shorter r ↦ rw r refl
  ]

  finish-counted :
      (now : ℕ) (r : Running Double) (h : Handler Double)
      → (finish_task lib config now r h).0.job_id_dispenser ≡ h.job_id_dispenser
  unfolding finish_task
  finish-counted now r h = elim (Result-cases (work_result lib config r.job)) [
    | inr (e, bad) ↦ rw (bad, finish_task) refl
    | inl (result, good) ↦ rw (good, finish_task) refl
  ]

  deleted-counted :
      (allowed : Bool) (h : Handler Double)
      → (if allowed then record h { jobs = [] } else h).job_id_dispenser ≡ h.job_id_dispenser
  deleted-counted true h = refl
  deleted-counted false h = refl

  -- No more ids are given than requests came in, and the active jobs are tracked as long as the ids
  -- do not wrap around.
  record IsShown (s : System Double) : Type 0 where
    counted : s.handler.job_id_dispenser ≤ length s.asked + 1
    shown : length s.asked + 1 < 2 ^ 32 → IsTracked lib config s.handler s.running

  module _ (never : (j : Job Double) (e : Error) → work_result lib config j ≡ err e → ⊥) where
    Step-IsShown : {s t : System Double} → Step lib config s t → IsShown s → IsShown t
    unfolding on_request on_take on_finish on_delete handle_queue_delete_request
    Step-IsShown {s} (request body client) v = record {
      counted = omega (arith, request-counted body client s.handler, v.counted);
      shown = λ fits.
          request-IsTracked lib config s.handler s.running body client (omega (arith, v.counted))
            (v.shown (omega arith));
    }
    Step-IsShown {s} (take now free) v = record {
      counted = omega (arith, take-counted now s.handler, v.counted);
      shown = λ fits. take-IsTracked lib config now s.handler s.running (v.shown fits);
    }
    Step-IsShown {s} (finish now before r after split) v = record {
      counted = omega (arith, finish-counted now r s.handler, v.counted);
      shown = λ fits. elim (Result-cases (work_result lib config r.job)) [
        | inr (e, bad) ↦ absurd (never r.job e bad)
        | inl (result, good) ↦
            finish-IsTracked lib config now s.handler before r after result good
              (subst (IsTracked lib config s.handler) split (v.shown fits))
      ];
    }
    Step-IsShown {s} (delete client) v = record {
      counted = omega (arith, deleted-counted config.server.allow_control s.handler, v.counted);
      shown = λ fits.
          deleted-IsTracked lib config config.server.allow_control s.handler s.running
            (v.shown fits);
    }

    Reach-IsShown : {s : System Double} → Reach lib config s → IsShown s
    unfolding new_handler
    Reach-IsShown initial = record {
      counted = omega arith;
      shown = λ fits. record {
        fresh = λ c above. refl;
        once = λ c. omega arith;
        tracked = λ k. refl;
        ordered = tt;
        small = tt;
        waiting_small = tt;
        running_small = tt;
      };
    }
    Reach-IsShown (later r st) = Step-IsShown st (Reach-IsShown r)

    -- If no work throws, then in every state that is reached with fewer than 2 ^ 32 - 1 requests the
    -- active jobs are in the order of service, each once, and at each place of that order there are
    -- as many of them as lambdas that work on a job of the place.
    pub active_jobs-running :
        {s : System Double}
        → Reach lib config s
        → length s.asked + 1 < 2 ^ 32
        → IsOrdered s.handler.active_jobs
          × ((k : ℕ) → tally place k s.handler.active_jobs ≡ tally running_place k s.running)
    active_jobs-running r fits = let v = (Reach-IsShown r).shown fits in (v.ordered, v.tracked)
