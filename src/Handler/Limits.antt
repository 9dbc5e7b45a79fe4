-- ===== src/Handler/Limits.antt =====
-- The invariant of the handler and its pool, kept by every step.
use pow_server.Prelude.{
  ℕ, ◌+◌, ◌-◌, ◌≤◌, inl, inr, ap, Bool, true, false, List, [], ◌∷◌, ◌++◌, Text, not, if◌then◌else◌,
  length, length-append, length-drop, length-perm, length-filter-le, arith, Result-cases,
}
use pow_server.Bigint.{Bigint, u256_size, number}
use pow_server.Config.{Config}
use pow_server.Job.{Job, stop}
use pow_server.JobQueue.{push, remove_job, has_root}
use pow_server.JobQueue.Remove.{remove_job_lem}
use pow_server.Handler.{Libraries, Handler, completed_capacity}
use pow_server.Handler.Request.{handle_request_async}
use pow_server.Handler.Reports.{handle_queue_delete_request}
use pow_server.Handler.Task.{Running, take_task, finish_task, work_result}
use pow_server.Handler.Outcome.{
  queued, refused, refused_job, answered, removed, handle_request-Outcome,
}
use pow_server.Handler.Accounting.{resting, failed, begun, take_task-TakeOutcome}

module _ {Double Float Tree : Type 0} (lib : Libraries Double Float Tree) (config : Config) where
  -- No more jobs wait than the limit allows, each of them but `n` has a lambda that waits too, and
  -- the completed jobs fit their buffer.
  pub record IsHandler (n : ℕ) (h : Handler Double) : Type 0 where
    pub limited : length h.jobs ≤ config.server.request_limit
    pub covered : length h.jobs ≤ length h.posted + n
    pub kept : length h.completed_jobs ≤ completed_capacity

  length-remove_job :
      (jobs : List (Job Double)) (hash : Bigint)
      → length (remove_job lib.mp jobs hash).0 ≤ length jobs
  length-remove_job jobs hash = omega (
    arith,
    length-perm (remove_job_lem lib.mp jobs hash).0,
    length-filter-le (λ j. not (has_root lib.mp (number lib.mp u256_size hash) j)) jobs,
  )

  -- A request keeps the invariant, whatever it asks for.
  pub request-IsHandler :
      (n : ℕ) (body : Text) (client : ℕ) (h : Handler Double)
      → IsHandler n h
      → IsHandler n (handle_request_async lib config body client h).0
  unfolding push
  request-IsHandler n body client h v = elim (handle_request-Outcome lib config body client h) [
    | queued id request j some_device good room e ↦ rw e (record {
      limited = room;
      covered = omega (
        arith,
        v.covered,
        length-append h.posted (record { correlation_id = id; client = client } ∷ []),
      );
      kept = v.kept;
    })
    | refused id e r ↦ rw r v
    | refused_job id e r ↦ rw r (record { limited = v.limited; covered = v.covered; kept = v.kept })
    | answered text r ↦ rw r v
    | removed hash text r ↦ rw r (record {
      limited = omega (arith, v.limited, length-remove_job h.jobs hash);
      covered = omega (arith, v.covered, length-remove_job h.jobs hash);
      kept = v.kept;
    })
  ]

  -- So does a thread that takes a lambda.
  pub take-IsHandler :
      (n now : ℕ) (h : Handler Double) → IsHandler n h → IsHandler n (take_task lib config now h).0
  take-IsHandler n now h v = elim (take_task-TakeOutcome lib config now h) [
    | resting none_left r ↦ rw r v
    | failed task rest devices jobs e split shorter r ↦
        let before = ap length split in
        rw r (record {
          limited = omega (arith, v.limited);
          covered = omega (arith, v.covered);
          kept = v.kept;
        })
    | begun task rest devices jobs active i j split shorter r ↦
        let before = ap length split in
        rw r (record {
          limited = omega (arith, v.limited);
          covered = omega (arith, v.covered);
          kept = v.kept;
        })
  ]

  pub length-push_back :
      (jobs : List (Job Double)) (j : Job Double)
      → length jobs ≤ completed_capacity
      → length (lib.ring.push_back completed_capacity jobs j) ≤ completed_capacity
  length-push_back jobs j h = rw (lib.ring.push_back_lem completed_capacity jobs j h) (
      omega (
        arith,
        length-drop (length jobs + 1 - completed_capacity) (jobs ++ j ∷ []),
        length-append jobs (j ∷ []),
      ))

  -- And one that finishes it, whether it answers with a work or with an error.
  pub finish-IsHandler :
      (n now : ℕ) (r : Running Double) (h : Handler Double)
      → IsHandler n h
      → IsHandler n (finish_task lib config now r h).0
  unfolding finish_task
  finish-IsHandler n now r h v = elim (Result-cases (work_result lib config r.job)) [
    | inr (e, bad) ↦ rw (bad, finish_task) v
    | inl (result, good) ↦
        rw (good, finish_task)
          (record {
            limited = v.limited;
            covered = v.covered;
            kept =
                length-push_back h.completed_jobs (stop now (record r.job { result = result }))
                  v.kept;
          })
  ]

  -- The queue as it is after a deletion that is allowed, or refused.
  emptied-IsHandler :
      (n : ℕ) (allowed : Bool) (h : Handler Double)
      → IsHandler n h
      → IsHandler n (if allowed then record h { jobs = [] } else h)
  emptied-IsHandler n true h v = record {
    limited = omega arith;
    covered = omega arith;
    kept = v.kept;
  }
  emptied-IsHandler n false h v = v

  pub delete-IsHandler :
      (n client : ℕ) (h : Handler Double)
      → IsHandler n h
      → IsHandler n (handle_queue_delete_request lib config client h).0
  unfolding handle_queue_delete_request
  delete-IsHandler n client h v = emptied-IsHandler n config.server.allow_control h v
