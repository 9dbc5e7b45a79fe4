-- ===== src/Handler/Pool.antt =====
-- What the lambda of the pool does with the job and the device that it takes
-- (src/workserver/work_handler.cpp, handle_request_async).
use pow_server.Prelude.{
  ℕ, ◌≡◌, refl, [], ◌∷◌, some, ok, All, Perm, arith, Result-cases, inl, inr, ap, map,
}
use pow_server.Config.{Config}
use pow_server.Devices.{aquire_first_available_device, release_at}
use pow_server.Devices.Acquire.{release-aquire}
use pow_server.Job.{Job, JobResult, start}
use pow_server.JobQueue.Order.{MayPrecede}
use pow_server.JobQueue.Drain.{pop_job_lem}
use pow_server.Handler.{Libraries, Handler, PoolTask}
use pow_server.Handler.Task.{Running, begin_task, finish_task, work_result}
use pow_server.Handler.Accounting.{reply_client}
use pow_server.Handler.Task.Active.{insert_active}

-- A lambda with its job, after it began from `h`: it is the lambda that was taken; the job may be
-- served before all those that are left, which are the others of `h`; and releasing its device
-- gives the devices of `h`.
pub record IsBegun {Double : Type 0} (now : ℕ) (task : PoolTask) (h begun : Handler Double)
    (r : Running Double) : Type 0 where
  pub own : r.task ≡ task
  pub top : Job Double
  pub started : r.job ≡ start now top
  pub others : Perm (top ∷ begun.jobs) h.jobs
  pub first : All (MayPrecede top) begun.jobs
  pub devices : release_at begun.devices r.device ≡ h.devices

module _ {Double Float Tree : Type 0} (lib : Libraries Double Float Tree) (config : Config) where
  -- Whatever the queue holds, a lambda that begins takes the job that is served first, which may be
  -- another client's, and keeps its own client and correlation id; and releasing the device that
  -- it took gives the devices back as they were.
  pub begin_task-IsBegun :
      (now : ℕ) (task : PoolTask) (h begun : Handler Double) (r : Running Double)
      → begin_task lib config now task h ≡ (begun, [], some r)
      → IsBegun now task h begun r
  unfolding begin_task
  begin_task-IsBegun now task h begun r began = elim (pop_job_lem h.jobs) [
    | inl (empty, none_there) ↦ absurd (ground arith)
    | inr (j, others, popped, same, ahead) ↦
        elim (Result-cases (aquire_first_available_device h.devices).1) [
          | inr (e, missing) ↦ absurd (ground arith)
          | inl (i, found) ↦
              let taken = (aquire_first_available_device h.devices).0 in
              let outcome : (begun ≡ record h {
                jobs = others;
                devices = taken;
                active_jobs = insert_active (start now j) h.active_jobs;
              })
                  × (r ≡ record { task = task; device = i; job = start now j }) =
                ground arith in
              rw (outcome.0, outcome.1)
                (record {
                  own = refl;
                  top = j;
                  started = refl;
                  others = same;
                  first = ahead;
                  devices = release-aquire h.devices taken i (ground arith);
                })
        ]
  ]

  -- A lambda that begins and whose result does not throw gives back the devices as they were before
  -- it began, if no other lambda runs in between, and answers its own client once.
  pub finish_task-devices :
      (now later : ℕ) (task : PoolTask) (h begun : Handler Double) (r : Running Double)
      (result : JobResult Double)
      → begin_task lib config now task h ≡ (begun, [], some r)
      → work_result lib config r.job ≡ ok result
      → ((finish_task lib config later r begun).0.devices ≡ h.devices)
        × (map reply_client (finish_task lib config later r begun).1 ≡ task.client ∷ [])
  unfolding finish_task
  finish_task-devices now later task h begun r result began good =
      let v = begin_task-IsBegun now task h begun r began in
      rw (good, finish_task) (v.devices, ap (λ t. t.client ∷ []) v.own)
