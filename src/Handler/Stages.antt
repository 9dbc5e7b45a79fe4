-- ===== src/Handler/Stages.antt =====
-- src/workserver/work_handler.cpp: the posted lambda by the steps between which other threads run:
-- the pop under the mutex of the jobs, the device, the entry in the active jobs, the answer, the
-- release of the device, and the end under the mutexes of the active and the completed jobs.
use pow_server.Prelude.{ℕ, List, [], ◌∷◌, Option, none, some, Error, ok, err}
use pow_server.Config.{Config}
use pow_server.Devices.{aquire_first_available_device, release_at}
use pow_server.Job.{Job, start, stop}
use pow_server.JobQueue.{pop_job}
use pow_server.Handler.{Libraries, Handler, PoolTask, Reply, completed_capacity}
use pow_server.Handler.Task.{Running, answer_error, result_tree, work_result}
use pow_server.Handler.Task.Active.{insert_active, erase_active}

-- A lambda with the job that it popped.
pub record Popped (Double : Type 0) : Type 0 where
  pub task : PoolTask
  pub job : Job Double

-- What a step of a lambda leaves: the handler, the calls of the response handler, and the lambda if
-- it goes on.
abbrev pub Left : Type 0 → Type 0 → Type 0
Left Double A = Handler Double × List Reply × Option A

module _ {Double Float Tree : Type 0} (lib : Libraries Double Float Tree) (config : Config) where
  open lib use {json, ring}

  unfoldable pub pop_top : PoolTask → Handler Double → Left Double (Popped Double)
  unfolding answer_error
  pop_top task h = elim (pop_job h.jobs) [
    | none ↦ (h, answer_error lib config task Error.no_jobs ∷ [], none)
    | some (j, rest) ↦ (record h { jobs = rest }, [], some (record { task = task; job = j }))
  ]

  -- The device, and the start of the job.
  unfoldable pub find_driver : ℕ → Popped Double → Handler Double → Left Double (Running Double)
  unfolding answer_error
  find_driver now p h =
      let (devices, found) = aquire_first_available_device h.devices in
      let left = record h { devices = devices } in
      elim found [
        | err e ↦ (left, answer_error lib config p.task e ∷ [], none)
        | ok i ↦ (left, [], some (record { task = p.task; device = i; job = start now p.job }))
      ]

  unfoldable pub insert_job : Running Double → Handler Double → Handler Double
  insert_job r h = record h { active_jobs = insert_active r.job h.active_jobs }

  -- The work, and its answer; if it throws, the error is answered, and the lambda ends.
  unfoldable pub respond_with : Running Double → List Reply × Option (Running Double)
  unfolding work_result result_tree answer_error
  respond_with r = elim (work_result lib config r.job) [
    | err e ↦ (answer_error lib config r.task e ∷ [], none)
    | ok result ↦ (
      record {
        client = r.task.client;
        body = json.write_json (result_tree lib config r.task.correlation_id result);
      }
          ∷ [],
      some (record r { job = record r.job { result = result } }),
    )
  ]

  unfoldable pub release_device : Running Double → Handler Double → Handler Double
  release_device r h = record h { devices = release_at h.devices r.device }

  -- The stop of the job, and the block under both mutexes.
  unfoldable pub complete : ℕ → Running Double → Handler Double → Handler Double
  complete now r h =
      let done = stop now r.job in
      record h {
        active_jobs = erase_active done h.active_jobs;
        completed_jobs = ring.push_back completed_capacity h.completed_jobs done;
      }
