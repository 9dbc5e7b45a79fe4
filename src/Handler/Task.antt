-- ===== src/Handler/Task.antt =====
-- src/workserver/work_handler.cpp: the lambda that handle_request_async posts to the pool. It runs
-- in two parts: up to the entry in the active jobs, and from the work to the end.
pub mod Active
pub mod Places
use pow_server.Prelude.{
  ℕ, ◌+◌, ◌≡◌, Bool, true, false, List, [], ◌∷◌, ◌++◌, Option, none, some, Text, codes, Error,
  Result, ok, err, ◌>>=◌, ltb, ◌==◌, if◌then◌else◌,
}
use pow_server.Bigint.{Bigint, u128_size, of_hex, set, number, to_hex}
use pow_server.Multiplier.{to_multiplier}
use pow_server.Config.{Config}
use pow_server.Devices.{aquire_first_available_device, release_at}
use pow_server.Job.{Job, JobResult, start, stop, uninitialised}
use pow_server.JobQueue.{pop_job}
use pow_server.Json.{Key, Value, text, real, flag}
use pow_server.Pow.{
  Attempt, base_diff_64, difficulty_threshold, actual_diff_64, reversed_hash, search,
  max_iterations, result_work, work_hex,
}
use pow_server.Handler.{Libraries, Handler, PoolTask, Reply, completed_capacity}
use pow_server.Handler.Replies.{attach_correlation_id, create_error_response}
use Active.{insert_active, erase_active}

-- What a thread of the pool holds between the two parts.
pub record Running (Double : Type 0) : Type 0 where
  pub task : PoolTask
  pub device : ℕ
  pub job : Job Double

module _ {Double Float Tree : Type 0} (lib : Libraries Double Float Tree) (config : Config) where
  open lib use {mp, fl, json, ring, sources}

  -- The branch that searches: the result, whether or not a work was found.
  unfoldable pub generated : Job Double → JobResult Double
  generated j =
      let target = j.request.difficulty in
      let threshold = difficulty_threshold (base_diff_64 (number mp u128_size target)) in
      let (last, found) = search sources j.request.root_hash.bytes max_iterations threshold in
      let hash = reversed_hash sources j.request.root_hash.bytes last.work_value in
      let actual = set mp u128_size (actual_diff_64 hash) in
      record {
        work = result_work last.work_value;
        difficulty = if found then actual else target;
        multiplier =
            if found then to_multiplier fl mp actual config.work.base_difficulty else fl.lit_one;
      }

  -- The branch that simulates.
  unfoldable pub mocked : Result (JobResult Double)
  mocked = do
    work ← of_hex mp u128_size (uninitialised u128_size) (codes "2feaeaa000000000")
    difficulty ← of_hex mp u128_size (uninitialised u128_size) (codes "0x2ffee0000000000")
    ok (record { work = work; difficulty = difficulty; multiplier = fl.lit_mock })

  unfoldable pub is_mock : Bool
  is_mock = if config.work.mock_work_generation_delay == 0 then false else true

  unfoldable pub work_result : Job Double → Result (JobResult Double)
  unfolding is_mock
  work_result j = if is_mock then mocked else ok (generated j)

  unfoldable pub result_tree : Option Text → JobResult Double → Tree
  unfolding is_mock
  result_tree id r =
      let response = if is_mock then json.put json.empty Key.testing (flag true) else json.empty in
      attach_correlation_id json id (
        json.put
          (json.put (json.put response Key.work (text (work_hex mp r.work))) Key.difficulty
            (text (to_hex mp u128_size r.difficulty)))
          Key.multiplier (real r.multiplier))

  -- response_handler (create_error_response (correlation_id, ex.what ()))
  unfoldable pub answer_error : PoolTask → Error → Reply
  answer_error task e = record {
    client = task.client;
    body = create_error_response json task.correlation_id e;
  }

  -- A thread takes the oldest lambda, then the top job, then a device.
  unfoldable pub begin_task :
      ℕ → PoolTask → Handler Double → Handler Double × List Reply × Option (Running Double)
  unfolding answer_error
  begin_task now task h = elim (pop_job h.jobs) [
    | none ↦ (h, answer_error task Error.no_jobs ∷ [], none)
    | some (j, rest) ↦
        let (devices, found) = aquire_first_available_device h.devices in
        let taken = record h { jobs = rest; devices = devices } in
        let started = start now j in
        elim found [
          | err e ↦ (taken, answer_error task e ∷ [], none)
          | ok i ↦ (
            record taken { active_jobs = insert_active started h.active_jobs },
            [],
            some (record { task = task; device = i; job = started }),
          )
        ]
  ]

  -- The pool's queue: nothing to do if no lambda waits.
  unfoldable pub take_task :
      ℕ → Handler Double → Handler Double × List Reply × Option (Running Double)
  unfolding begin_task
  take_task now h = elim h.posted [
    | [] ↦ (h, [], none)
    | task ∷ rest ↦ begin_task now task (record h { posted = rest })
  ]

  -- The rest of the lambda: if the result throws, the error is answered, and neither is the device
  -- released nor the entry in the active jobs erased.
  unfoldable pub finish_task : ℕ → Running Double → Handler Double → Handler Double × List Reply
  unfolding work_result result_tree answer_error
  finish_task now r h = elim (work_result r.job) [
    | err e ↦ (h, answer_error r.task e ∷ [])
    | ok result ↦
        let done = stop now (record r.job { result = result }) in
        (
          record h {
            devices = release_at h.devices r.device;
            active_jobs = erase_active done h.active_jobs;
            completed_jobs = ring.push_back completed_capacity h.completed_jobs done;
          },
          record {
            client = r.task.client;
            body = json.write_json (result_tree r.task.correlation_id result);
          }
              ∷ [],
        )
  ]
