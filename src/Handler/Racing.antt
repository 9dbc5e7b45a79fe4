-- ===== src/Handler/Racing.antt =====
-- src/workserver/work_handler.cpp: handle_request_async by several threads of the web server, whose
-- work_generates are three steps each: the job is constructed, it is queued under the mutex of the
-- jobs, and the lambda is posted. Lambdas has the steps of the threads of the pool, Steps all.

pub mod Lambdas
pub mod Steps
pub mod Cases
pub mod Accounts
pub mod Threads
pub mod Held
pub mod Settled
pub mod Drivers
pub mod Composed
pub mod Swapped
mod Tests
use pow_server.Prelude.{
  ℕ, ◌<◌, ◌≡◌, Bool, true, false, List, [], ◌∷◌, ◌++◌, Option, none, some, Text, codes, Error, ok,
  err, ltb, is_nil, if◌then◌else◌, length, text_eq,
}
use pow_server.Config.{Config}
use pow_server.Job.{Job, new_job, fetch_add}
use pow_server.JobQueue.{push}
use pow_server.Json.{Key}
use pow_server.Handler.{Libraries, Handler, PoolTask, Reply}
use pow_server.Handler.Stages.{Popped}
use pow_server.Handler.Replies.{create_error_response}
use pow_server.Handler.Request.{fill_job}
use pow_server.Handler.System.{System, on_request, on_take, on_finish, on_delete, init}
use pow_server.Handler.Task.{Running}

-- A work_generate between the construction of its job and the mutex: what its lambda will capture,
-- and the job.
pub record Prepared (Double : Type 0) : Type 0 where
  pub task : PoolTask
  pub job : Job Double

abbrev pub prepared_client : {Double : Type 0} → Prepared Double → ℕ
prepared_client p = p.task.client

-- The handler with its pool; the threads of the web server that have a job to queue, and those with
-- a lambda to post; and the threads of the pool by how far their lambda is: it is to pop a job, to
-- find a device, to enter its job in the active ones, it works (`system.running`), it has answered,
-- or it has released its device.
pub record Racing (Double : Type 0) : Type 0 where
  pub system : System Double
  pub preparing : List (Prepared Double)
  pub posting : List PoolTask
  pub lambdas : List PoolTask
  pub popped : List (Popped Double)
  pub armed : List (Running Double)
  pub answered : List (Running Double)
  pub released : List (Running Double)

module _ {Double Float Tree : Type 0} (lib : Libraries Double Float Tree) (config : Config) where
  open lib use {mp, fl, json}

  -- handle_request_async up to the mutex, if it gets there.
  unfoldable pub prepare_job : Option Text → ℕ → Tree → Handler Double → Option (Prepared Double)
  prepare_job id client request h =
      if is_nil config.devices
      then none
      else elim (fill_job lib config request (new_job fl mp h.job_id_dispenser)) [
        | err e ↦ none
        | ok j ↦ some (record { task = record { correlation_id = id; client = client }; job = j })
      ]

  unfoldable pub prepare_action :
      Option Text → ℕ → Tree → Option Text → Handler Double → Option (Prepared Double)
  unfolding prepare_job
  prepare_action id client request none h = none
  prepare_action id client request (some action) h =
      if text_eq action (codes "work_generate") then prepare_job id client request h else none

  unfoldable pub prepare : Text → ℕ → Handler Double → Option (Prepared Double)
  unfolding prepare_action
  prepare body client h = elim (json.read_json body) [
    | err e ↦ none
    | ok request ↦
        prepare_action (json.get_optional request Key.id) client request
          (json.get_optional request Key.action) h
  ]

  -- The construction of the job takes an id.
  unfoldable pub dispense : Handler Double → Handler Double
  dispense h = record h { job_id_dispenser = fetch_add h.job_id_dispenser }

  -- The block under the mutex, which says whether the job was queued.
  unfoldable pub queue_job : Job Double → Handler Double → Handler Double × Bool
  queue_job j h =
      if ltb (length h.jobs) config.server.request_limit
      then (record h { jobs = push h.jobs j }, true)
      else (h, false)

  -- The catch clause, for the job that was not.
  unfoldable pub refuse : PoolTask → Reply
  refuse t = record {
    client = t.client;
    body = create_error_response json t.correlation_id Error.request_limit;
  }

  -- boost::asio::post
  unfoldable pub post_task : PoolTask → Handler Double → Handler Double
  post_task t h = record h { posted = h.posted ++ t ∷ [] }

  unfoldable pub on_prepare : ℕ → Prepared Double → Racing Double → Racing Double
  unfolding dispense
  on_prepare client p s = record s {
    system = record s.system {
      handler = dispense s.system.handler;
      asked = client ∷ s.system.asked;
    };
    preparing = p ∷ s.preparing;
  }

  -- The thread with the job `p` queues it, or answers that it cannot; the others go on.
  unfoldable pub on_queue :
      List (Prepared Double)
      → Prepared Double
      → List (Prepared Double)
      → Racing Double
      → Racing Double
  unfolding queue_job refuse
  on_queue before p after s =
      let (h, queued) = queue_job p.job s.system.handler in
      record s {
        system = record s.system {
          handler = h;
          replies = if queued then s.system.replies else refuse p.task ∷ s.system.replies;
        };
        preparing = before ++ after;
        posting = if queued then p.task ∷ s.posting else s.posting;
      }

  unfoldable pub on_post : List PoolTask → PoolTask → List PoolTask → Racing Double → Racing Double
  unfolding post_task
  on_post before t after s = record s {
    system = record s.system { handler = post_task t s.system.handler };
    posting = before ++ after;
  }
