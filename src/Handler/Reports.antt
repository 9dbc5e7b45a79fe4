-- ===== src/Handler/Reports.antt =====
-- src/workserver/work_handler.cpp: handle_queue_request and handle_queue_delete_request.
use pow_server.Prelude.{ℕ, true, List, [], ◌∷◌, Error, what, if◌then◌else◌}
use pow_server.Bigint.{u128_size, u256_size, to_hex}
use pow_server.Config.{Config}
use pow_server.Job.{Job}
use pow_server.JobQueue.{in_order}
use pow_server.Json.{Key, text, number, real, flag}
use pow_server.Handler.{Libraries, Handler, Reply}

module _ {Double Float Tree : Type 0} (lib : Libraries Double Float Tree) where
  open lib use {mp, json}

  -- the lambda `populate_json`, on an empty tree
  unfoldable pub populate_json : Job Double → Tree
  populate_json j =
      let head =
        json.put
          (json.put
            (json.put (json.put json.empty Key.id (number j.job_id)) Key.priority
              (number j.priority))
            Key.start (number j.start_time))
          Key.end (number j.end_time) in
      let request =
        json.put
          (json.put (json.put json.empty Key.hash (text (to_hex mp u256_size j.request.root_hash)))
            Key.difficulty (text (to_hex mp u128_size j.request.difficulty)))
          Key.multiplier (real j.request.multiplier) in
      let result =
        json.put
          (json.put (json.put json.empty Key.work (text (to_hex mp u128_size j.result.work)))
            Key.difficulty (text (to_hex mp u128_size j.result.difficulty)))
          Key.multiplier (real j.result.multiplier) in
      json.add_child (json.add_child head Key.request request) Key.result result

  -- A JSON array of jobs.
  unfoldable pub job_array : Tree → List (Job Double) → Tree
  job_array children [] = children
  job_array children (j ∷ js) = job_array (json.push_back children (populate_json j)) js

  unfoldable pub queue_tree : Handler Double → Tree
  unfolding job_array populate_json
  queue_tree h =
      json.add_child
        (json.add_child
          (json.add_child json.empty Key.queued (job_array json.empty (in_order h.jobs))) Key.active
          (job_array json.empty h.active_jobs))
        Key.completed (job_array json.empty h.completed_jobs)

  -- handle_queue_request works on a copy of the queue, so the handler does not change.
  unfoldable pub handle_queue_request : ℕ → Handler Double → List Reply
  unfolding queue_tree
  handle_queue_request client h =
      record { client = client; body = json.write_json (queue_tree h) } ∷ []

  unfoldable pub delete_tree : Config → Tree
  delete_tree config =
      if config.server.allow_control
      then json.put json.empty Key.success (flag true)
      else json.put json.empty Key.error (text (what Error.control_not_allowed))

  -- handle_queue_delete_request empties the queue if control requests are allowed.
  unfoldable pub handle_queue_delete_request :
      Config → ℕ → Handler Double → Handler Double × List Reply
  unfolding delete_tree
  handle_queue_delete_request config client h = (
    if config.server.allow_control then record h { jobs = [] } else h,
    record { client = client; body = json.write_json (delete_tree config) } ∷ [],
  )
