-- ===== src/Handler/Request.antt =====
-- src/workserver/work_handler.cpp: handle_request_async up to the post to the pool.
use pow_server.Prelude.{
  ℕ, List, [], ◌∷◌, ◌++◌, Option, none, some, Text, codes, Error, Result, ok, err, ◌>>=◌, ltb,
  is_nil, if◌then◌else◌, length, text_eq,
}
use pow_server.Bigint.{Bigint, u128_size, u256_size, of_hex}
use pow_server.Multiplier.{from_multiplier}
use pow_server.Config.{Config}
use pow_server.Config.Load.{value_or}
use pow_server.Job.{Job, new_job, fetch_add, set_priority, uninitialised}
use pow_server.JobQueue.{push, remove_job}
use pow_server.Json.{Key, text}
use pow_server.Handler.{Libraries, Handler, Reply}
use pow_server.Handler.Replies.{attach_correlation_id, create_error_response}

-- `if (!x.is_initialized ()) throw …`
abbrev pub required : Option Text → Error → Result Text
required none e = err e
required (some s) e = ok s

module _ {Double Float Tree : Type 0} (lib : Libraries Double Float Tree) (config : Config) where
  open lib use {mp, fl, json}

  -- The difficulty of a request: its own or the configured one, replaced by a multiple of the
  -- configured one if the multiplier is positive.
  unfoldable pub requested_difficulty : Tree → Result Bigint
  requested_difficulty request = do
    let base = config.work.base_difficulty
    given ← elim (json.get_optional request Key.difficulty) [
      | none ↦ ok base
      | some hex ↦ of_hex mp u128_size base hex
    ]
    let multiplier = value_or (json.get_double request Key.multiplier) fl.lit_zero
    ok (if fl.positive multiplier then from_multiplier fl mp multiplier base else given)

  -- The priority that the job gets: the field is ignored unless it is allowed.
  unfoldable pub granted_priority : Tree → ℕ → ℕ
  granted_priority request initial =
      let pri = value_or (json.get_unsigned request Key.priority) 0 in
      if config.server.allow_prioritization then pri else initial

  -- The fields of the job from those of the request.
  unfoldable pub fill_job : Tree → Job Double → Result (Job Double)
  unfolding requested_difficulty granted_priority
  fill_job request j = do
    hex ← required (json.get_optional request Key.hash) Error.missing_hash
    hash ← of_hex mp u256_size (uninitialised u256_size) hex
    difficulty ← requested_difficulty request
    ok (record (set_priority (granted_priority request j.priority) j) {
      request = record j.request { root_hash = hash; difficulty = difficulty };
    })

  -- The branch for work_generate, to the post: the job is queued and a task posted for the client.
  unfoldable pub generate :
      Option Text → ℕ → Tree → Handler Double → Handler Double × Result (List Reply)
  unfolding fill_job
  generate id client request h =
      let begun = record h { job_id_dispenser = fetch_add h.job_id_dispenser } in
      let built = fill_job request (new_job fl mp h.job_id_dispenser) in
      let queue = λ (j : Job Double). record begun {
        jobs = push h.jobs j;
        posted = h.posted ++ record { correlation_id = id; client = client } ∷ [];
      } in
      if is_nil config.devices then (h, err Error.no_work_device) else elim built [
        | err e ↦ (begun, err e)
        | ok j ↦
            if ltb (length h.jobs) config.server.request_limit
            then (queue j, ok [])
            else (begun, err Error.request_limit)
      ]

  -- What work_validate answers; every work passes.
  unfoldable pub validate_tree : Option Text → Tree
  validate_tree id = attach_correlation_id json id (
      json.put
        (json.put (json.put json.empty Key.valid (text (codes "1"))) Key.difficulty
          (text (codes "0x2000000000000000")))
        Key.multiplier (text (codes "1.0")))

  -- The branch for work_validate.
  unfoldable pub validate : Option Text → ℕ → Tree → Result (List Reply)
  unfolding validate_tree
  validate id client request = do
    hash_hex ← required (json.get_optional request Key.hash) Error.missing_hash
    hash ← of_hex mp u256_size (uninitialised u256_size) hash_hex
    work_hex ← required (json.get_optional request Key.work) Error.missing_work
    work ← of_hex mp u128_size (uninitialised u128_size) work_hex
    difficulty ← requested_difficulty request
    ok (record { client = client; body = json.write_json (validate_tree id) } ∷ [])

  unfoldable pub cancel_tree : Option Text → Tree
  cancel_tree id =
      attach_correlation_id json id (json.put json.empty Key.status (text (codes "cancelled")))

  -- The hash that a cancellation names.
  unfoldable pub cancel_hash : Tree → Result Bigint
  cancel_hash request = do
    hash_hex ← required (json.get_optional request Key.hash) Error.cancel_missing_hash
    of_hex mp u256_size (uninitialised u256_size) hash_hex

  -- The branch for work_cancel: a job that is not found leaves the queue's jobs as they are.
  unfoldable pub cancel :
      Option Text → ℕ → Tree → Handler Double → Handler Double × Result (List Reply)
  cancel id client request h = elim (cancel_hash request) [
    | err e ↦ (h, err e)
    | ok hash ↦
        let (left, removed) = remove_job mp h.jobs hash in
        let answer : Reply = record { client = client; body = json.write_json (cancel_tree id) } in
        (record h { jobs = left }, if removed then ok (answer ∷ []) else err Error.hash_not_found)
  ]

  -- The three actions, by the text of the field.
  unfoldable pub dispatch :
      Option Text → ℕ → Tree → Option Text → Handler Double → Handler Double × Result (List Reply)
  dispatch id client request none h = (h, err Error.invalid_action)
  dispatch id client request (some action) h =
      if text_eq action (codes "work_generate")
      then generate id client request h
      else if text_eq action (codes "work_validate")
      then (h, validate id client request)
      else if text_eq action (codes "work_cancel")
      then cancel id client request h
      else (h, err Error.invalid_action)

  -- The catch clause: an error is reported to the client with the id that was read before it.
  unfoldable pub report :
      Option Text → ℕ → Handler Double × Result (List Reply) → Handler Double × List Reply
  report id client (h, ok replies) = (h, replies)
  report id client (h, err e) =
      (h, record { client = client; body = create_error_response json id e } ∷ [])

  -- handle_request_async: the handler's new state and the calls of the response handler.
  unfoldable pub handle_request_async : Text → ℕ → Handler Double → Handler Double × List Reply
  unfolding report dispatch
  handle_request_async body client h = elim (json.read_json body) [
    | err e ↦ report none client (h, err e)
    | ok request ↦
        let id = json.get_optional request Key.id in
        report id client (dispatch id client request (json.get_optional request Key.action) h)
  ]
