-- ===== src/Handler/Racing/Composed.antt =====
-- src/workserver/work_handler.cpp: handle_request_async and its three steps, the parts of the lambda
-- and its steps, and the handler whose steps run alone.
use pow_server.Prelude.{
  ◌<◌, ◌++◌, list_cases, ℕ, ◌≡◌, inl, inr, refl, false, List, [], ◌∷◌, Option, none, some, Text,
  codes, ok, ltb, is_nil, if◌then◌else◌, length, text_eq, arith, Bool-cases, Option-cases,
  Result-cases,
}
use pow_server.Config.{Config}
use pow_server.Job.{new_job}
use pow_server.Json.{Key}
use pow_server.Handler.{Libraries, Handler, Reply}
use pow_server.Handler.Request.{fill_job, generate, dispatch, report, handle_request_async}
use pow_server.Handler.Racing.{
  Prepared, prepare_job, prepare_action, prepare, dispense, queue_job, refuse, post_task,
  on_prepare, on_queue, on_post,
}
use pow_server.Handler.Racing.Lambdas.{
  on_lambda, on_pop, on_driver, on_insert, on_respond, on_release, on_complete,
}
use pow_server.Handler.Racing.Steps.{
  requests, prepares, queues, posts, takes, pops, finds, inserts, responds, releases, completes,
  deletes, Reach, initial, later, alone,
}
use pow_server.Handler.Stages.{
  pop_top, find_driver, insert_job, respond_with, release_device, complete,
}
use pow_server.Handler.Task.{Running, take_task, begin_task, finish_task, work_result}
use pow_server.Devices.{aquire_first_available_device}
use pow_server.JobQueue.{pop_job}
use pow_server.Handler.System as HandlerSystem
use pow_server.Handler.System.{
  System, request, take, finish, delete, on_request, on_take, on_finish, on_delete,
}

module _ {Double Float Tree : Type 0} (lib : Libraries Double Float Tree) (config : Config) where
  -- What the steps of a work_generate do in a row: its job is queued and its lambda posted, or the
  -- client is answered that it could not be queued.
  abbrev pub in_a_row : Prepared Double → Handler Double → Handler Double × List Reply
  in_a_row p h =
      let (after, queued) = queue_job lib config p.job (dispense lib config h) in
      (
        if queued then post_task lib config p.task after else after,
        if queued then [] else refuse lib config p.task ∷ [],
      )

  -- What is prepared is a job for some correlation id and request, with a device configured.
  prepared :
      (id : Option Text) (client : ℕ) (tree : Tree) (h : Handler Double) (p : Prepared Double)
      → prepare_job lib config id client tree h ≡ some p
      → (is_nil config.devices ≡ false)
        × (fill_job lib config tree (new_job lib.fl lib.mp h.job_id_dispenser) ≡ ok p.job)
        × (p.task ≡ record { correlation_id = id; client = client })
  unfolding prepare_job
  prepared id client tree h p e = ground arith

  generate_lem :
      (id : Option Text) (client : ℕ) (tree : Tree) (h : Handler Double) (p : Prepared Double)
      → prepare_job lib config id client tree h ≡ some p
      → report lib config id client (generate lib config id client tree h) ≡ in_a_row p h
  unfolding generate report dispense queue_job post_task refuse
  generate_lem id client tree h p e =
      let (there, good, captured) = prepared id client tree h p e in
      elim (Bool-cases (ltb (length h.jobs) config.server.request_limit)) [
        | inl room ↦ rw (there, good, room, captured) refl
        | inr full ↦ rw (there, good, full, captured) refl
      ]

  dispatch_lem :
      (id : Option Text) (client : ℕ) (tree : Tree) (action : Option Text) (h : Handler Double)
      (p : Prepared Double)
      → prepare_action lib config id client tree action h ≡ some p
      → report lib config id client (dispatch lib config id client tree action h) ≡ in_a_row p h
  unfolding prepare_action dispatch
  dispatch_lem id client tree none h p e = ground arith
  dispatch_lem id client tree (some action) h p e =
      elim (Bool-cases (text_eq action (codes "work_generate"))) [
        | inl generates ↦ rw generates (generate_lem id client tree h p (rw generates at e))
        | inr other ↦ ground arith
      ]

  -- A work_generate that reaches the mutex is its three steps in a row.
  pub handle_request-in_a_row :
      (body : Text) (client : ℕ) (h : Handler Double) (p : Prepared Double)
      → prepare lib config body client h ≡ some p
      → handle_request_async lib config body client h ≡ in_a_row p h
  unfolding prepare handle_request_async
  handle_request-in_a_row body client h p e = elim (Result-cases (lib.json.read_json body)) [
    | inr (_, bad) ↦ ground arith
    | inl (tree, good) ↦
        rw (good, handle_request_async)
          (dispatch_lem (lib.json.get_optional tree Key.id) client tree
            (lib.json.get_optional tree Key.action) h p (rw (good, prepare) at e))
  ]

  request-Reach :
      (body : Text) (client : ℕ) (s : System Double)
      → Reach lib config (alone lib config s)
      → Reach lib config (alone lib config (on_request lib config body client s))
  unfolding on_request on_prepare on_queue on_post queue_job dispense
  request-Reach body client s r = elim (Option-cases (prepare lib config body client s.handler)) [
    | inl whole ↦ later r (requests body client whole)
    | inr (p, e) ↦ rw (handle_request-in_a_row body client s.handler p e) (
        let begun = later r (prepares body client p e) in
        let asked = later begun (queues [] p [] refl) in
        elim (Bool-cases (ltb (length s.handler.jobs) config.server.request_limit)) [
          | inl room ↦ rw room (later (rw room at asked) (posts [] p.task [] refl))
          | inr full ↦ rw full (rw full at asked)
        ])
  ]

  -- A thread that takes a lambda pops a job, finds a device and enters the job.
  take-Reach :
      (now : ℕ) (s : System Double)
      → length s.running < length config.devices
      → Reach lib config (alone lib config s)
      → Reach lib config (alone lib config (on_take lib config now s))
  unfolding on_take take_task begin_task on_lambda on_pop on_driver on_insert pop_top find_driver
      insert_job
  take-Reach now s free r = elim (list_cases s.handler.posted) [
    | inl none_waits ↦ rw none_waits (rw none_waits at r)
    | inr (t, rest, split) ↦
        let taken = later r (takes t rest split (omega (arith, free))) in
        let looked = later taken (pops [] t [] refl) in
        elim (Option-cases (pop_job s.handler.jobs)) [
          | inl no_job ↦
              rw (split, take_task, begin_task, no_job) (rw (no_job, on_pop, pop_top) at looked)
          | inr ((j, others), top) ↦
              let popped = rw (top, on_pop, pop_top) at looked in
              let scanned = later popped (finds now [] (record { task = t; job = j }) [] refl) in
              elim (Result-cases (aquire_first_available_device s.handler.devices).1) [
                | inr (e, missing) ↦
                    rw (split, take_task, begin_task, top, missing)
                      (rw (missing, on_driver, find_driver) at scanned)
                | inl (i, found) ↦
                    let armed = rw (found, on_driver, find_driver) at scanned in
                    rw (split, take_task, begin_task, top, found)
                      (later armed (inserts [] _ [] refl))
              ]
        ]
  ]

  -- A thread that finishes answers, releases its device and completes the job.
  finish-Reach :
      (now : ℕ) (before : List (Running Double)) (x : Running Double)
      (after : List (Running Double)) (s : System Double)
      → s.running ≡ before ++ x ∷ after
      → Reach lib config (alone lib config s)
      → Reach lib config (alone lib config (on_finish lib config now before x after s))
  unfolding on_finish finish_task on_respond on_release on_complete respond_with release_device
      complete
  finish-Reach now before x after s split r =
      let worked = later r (responds before x after split) in
      elim (Result-cases (work_result lib config x.job)) [
        | inr (e, bad) ↦ rw (bad, finish_task) (rw (bad, on_respond, respond_with) at worked)
        | inl (result, good) ↦
            let responded = rw (good, on_respond, respond_with) at worked in
            let released = later responded (releases [] _ [] refl) in
            rw (good, finish_task) (later released (completes now [] _ [] refl))
      ]

  -- Every state that the handler reaches when its requests are handled one after the other is one
  -- that it reaches when they take turns.
  pub Reach-Reach :
      {s : System Double} → HandlerSystem.Reach lib config s → Reach lib config (alone lib config s)
  Reach-Reach HandlerSystem.initial = initial
  Reach-Reach (HandlerSystem.later r (request body client)) =
      request-Reach body client _ (Reach-Reach r)
  Reach-Reach (HandlerSystem.later r (take now free)) = take-Reach now _ free (Reach-Reach r)
  Reach-Reach (HandlerSystem.later r (finish now before x after split)) =
      finish-Reach now before x after _ split (Reach-Reach r)
  Reach-Reach (HandlerSystem.later r (delete client)) = later (Reach-Reach r) (deletes client)
