-- ===== src/Handler/Outcome.antt =====
-- The ways in which handle_request_async can end.
use pow_server.Prelude.{
  ℕ, ◌<◌, ◌≡◌, inl, inr, refl, ap, false, List, [], ◌∷◌, ◌++◌, Option, none, some, Text, codes,
  Error, ok, err, ltb, is_nil, if◌then◌else◌, length, text_eq, arith, Bool-cases, Result-cases,
  >>=-eq-ok,
}
use pow_server.Bigint.{Bigint, u128_size, u256_size, of_hex}
use pow_server.Config.{Config}
use pow_server.Job.{Job, new_job, fetch_add}
use pow_server.JobQueue.{push, remove_job}
use pow_server.Json.{Key}
use pow_server.Handler.{Libraries, Handler, Reply}
use pow_server.Handler.Replies.{create_error_response}
use pow_server.Handler.Request.{
  required, fill_job, generate, validate, cancel, cancel_tree, cancel_hash, validate_tree,
  requested_difficulty, dispatch, report, handle_request_async,
}

module _ {Double Float Tree : Type 0} (lib : Libraries Double Float Tree) (config : Config) where
  -- How a call for a client ends: a job is queued with a task for the client and nothing is
  -- answered yet; or one answer goes to the client, and the handler is as it was but for the
  -- id that a refused job has used, or for the jobs that a cancellation removed.
  pub data Outcome (client : ℕ) (h : Handler Double) (r : Handler Double × List Reply)
      : Type 0 where
    queued :
        (id : Option Text) (request : Tree) (j : Job Double)
        → is_nil config.devices ≡ false
        → fill_job lib config request (new_job lib.fl lib.mp h.job_id_dispenser) ≡ ok j
        → length h.jobs < config.server.request_limit
        → r ≡ (
          record h {
            job_id_dispenser = fetch_add h.job_id_dispenser;
            jobs = push h.jobs j;
            posted = h.posted ++ record { correlation_id = id; client = client } ∷ [];
          },
          [],
        )
        → Outcome client h r
    refused :
        (id : Option Text) (e : Error)
        → r ≡ (h, record { client = client; body = create_error_response lib.json id e } ∷ [])
        → Outcome client h r
    refused_job :
        (id : Option Text) (e : Error)
        → r ≡ (
          record h { job_id_dispenser = fetch_add h.job_id_dispenser },
          record { client = client; body = create_error_response lib.json id e } ∷ [],
        )
        → Outcome client h r
    answered :
        (body : Text) → r ≡ (h, record { client = client; body = body } ∷ []) → Outcome client h r
    removed :
        (hash : Bigint) (body : Text)
        → r ≡ (
          record h { jobs = (remove_job lib.mp h.jobs hash).0 },
          record { client = client; body = body } ∷ [],
        )
        → Outcome client h r

  module _ (id : Option Text) (client : ℕ) (request : Tree) (h : Handler Double) where
    generate-Outcome :
        Outcome client h (report lib config id client (generate lib config id client request h))
    unfolding generate report
    generate-Outcome = elim (Bool-cases (is_nil config.devices)) [
      | inl none_there ↦ refused id Error.no_work_device (rw none_there refl)
      | inr there ↦
          elim (Result-cases
            (fill_job lib config request (new_job lib.fl lib.mp h.job_id_dispenser))) [
              | inr (e, bad) ↦ refused_job id e (rw (there, bad) refl)
              | inl (j, good) ↦
                  elim (Bool-cases (ltb (length h.jobs) config.server.request_limit)) [
                    | inl room ↦
                        queued id request j there good (ground arith) (rw (there, good, room) refl)
                    | inr full ↦ refused_job id Error.request_limit (rw (there, good, full) refl)
                  ]
            ]
    ]

    -- A validation that comes out well answers the one fixed response.
    validate-ok :
        (rs : List Reply)
        → validate lib config id client request ≡ ok rs
        → rs
          ≡ record { client = client; body = lib.json.write_json (validate_tree lib config id) }
            ∷ []
    unfolding validate
    validate-ok rs h =
        let (hash_hex, _, h1) =
          >>=-eq-ok (required (lib.json.get_optional request Key.hash) _) _ h in
        let (hash, _, h2) = >>=-eq-ok (of_hex lib.mp u256_size _ hash_hex) _ h1 in
        let (work_hex, _, h3) =
          >>=-eq-ok (required (lib.json.get_optional request Key.work) _) _ h2 in
        let (work, _, h4) = >>=-eq-ok (of_hex lib.mp u128_size _ work_hex) _ h3 in
        let (difficulty, _, h5) = >>=-eq-ok (requested_difficulty lib config request) _ h4 in cc

    validate-Outcome :
        Outcome client h (report lib config id client (h, validate lib config id client request))
    unfolding report
    validate-Outcome = elim (Result-cases (validate lib config id client request)) [
      | inl (rs, good) ↦
          answered (lib.json.write_json (validate_tree lib config id))
            (rw good (ap (λ (l : List Reply). (h, l)) (validate-ok rs good)))
      | inr (e, bad) ↦ refused id e (rw bad refl)
    ]

    -- What a cancellation with a hash that can be read leaves and answers.
    cancel_lem :
        (hash : Bigint)
        → cancel_hash lib config request ≡ ok hash
        → cancel lib config id client request h ≡ (
          record h { jobs = (remove_job lib.mp h.jobs hash).0 },
          if (remove_job lib.mp h.jobs hash).1
              then ok (
                  record { client = client; body = lib.json.write_json (cancel_tree lib config id) }
                  ∷ [])
              else err Error.hash_not_found,
        )
    unfolding cancel
    cancel_lem hash good = rw (good, cancel) refl

    cancel_bad :
        (e : Error)
        → cancel_hash lib config request ≡ err e
        → cancel lib config id client request h ≡ (h, err e)
    unfolding cancel
    cancel_bad e bad = rw (bad, cancel) refl

    cancel-Outcome :
        Outcome client h (report lib config id client (cancel lib config id client request h))
    cancel-Outcome = elim (Result-cases (cancel_hash lib config request)) [
      | inr (e, bad) ↦ refused id e (rw (cancel_bad e bad) (unfold report in refl))
      | inl (hash, good) ↦ elim (Bool-cases (remove_job lib.mp h.jobs hash).1) [
        | inl found ↦
            removed hash (lib.json.write_json (cancel_tree lib config id))
              (rw (cancel_lem hash good, found) (unfold report in refl))
        | inr missing ↦
            removed hash (create_error_response lib.json id Error.hash_not_found)
              (rw (cancel_lem hash good, missing) (unfold report in refl))
      ]
    ]

    dispatch-Outcome :
        (action : Option Text)
        → Outcome client h
            (report lib config id client (dispatch lib config id client request action h))
    unfolding dispatch
    dispatch-Outcome none = refused id Error.invalid_action (unfold report in refl)
    dispatch-Outcome (some action) = elim (Bool-cases (text_eq action (codes "work_generate"))) [
      | inl is_generate ↦ rw is_generate generate-Outcome
      | inr not_generate ↦ elim (Bool-cases (text_eq action (codes "work_validate"))) [
        | inl is_validate ↦ rw (not_generate, is_validate) validate-Outcome
        | inr not_validate ↦ elim (Bool-cases (text_eq action (codes "work_cancel"))) [
          | inl is_cancel ↦ rw (not_generate, not_validate, is_cancel) cancel-Outcome
          | inr not_cancel ↦
              rw (not_generate, not_validate, not_cancel)
                (refused id Error.invalid_action (unfold report in refl))
        ]
      ]
    ]

  -- Every call of handle_request_async ends in one of these ways.
  pub handle_request-Outcome :
      (body : Text) (client : ℕ) (h : Handler Double)
      → Outcome client h (handle_request_async lib config body client h)
  unfolding handle_request_async
  handle_request-Outcome body client h = elim (Result-cases (lib.json.read_json body)) [
    | inr (e, bad) ↦ rw (bad, handle_request_async) (refused none e (unfold report in refl))
    | inl (request, good) ↦
        rw (good, handle_request_async)
          (dispatch-Outcome (lib.json.get_optional request Key.id) client request h
            (lib.json.get_optional request Key.action))
  ]
