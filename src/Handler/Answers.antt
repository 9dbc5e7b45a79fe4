-- ===== src/Handler/Answers.antt =====
-- Over every history of requests and threads: limits hold, and each client gets one answer for
-- each of its requests.
use pow_server.Prelude.{
  ℕ, ◌+◌, ◌≤◌, ◌≡◌, Bool, true, false, refl, ap, List, [], ◌∷◌, Option, none, some, Text, ◌==◌,
  if◌then◌else◌, length, length-append, arith, Result-cases, inl, inr,
}
use pow_server.Config.{Config}
use pow_server.Handler.{Libraries, Handler, new_handler}
use pow_server.Handler.Request.{handle_request_async}
use pow_server.Handler.Reports.{handle_queue_delete_request}
use pow_server.Handler.Task.{Running, take_task, finish_task, answer_error, work_result}
use pow_server.Handler.Outcome.{
  queued, refused, refused_job, answered, removed, handle_request-Outcome,
}
use pow_server.Handler.Accounting.{
  tally, tally-append, reply_client, task_client, running_client, resting, failed, begun,
  take_task-TakeOutcome,
}
use pow_server.Handler.Limits.{
  IsHandler, request-IsHandler, take-IsHandler, finish-IsHandler, delete-IsHandler,
}
use pow_server.Handler.System.{
  System, of_option, on_request, on_take, on_finish, on_delete, Step, request, take, finish, delete,
  init, Reach, initial, later,
}

pub of_option-le : {A : Type 0} (o : Option A) → length (of_option o) ≤ 1
of_option-le none = omega arith
of_option-le (some a) = omega arith

pub nil_of_length : {A : Type 0} (xs : List A) → length xs ≤ 0 → xs ≡ []
nil_of_length [] h = refl
nil_of_length (x ∷ xs) h = absurd (omega arith)

module _ {Double Float Tree : Type 0} (lib : Libraries Double Float Tree) (config : Config) where
  -- What handle_request_async adds for the client `c`: an answer or a lambda, once, if `c` asked.
  pub request-tally :
      (body : Text) (client c : ℕ) (h : Handler Double)
      → let (h', answers) = handle_request_async lib config body client h in
        tally reply_client c answers + tally task_client c h'.posted
        ≡ (if client == c then 1 else 0) + tally task_client c h.posted
  request-tally body client c h = elim (handle_request-Outcome lib config body client h) [
    | queued id asked_for j some_device good room e ↦ rw e (
        omega (
          arith,
          tally-append task_client c h.posted
              (record { correlation_id = id; client = client } ∷ []),
        ))
    | refused id e r ↦ rw r (omega arith)
    | refused_job id e r ↦ rw r (omega arith)
    | answered text r ↦ rw r (omega arith)
    | removed hash text r ↦ rw r (omega arith)
  ]

  -- Taking a lambda moves one account from the waiting ones to the answers or the running ones.
  pub take-tally :
      (now c : ℕ) (h : Handler Double)
      → let (h', answers, taken) = take_task lib config now h in
        tally reply_client c answers
          + tally task_client c h'.posted
          + tally running_client c (of_option taken)
        ≡ tally task_client c h.posted
  unfolding answer_error
  take-tally now c h = elim (take_task-TakeOutcome lib config now h) [
    | resting none_left r ↦ rw r (omega arith)
    | failed task rest devices jobs e split shorter r ↦
        let before = ap (tally task_client c) split in rw r (omega (arith, before))
    | begun task rest devices jobs active i j split shorter r ↦
        let before = ap (tally task_client c) split in rw r (omega (arith, before))
  ]

  pub finish-tally :
      (now c : ℕ) (r : Running Double) (h : Handler Double)
      → let (h', answers) = finish_task lib config now r h in
        (tally reply_client c answers ≡ (if running_client r == c then 1 else 0))
        × (h'.posted ≡ h.posted)
  unfolding finish_task
  finish-tally now c r h = elim (Result-cases (work_result lib config r.job)) [
    | inr (e, bad) ↦ rw (bad, finish_task) (omega arith, refl)
    | inl (result, good) ↦ rw (good, finish_task) (omega arith, refl)
  ]

  pub emptied-posted :
      (allowed : Bool) (h : Handler Double)
      → (if allowed then record h { jobs = [] } else h).posted ≡ h.posted
  emptied-posted true h = refl
  emptied-posted false h = refl

  -- The handler is within its limits, no more threads work than there are devices, and each
  -- client's requests are its answers, its lambdas that wait or run, and those that it is owed
  -- besides; `n` jobs may have their lambda to come.
  pub record IsSystem (n : ℕ) (owed : ℕ → ℕ) (s : System Double) : Type 0 where
    pub handler : IsHandler lib config n s.handler
    pub threads : length s.running ≤ length config.devices
    pub accounts :
        (c : ℕ)
        → tally reply_client c s.replies
            + tally task_client c s.handler.posted
            + tally running_client c s.running
            + owed c
          ≡ tally (λ client. client) c s.asked

  pub Step-IsSystem :
      (n : ℕ) (owed : ℕ → ℕ) {s t : System Double}
      → Step lib config s t
      → IsSystem n owed s
      → IsSystem n owed t
  unfolding on_request on_take on_finish on_delete handle_queue_delete_request
  Step-IsSystem n owed {s} (request body client) v = record {
    handler = request-IsHandler lib config n body client s.handler v.handler;
    threads = v.threads;
    accounts = λ c. omega (
      arith,
      v.accounts c,
      request-tally body client c s.handler,
      tally-append reply_client c (handle_request_async lib config body client s.handler).1
          s.replies,
    );
  }
  Step-IsSystem n owed {s} (take now free) v = record {
    handler = take-IsHandler lib config n now s.handler v.handler;
    threads = omega (
      arith,
      length-append (of_option (take_task lib config now s.handler).2) s.running,
      of_option-le (take_task lib config now s.handler).2,
    );
    accounts = λ c. omega (
      arith,
      v.accounts c,
      take-tally now c s.handler,
      tally-append reply_client c (take_task lib config now s.handler).1 s.replies,
      tally-append running_client c (of_option (take_task lib config now s.handler).2) s.running,
    );
  }
  Step-IsSystem n owed {s} (finish now before r after split) v =
      let others = ap length split in
      record {
        handler = finish-IsHandler lib config n now r s.handler v.handler;
        threads = omega (
          arith,
          v.threads,
          others,
          length-append before (r ∷ after),
          length-append before after,
        );
        accounts = λ c.
            let (one, same) = finish-tally now c r s.handler in
            omega (
              arith,
              v.accounts c,
              one,
              ap (tally task_client c) same,
              ap (tally running_client c) split,
              tally-append running_client c before (r ∷ after),
              tally-append running_client c before after,
              tally-append reply_client c (finish_task lib config now r s.handler).1 s.replies,
            );
      }
  Step-IsSystem n owed {s} (delete client) v = record {
    handler = delete-IsHandler lib config n client s.handler v.handler;
    threads = v.threads;
    accounts = λ c. omega (
      arith,
      v.accounts c,
      ap (tally task_client c) (emptied-posted config.server.allow_control s.handler),
    );
  }

  pub init-IsSystem : IsSystem 0 (λ c. 0) (init lib config)
  unfolding new_handler
  init-IsSystem = record {
    handler = record { limited = omega arith; covered = omega arith; kept = omega arith };
    threads = omega arith;
    accounts = λ c. refl;
  }

  -- In every state that requests and threads can reach, in any order: no more jobs wait than the
  -- limit, each waiting job has a lambda that waits too, at most 128 completed jobs are kept, no
  -- more threads work than there are devices, and for each client the requests are as many as the
  -- answers, the waiting lambdas and the running ones together.
  pub Reach-IsSystem : {s : System Double} → Reach lib config s → IsSystem 0 (λ c. 0) s
  Reach-IsSystem initial = init-IsSystem
  Reach-IsSystem (later r st) = Step-IsSystem 0 (λ c. 0) st (Reach-IsSystem r)

  -- Once the pool is idle, no job is left, and each client has one answer for each request.
  answered_once :
      {s : System Double}
      → Reach lib config s
      → s.handler.posted ≡ []
      → s.running ≡ []
      → (s.handler.jobs ≡ [])
        × ((c : ℕ) → tally reply_client c s.replies ≡ tally (λ client. client) c s.asked)
  answered_once {s} r no_lambda no_thread =
      let v = Reach-IsSystem r in
      (
        nil_of_length s.handler.jobs (omega (arith, v.handler.covered, ap length no_lambda)),
        λ c. omega (
          arith,
          v.accounts c,
          ap (tally task_client c) no_lambda,
          ap (tally running_client c) no_thread,
        ),
      )
