-- ===== src/Handler/Calm.antt =====
-- src/workserver/work_handler.cpp: histories without a cancellation or a deletion, and the order of
-- the queue in them while priorities are off.
use pow_server.Prelude.{
  ℕ, ◌+◌, ◌^◌, ◌<◌, ◌≡◌, sym, ap, subst, ◌∙◌, Bool, true, false, List, [], ◌∷◌, ◌++◌, Text, ok, map,
  length, drop, arith, All, append-nil, >>=-eq-ok,
}
use mathlib.Core.List.{map-append}
use pow_server.Bigint.{of_hex, u256_size}
use pow_server.Config.{Config}
use pow_server.Json.{Key}
use pow_server.Job.{Job, new_job, fetch_add, less, set_priority}
use pow_server.JobQueue.{push}
use pow_server.JobQueue.Oldest.{IsNewestFirst, ids}
use pow_server.Handler.{Libraries, Handler, PoolTask, Reply}
use pow_server.Handler.Outcome.{Outcome, queued, refused, refused_job, answered, removed}
use pow_server.Handler.Request.{
  handle_request_async, fill_job, required, requested_difficulty, granted_priority,
}
use pow_server.Handler.System.{System, init, on_request, on_take, on_finish}
use pow_server.Handler.Task.{Running}

module _ {Double Float Tree : Type 0} (lib : Libraries Double Float Tree) (config : Config) where
  -- The lambda that a request posts, with the id of the job that it queues.
  abbrev pub queued_with :
      {client : ℕ} {h : Handler Double} {r : Handler Double × List Reply}
      → Outcome lib config client h r
      → List (PoolTask × ℕ)
  queued_with {client} (queued id request j there good room e) =
      (record { correlation_id = id; client = client }, j.job_id) ∷ []
  queued_with _ = []

  abbrev pub is_cancellation :
      {client : ℕ} {h : Handler Double} {r : Handler Double × List Reply}
      → Outcome lib config client h r
      → Bool
  is_cancellation (removed hash body e) = true
  is_cancellation _ = false

  -- The histories without a cancellation and without a deletion, in which the ids do not wrap
  -- around. The lambdas that wait are listed with the ids of the jobs that their requests queued.
  pub data Calm : System Double → List (PoolTask × ℕ) → Type 0 where
    initial : Calm (init lib config) []
    request :
        {s : System Double} {own : List (PoolTask × ℕ)} (body : Text) (client : ℕ)
        (o : Outcome lib config client s.handler
          (handle_request_async lib config body client s.handler))
        → Calm s own
        → is_cancellation o ≡ false
        → s.handler.job_id_dispenser + 1 < 2 ^ 32
        → Calm (on_request lib config body client s) (own ++ queued_with o)
    take :
        {s : System Double} {own : List (PoolTask × ℕ)} (now : ℕ)
        → Calm s own
        → length s.running < length config.devices
        → Calm (on_take lib config now s) (drop 1 own)
    finish :
        {s : System Double} {own : List (PoolTask × ℕ)} (now : ℕ) (before : List (Running Double))
        (r : Running Double) (after : List (Running Double))
        → Calm s own
        → s.running ≡ before ++ r ∷ after
        → Calm (on_finish lib config now before r after s) own

  -- A job without a priority, and an id that was given before.
  abbrev pub IsOlder : ℕ → Job Double → Type 0
  IsOlder next j = (j.priority ≡ 0) × (j.job_id < next)

  -- The jobs wait in the order of their lambdas, each with no priority and an id that was given.
  pub record IsPaired (h : Handler Double) (own : List (PoolTask × ℕ)) : Type 0 where
    pub tasks : map (λ (p : PoolTask × ℕ). p.0) own ≡ h.posted
    pub jobs_own : map (λ (p : PoolTask × ℕ). p.1) own ≡ ids h.jobs
    pub given : All (IsOlder h.job_id_dispenser) h.jobs
    pub newest : IsNewestFirst h.jobs

  fill_job-kept :
      (tree : Tree) (j filled : Job Double)
      → config.server.allow_prioritization ≡ false
      → fill_job lib config tree j ≡ ok filled
      → (filled.priority ≡ j.priority) × (filled.job_id ≡ j.job_id)
  unfolding fill_job granted_priority set_priority
  fill_job-kept tree j filled off h =
      let (hex, _, h1) = >>=-eq-ok (required (lib.json.get_optional tree Key.hash) _) _ h in
      let (hash, _, h2) = >>=-eq-ok (of_hex lib.mp u256_size _ hex) _ h1 in
      let (difficulty, _, h3) = >>=-eq-ok (requested_difficulty lib config tree) _ h2 in
      ground arith

  less-older :
      (j : Job Double) (js : List (Job Double)) (next : ℕ)
      → j.priority ≡ 0
      → j.job_id ≡ next
      → All (IsOlder next) js
      → All (λ y. less j y ≡ true) js
  unfolding less
  less-older j [] next p i h = tt
  less-older j (y ∷ ys) next p i h = (ground arith, less-older j ys next p i h.1)

  All-older :
      (js : List (Job Double)) (next : ℕ) → All (IsOlder next) js → All (IsOlder (next + 1)) js
  All-older [] next h = tt
  All-older (y ∷ ys) next h = ((h.0.0, omega arith), All-older ys next h.1)

  -- A job that is refused has used its id.
  spent-IsPaired :
      (h : Handler Double) (own : List (PoolTask × ℕ))
      → h.job_id_dispenser + 1 < 2 ^ 32
      → IsPaired h own
      → IsPaired (record h { job_id_dispenser = fetch_add h.job_id_dispenser }) (own ++ [])
  unfolding fetch_add
  spent-IsPaired h own fits v =
      let next : fetch_add h.job_id_dispenser ≡ h.job_id_dispenser + 1 = omega arith in
      rw append-nil (record {
        tasks = v.tasks;
        jobs_own = v.jobs_own;
        given =
            subst (λ n. All (IsOlder n) h.jobs) (sym next)
              (All-older h.jobs h.job_id_dispenser v.given);
        newest = v.newest;
      })

  queued-IsPaired :
      (h : Handler Double) (own : List (PoolTask × ℕ)) (task : PoolTask) (j : Job Double)
      → (j.priority ≡ 0) × (j.job_id ≡ h.job_id_dispenser)
      → h.job_id_dispenser + 1 < 2 ^ 32
      → IsPaired h own
      → IsPaired
          (record h {
            job_id_dispenser = fetch_add h.job_id_dispenser;
            jobs = push h.jobs j;
            posted = h.posted ++ task ∷ [];
          })
          (own ++ (task, j.job_id) ∷ [])
  unfolding fetch_add push
  queued-IsPaired h own task j (plain, named) fits v =
      let next : fetch_add h.job_id_dispenser ≡ h.job_id_dispenser + 1 = omega arith in
      record {
        tasks = map-append _ own ((task, j.job_id) ∷ []) ∙ ap (λ l. l ++ task ∷ []) v.tasks;
        jobs_own =
            map-append _ own ((task, j.job_id) ∷ []) ∙ ap (λ l. l ++ j.job_id ∷ []) v.jobs_own;
        given = (
          (plain, omega arith),
          subst (λ n. All (IsOlder n) h.jobs) (sym next)
              (All-older h.jobs h.job_id_dispenser v.given),
        );
        newest = (less-older j h.jobs h.job_id_dispenser plain named v.given, v.newest);
      }

  pub request-IsPaired :
      (h : Handler Double) (own : List (PoolTask × ℕ)) (body : Text) (client : ℕ)
      (o : Outcome lib config client h (handle_request_async lib config body client h))
      → config.server.allow_prioritization ≡ false
      → is_cancellation o ≡ false
      → h.job_id_dispenser + 1 < 2 ^ 32
      → IsPaired h own
      → IsPaired (handle_request_async lib config body client h).0 (own ++ queued_with o)
  unfolding new_job
  request-IsPaired h own body client (queued id tree j there good room e) off calm fits v = rw e (
      queued-IsPaired h own (record { correlation_id = id; client = client }) j
        (fill_job-kept tree (new_job lib.fl lib.mp h.job_id_dispenser) j off good) fits v)
  request-IsPaired h own body client (refused id e r) off calm fits v = rw (r, append-nil) v
  request-IsPaired h own body client (refused_job id e r) off calm fits v =
      rw r (spent-IsPaired h own fits v)
  request-IsPaired h own body client (answered text r) off calm fits v = rw (r, append-nil) v
  request-IsPaired h own body client (removed hash text r) off calm fits v = absurd (ground arith)
