-- ===== src/Handler/Own.antt =====
-- src/workserver/work_handler.cpp: which job a lambda gets while priorities are off, nothing is
-- cancelled and the queue is not deleted.
use pow_server.Prelude.{
  ℕ, ◌≡◌, refl, sym, ap, subst, ◌∙◌, inl, inr, false, List, [], ◌∷◌, Option, some, list_cases, map,
  drop, arith, All, Result-cases,
}
use pow_server.Config.{Config}
use pow_server.Devices.{RegisteredDevice, aquire_first_available_device}
use pow_server.Job.{Job, start}
use pow_server.JobQueue.{pop_job, take_top}
use pow_server.JobQueue.Oldest.{IsNewestFirst, ids, take_top-oldest}
use pow_server.JobQueue.Order.{All-take_top}
use pow_server.Handler.{Libraries, Handler, PoolTask, Reply, new_handler}
use pow_server.Handler.System.{System, on_request, on_take, on_finish}
use pow_server.Handler.Task.{Running, take_task, begin_task, finish_task, work_result}
use pow_server.Handler.Calm.{
  Calm, initial, request, take, finish, IsOlder, IsPaired, request-IsPaired,
}

cons_eq : {A : Type 0} {x y : A} {xs ys : List A} → x ∷ xs ≡ y ∷ ys → (x ≡ y) × (xs ≡ ys)
cons_eq e = (cc, cc)

module _ {Double Float Tree : Type 0} (lib : Libraries Double Float Tree) (config : Config) where
  -- What a thread that takes a lambda leaves, and that the lambda that it takes gets its own job.
  record IsOwn (r : Handler Double × List Reply × Option (Running Double))
      (own : List (PoolTask × ℕ)) : Type 0 where
    left : IsPaired lib config r.0 (drop 1 own)
    gets :
        (running : Running Double)
        → r.2 ≡ some running
        → (rest : List (PoolTask × ℕ)) × (own ≡ (running.task, running.job.job_id) ∷ rest)

  begin-IsOwn :
      (now : ℕ) (h : Handler Double) (task : PoolTask) (i : ℕ) (own : List (PoolTask × ℕ))
      (x : Job Double) (xs : List (Job Double))
      → h.jobs ≡ x ∷ xs
      → map (λ (p : PoolTask × ℕ). p.0) own ≡ h.posted
      → i ∷ map (λ (p : PoolTask × ℕ). p.1) own ≡ ids (x ∷ xs)
      → All (IsOlder lib config h.job_id_dispenser) (x ∷ xs)
      → IsNewestFirst (x ∷ xs)
      → IsOwn (begin_task lib config now task h) ((task, i) ∷ own)
  unfolding begin_task pop_job start
  begin-IsOwn now h task i own x xs jobs tasks jobs_own given newest =
      let (split, ordered) = take_top-oldest x xs newest in
      let (mine, others) = cons_eq (jobs_own ∙ split) in
      let paired : (devices : List RegisteredDevice) (active : List (Job Double))
          → IsPaired lib config
              (record h { jobs = (take_top x xs).1; devices = devices; active_jobs = active }) own =
        λ devices active. record {
          tasks = tasks;
          jobs_own = others;
          given = (All-take_top (IsOlder lib config h.job_id_dispenser) x xs given.0 given.1).1;
          newest = ordered;
        } in
      elim (Result-cases (aquire_first_available_device h.devices).1) [
        | inl (device, found) ↦
            rw (jobs, begin_task, found)
              (record {
                left = paired _ _;
                gets = λ running e. (
                  own,
                  let same : record {
                    task = task;
                    device = device;
                    job = start now (take_top x xs).0;
                  }
                          ≡ running =
                        cc in
                      ap (λ n. (task, n) ∷ own) mine
                      ∙ ap (λ (r : Running Double). (r.task, r.job.job_id) ∷ own) same,
                );
              })
        | inr (error, missing) ↦
            rw (jobs, begin_task, missing)
              (record { left = paired _ _; gets = λ running e. absurd (ground arith) })
      ]

  take-IsOwn :
      (now : ℕ) (h : Handler Double) (own : List (PoolTask × ℕ))
      → IsPaired lib config h own
      → IsOwn (take_task lib config now h) own
  unfolding take_task
  take-IsOwn now h [] v =
      rw (sym v.tasks, take_task) (record { left = v; gets = λ running e. absurd (ground arith) })
  take-IsOwn now h ((task, i) ∷ own) v = elim (list_cases h.jobs) [
    | inl none_left ↦ absurd (ground (arith, v.jobs_own))
    | inr (x, xs, jobs) ↦
        rw (sym v.tasks, take_task)
          (begin-IsOwn now (record h { posted = map (λ (p : PoolTask × ℕ). p.0) own }) task i own x
            xs jobs refl (v.jobs_own ∙ ap ids jobs)
            (subst (All (IsOlder lib config h.job_id_dispenser)) jobs v.given)
            (subst IsNewestFirst jobs v.newest))
  ]

  finish-IsPaired :
      (now : ℕ) (r : Running Double) (h : Handler Double) (own : List (PoolTask × ℕ))
      → IsPaired lib config h own
      → IsPaired lib config (finish_task lib config now r h).0 own
  unfolding finish_task
  finish-IsPaired now r h own v = elim (Result-cases (work_result lib config r.job)) [
    | inr (e, bad) ↦ rw (bad, finish_task) v
    | inl (result, good) ↦
        rw (good, finish_task)
          (record { tasks = v.tasks; jobs_own = v.jobs_own; given = v.given; newest = v.newest })
  ]

  Calm-IsPaired :
      {s : System Double} {own : List (PoolTask × ℕ)}
      → config.server.allow_prioritization ≡ false
      → Calm lib config s own
      → IsPaired lib config s.handler own
  unfolding on_request on_take on_finish new_handler
  Calm-IsPaired off initial = record { tasks = refl; jobs_own = refl; given = tt; newest = tt }
  Calm-IsPaired off (request body client o before calm fits) =
      request-IsPaired lib config _ _ body client o off calm fits (Calm-IsPaired off before)
  Calm-IsPaired off (take now before free) = (take-IsOwn now _ _ (Calm-IsPaired off before)).left
  Calm-IsPaired off (finish now before r after earlier split) =
      finish-IsPaired now r _ _ (Calm-IsPaired off earlier)

  -- While requests are handled one after the other, priorities are off, nothing is cancelled, the
  -- queue is not deleted and the ids do not wrap around: a lambda that gets a job gets the one that its own request queued.
  pub take_task-own :
      {s : System Double} {own : List (PoolTask × ℕ)} (now : ℕ) (running : Running Double)
      → config.server.allow_prioritization ≡ false
      → Calm lib config s own
      → (take_task lib config now s.handler).2 ≡ some running
      → (rest : List (PoolTask × ℕ)) × (own ≡ (running.task, running.job.job_id) ∷ rest)
  take_task-own now running off calm taken =
      (take-IsOwn now _ _ (Calm-IsPaired off calm)).gets running taken
