-- ===== src/Handler/Racing/Cases.antt =====
-- src/workserver/work_handler.cpp: how the steps of a lambda can end; and a list from which one
-- entry is taken.
use pow_server.Prelude.{
  ℕ, suc, ◌+◌, ◌≡◌, ◌⊎◌, ok, err, inl, inr, refl, ap, List, [], ◌∷◌, ◌++◌, none, some, Error, Text,
  ◌==◌, if◌then◌else◌, length, length-append, length-perm, arith, Result-cases,
}
use pow_server.Config.{Config}
use pow_server.Devices.{aquire_first_available_device}
use pow_server.Job.{Job, start}
use pow_server.JobQueue.Drain.{pop_job_lem}
use pow_server.Handler.{Libraries, Handler, PoolTask}
use pow_server.Handler.Accounting.{tally, tally-append}
use pow_server.Handler.Stages.{Popped, pop_top, find_driver, respond_with}
use pow_server.Handler.Task.{Running, answer_error, work_result, result_tree}

module _ {A : Type 0} {xs : List A} (before : List A) (x : A) (after : List A)
    (split : xs ≡ before ++ x ∷ after) where
  pub length-split : length xs ≡ suc (length (before ++ after))
  length-split =
      let whole = ap length split in
      omega (arith, whole, length-append before (x ∷ after), length-append before after)

  pub tally-split :
      (f : A → ℕ) (c : ℕ) → tally f c xs ≡ (if f x == c then 1 else 0) + tally f c (before ++ after)
  tally-split f c =
      let whole = ap (tally f c) split in
      omega (arith, whole, tally-append f c before (x ∷ after), tally-append f c before after)

module _ {Double Float Tree : Type 0} (lib : Libraries Double Float Tree) (config : Config) where
  -- No job waits, which is answered, or one is popped.
  pub pop_top-cases :
      (task : PoolTask) (h : Handler Double)
      → (h.jobs ≡ []
          × (pop_top lib config task h
              ≡ (h, answer_error lib config task Error.no_jobs ∷ [], none)))
        ⊎ ((j : Job Double) × (rest : List (Job Double)) × (suc (length rest) ≡ length h.jobs)
            × (pop_top lib config task h
                ≡ (record h { jobs = rest }, [], some (record { task = task; job = j }))))
  unfolding pop_top
  pop_top-cases task h = elim (pop_job_lem h.jobs) [
    | inl (empty, none_there) ↦ inl (empty, rw (none_there, pop_top) refl)
    | inr (j, rest, popped, same, first) ↦
        inr (j, rest, length-perm same, rw (popped, pop_top) refl)
  ]

  -- All devices are busy, which is answered, or one is found.
  pub find_driver-cases :
      (now : ℕ) (p : Popped Double) (h : Handler Double)
      → let devices = (aquire_first_available_device h.devices).0 in
        ((e : Error) × ((aquire_first_available_device h.devices).1 ≡ err e)
          × (find_driver lib config now p h
              ≡ (record h { devices = devices }, answer_error lib config p.task e ∷ [], none)))
        ⊎ ((i : ℕ) × ((aquire_first_available_device h.devices).1 ≡ ok i)
            × (find_driver lib config now p h ≡ (
              record h { devices = devices },
              [],
              some (record { task = p.task; device = i; job = start now p.job }),
            )))
  unfolding find_driver
  find_driver-cases now p h = elim (Result-cases (aquire_first_available_device h.devices).1) [
    | inl (i, found) ↦ inr (i, found, rw (found, find_driver) refl)
    | inr (e, missing) ↦ inl (e, missing, rw (missing, find_driver) refl)
  ]

  -- The work throws, which is answered, or it is answered.
  pub respond_with-cases :
      (r : Running Double)
      → ((e : Error) × (work_result lib config r.job ≡ err e)
          × (respond_with lib config r ≡ (answer_error lib config r.task e ∷ [], none)))
        ⊎ ((body : Text) × (j : Job Double) × (respond_with lib config r
              ≡ (record { client = r.task.client; body = body } ∷ [], some (record r { job = j }))))
  unfolding respond_with
  respond_with-cases r = elim (Result-cases (work_result lib config r.job)) [
    | inl (result, good) ↦ inr (
      lib.json.write_json (result_tree lib config r.task.correlation_id result),
      record r.job { result = result },
      rw (good, respond_with) refl,
    )
    | inr (e, bad) ↦ inl (e, bad, rw (bad, respond_with) refl)
  ]
