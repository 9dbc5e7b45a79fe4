-- ===== src/Handler/Accounting.antt =====
-- Every request is answered exactly once: what each kind of step does to the clients' accounts.
use pow_server.Prelude.{
  ℕ, suc, ◌+◌, ◌-◌, ◌≡◌, inl, inr, refl, sym, subst, List, [], ◌∷◌, ◌++◌, Option, none, some, Error,
  ◌==◌, if◌then◌else◌, length, length-perm, arith, Result-cases, list_cases,
}
use pow_server.Config.{Config}
use pow_server.Devices.{RegisteredDevice, aquire_first_available_device}
use pow_server.Job.{Job, start}
use pow_server.JobQueue.Drain.{pop_job_lem}
use pow_server.Handler.{Libraries, Handler, PoolTask, Reply}
use pow_server.Handler.Task.{Running, take_task, begin_task, answer_error}
use pow_server.Handler.Task.Active.{insert_active}

-- How many entries are for the client `c`.
abbrev pub tally : {A : Type 0} → (A → ℕ) → ℕ → List A → ℕ
tally f c [] = 0
tally f c (x ∷ xs) = (if f x == c then 1 else 0) + tally f c xs

pub tally-append :
    {A : Type 0} (f : A → ℕ) (c : ℕ) (xs ys : List A)
    → tally f c (xs ++ ys) ≡ tally f c xs + tally f c ys
tally-append f c [] ys = omega arith
tally-append f c (x ∷ xs) ys = omega (arith, tally-append f c xs ys)

abbrev pub reply_client : Reply → ℕ
reply_client r = r.client

abbrev pub task_client : PoolTask → ℕ
task_client t = t.client

abbrev pub running_client : {Double : Type 0} → Running Double → ℕ
running_client r = r.task.client

module _ {Double Float Tree : Type 0} (lib : Libraries Double Float Tree) (config : Config) where
  -- What a thread gets that looks for a lambda: none waits; or it takes the oldest, and either
  -- answers an error or goes on with a job. One job less waits, if there was one.
  pub data TakeOutcome (h : Handler Double)
      (r : Handler Double × List Reply × Option (Running Double)) : Type 0 where
    resting : h.posted ≡ [] → r ≡ (h, [], none) → TakeOutcome h r
    failed :
        (task : PoolTask) (rest : List PoolTask) (devices : List RegisteredDevice)
        (jobs : List (Job Double)) (e : Error)
        → h.posted ≡ task ∷ rest
        → length jobs ≡ length h.jobs - 1
        → r ≡ (
          record h { posted = rest; devices = devices; jobs = jobs },
          answer_error lib config task e ∷ [],
          none,
        )
        → TakeOutcome h r
    begun :
        (task : PoolTask) (rest : List PoolTask) (devices : List RegisteredDevice)
        (jobs active : List (Job Double)) (i : ℕ) (j : Job Double)
        → h.posted ≡ task ∷ rest
        → suc (length jobs) ≡ length h.jobs
        → r ≡ (
          record h { posted = rest; devices = devices; jobs = jobs; active_jobs = active },
          [],
          some (record { task = task; device = i; job = j }),
        )
        → TakeOutcome h r

  begin_task-TakeOutcome :
      (now : ℕ) (h : Handler Double) (task : PoolTask) (rest : List PoolTask)
      → h.posted ≡ task ∷ rest
      → TakeOutcome h (begin_task lib config now task (record h { posted = rest }))
  unfolding begin_task
  begin_task-TakeOutcome now h task rest split = elim (pop_job_lem h.jobs) [
    | inl (empty, none_there) ↦
        failed task rest h.devices h.jobs Error.no_jobs split (ground arith)
          (rw (none_there, begin_task) refl)
    | inr (j, others, popped, same, first) ↦
        let shorter = length-perm same in
        elim (Result-cases (aquire_first_available_device h.devices).1) [
          | inl (i, found) ↦
              begun task rest (aquire_first_available_device h.devices).0 others
                (insert_active (start now j) h.active_jobs) i (start now j) split (omega arith)
                (rw (popped, begin_task, found) refl)
          | inr (e, missing) ↦
              failed task rest (aquire_first_available_device h.devices).0 others e split
                (omega arith) (rw (popped, begin_task, missing) refl)
        ]
  ]

  took :
      (now : ℕ) (h : Handler Double) (task : PoolTask) (rest : List PoolTask)
      → h.posted ≡ task ∷ rest
      → take_task lib config now h ≡ begin_task lib config now task (record h { posted = rest })
  unfolding take_task
  took now h task rest split = rw (split, take_task) refl

  -- Every call of take_task ends in one of these ways.
  pub take_task-TakeOutcome :
      (now : ℕ) (h : Handler Double) → TakeOutcome h (take_task lib config now h)
  unfolding take_task
  take_task-TakeOutcome now h = elim (list_cases h.posted) [
    | inl none_left ↦ resting none_left (ground arith)
    | inr (task, rest, split) ↦
        subst (TakeOutcome h) (sym (took now h task rest split))
          (begin_task-TakeOutcome now h task rest split)
  ]
