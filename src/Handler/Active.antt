-- ===== src/Handler/Active.antt =====
-- src/workserver/work_handler.cpp: what a thread that takes or finishes a lambda makes of the active
-- jobs.
use pow_server.Prelude.{
  ℕ, ◌+◌, ◌<◌, ◌≡◌, refl, subst, ap, inl, inr, Bool, true, false, List, [], ◌∷◌, ◌++◌, ok, ◌==◌,
  if◌then◌else◌, All, All-delete, All-middle, ==_iff, list_cases, Result-cases, arith,
}
use pow_server.Config.{Config}
use pow_server.Devices.{RegisteredDevice, aquire_first_available_device}
use pow_server.Job.{Job, JobResult, start, stop}
use pow_server.JobQueue.{take_top, pop_job}
use pow_server.JobQueue.Order.{All-take_top}
use pow_server.Handler.{Libraries, Handler, PoolTask}
use pow_server.Handler.Accounting.{tally, tally-append}
use pow_server.Handler.System.{of_option}
use pow_server.Handler.Tallies.{
  id_of, running_id, running_place, tally-take_top, running_place-le, All-erase_active,
  erase_active-IsOrdered,
}
use pow_server.Handler.Task.{Running, take_task, begin_task, finish_task, work_result}
use pow_server.Handler.Task.Active.{insert_active}
use pow_server.Handler.Task.Places.{
  place, IsId, All-insert_active, insert_active-IsOrdered, tally-insert_active, tally-erase_active,
}
use pow_server.Handler.Tracked.{IsTracked}

self_one : (n : ℕ) → ◌≡◌ {A = ℕ} (if n == n then 1 else 0) 1
self_one n = rw ((==_iff n n).1 refl) refl

module _ {Double Float Tree : Type 0} (lib : Libraries Double Float Tree) (config : Config) where
  -- A lambda that begins with the top job, on some device.
  begun-IsTracked :
      (now device : ℕ) (task : PoolTask) (h : Handler Double) (running : List (Running Double))
      (x : Job Double) (xs : List (Job Double))
      → h.jobs ≡ x ∷ xs
      → IsTracked lib config h running
      → IsTracked lib config
          (record h {
            jobs = (take_top x xs).1;
            devices = (aquire_first_available_device h.devices).0;
            active_jobs = insert_active (start now (take_top x xs).0) h.active_jobs;
          })
          (record { task = task; device = device; job = start now (take_top x xs).0 } ∷ running)
  unfolding start
  begun-IsTracked now device task h running x xs jobs v =
      let top = (take_top x xs).0 in
      let there : All IsId (x ∷ xs) = subst (All IsId) jobs v.waiting_small in
      let (fits, rest) = All-take_top IsId x xs there.0 there.1 in
      let absent : tally place (place top) h.active_jobs ≡ 0 = omega (
        arith,
        v.tracked (place top),
        running_place-le top running fits v.running_small,
        tally-take_top id_of top.job_id x xs,
        ap (tally id_of top.job_id) jobs,
        v.once top.job_id,
        self_one top.job_id,
      ) in
      record {
        fresh = λ c above.
            omega (arith, tally-take_top id_of c x xs, ap (tally id_of c) jobs, v.fresh c above);
        once = λ c. omega (arith, tally-take_top id_of c x xs, ap (tally id_of c) jobs, v.once c);
        tracked = λ k.
            omega (arith, tally-insert_active k (start now top) h.active_jobs absent, v.tracked k);
        ordered = insert_active-IsOrdered (start now top) h.active_jobs v.ordered;
        small = All-insert_active IsId (start now top) h.active_jobs fits v.small;
        waiting_small = rest;
        running_small = (fits, v.running_small);
      }

  -- A lambda that does not begin: its job, if there was one, is lost.
  lost-IsTracked :
      (h : Handler Double) (running : List (Running Double)) (devices : List RegisteredDevice)
      (x : Job Double) (xs : List (Job Double))
      → h.jobs ≡ x ∷ xs
      → IsTracked lib config h running
      → IsTracked lib config (record h { jobs = (take_top x xs).1; devices = devices }) running
  lost-IsTracked h running devices x xs jobs v =
      let there : All IsId (x ∷ xs) = subst (All IsId) jobs v.waiting_small in
      record {
        fresh = λ c above.
            omega (arith, tally-take_top id_of c x xs, ap (tally id_of c) jobs, v.fresh c above);
        once = λ c. omega (arith, tally-take_top id_of c x xs, ap (tally id_of c) jobs, v.once c);
        tracked = v.tracked;
        ordered = v.ordered;
        small = v.small;
        waiting_small = (All-take_top IsId x xs there.0 there.1).1;
        running_small = v.running_small;
      }

  posted-IsTracked :
      (h : Handler Double) (running : List (Running Double)) (posted : List PoolTask)
      → IsTracked lib config h running
      → IsTracked lib config (record h { posted = posted }) running
  posted-IsTracked h running posted v = record {
    fresh = v.fresh;
    once = v.once;
    tracked = v.tracked;
    ordered = v.ordered;
    small = v.small;
    waiting_small = v.waiting_small;
    running_small = v.running_small;
  }

  begin-IsTracked :
      (now : ℕ) (task : PoolTask) (h : Handler Double) (running : List (Running Double))
      → IsTracked lib config h running
      → let r = begin_task lib config now task h in
        IsTracked lib config r.0 (of_option r.2 ++ running)
  unfolding begin_task pop_job
  begin-IsTracked now task h running v = elim (list_cases h.jobs) [
    | inl none_left ↦ rw (none_left, begin_task) v
    | inr (x, xs, jobs) ↦ elim (Result-cases (aquire_first_available_device h.devices).1) [
      | inl (i, found) ↦
          rw (jobs, begin_task, found) (begun-IsTracked now i task h running x xs jobs v)
      | inr (e, missing) ↦ rw (jobs, begin_task, missing) (lost-IsTracked h running _ x xs jobs v)
    ]
  ]

  pub take-IsTracked :
      (now : ℕ) (h : Handler Double) (running : List (Running Double))
      → IsTracked lib config h running
      → let r = take_task lib config now h in IsTracked lib config r.0 (of_option r.2 ++ running)
  unfolding take_task
  take-IsTracked now h running v = elim (list_cases h.posted) [
    | inl none_left ↦ rw (none_left, take_task) v
    | inr (task, rest, split) ↦
        rw (split, take_task)
          (begin-IsTracked now task (record h { posted = rest }) running
            (posted-IsTracked h running rest v))
  ]

  pub finish-IsTracked :
      (now : ℕ) (h : Handler Double) (before : List (Running Double)) (r : Running Double)
      (after : List (Running Double)) (result : JobResult Double)
      → work_result lib config r.job ≡ ok result
      → IsTracked lib config h (before ++ r ∷ after)
      → IsTracked lib config (finish_task lib config now r h).0 (before ++ after)
  unfolding finish_task stop
  finish-IsTracked now h before r after result good v =
      let done : Job Double = stop now (record r.job { result = result }) in
      let split : (f : Running Double → ℕ) (c : ℕ)
          → tally f c (before ++ r ∷ after)
            ≡ tally f c (before ++ after) + (if f r == c then 1 else 0) =
        λ f c. omega (arith, tally-append f c before (r ∷ after), tally-append f c before after) in
      let there : 0 < tally place (place r.job) h.active_jobs = omega (
        arith,
        v.tracked (place r.job),
        split running_place (place r.job),
        self_one (place r.job),
      ) in
      rw (good, finish_task)
        (record {
          fresh = λ c above. omega (arith, split running_id c, v.fresh c above);
          once = λ c. omega (arith, split running_id c, v.once c);
          tracked = λ k. omega (
            arith,
            split running_place k,
            v.tracked k,
            tally-erase_active k done h.active_jobs
                (All-middle (λ q. IsId q.job) before after r v.running_small) v.small v.ordered
                there,
          );
          ordered = erase_active-IsOrdered done h.active_jobs v.ordered;
          small = All-erase_active IsId done h.active_jobs v.small;
          waiting_small = v.waiting_small;
          running_small = All-delete (λ q. IsId q.job) before after r v.running_small;
        })

  pub deleted-IsTracked :
      (allowed : Bool) (h : Handler Double) (running : List (Running Double))
      → IsTracked lib config h running
      → IsTracked lib config (if allowed then record h { jobs = [] } else h) running
  deleted-IsTracked false h running v = v
  deleted-IsTracked true h running v = record {
    fresh = λ c above. omega (arith, v.fresh c above);
    once = λ c. omega (arith, v.once c);
    tracked = v.tracked;
    ordered = v.ordered;
    small = v.small;
    waiting_small = tt;
    running_small = v.running_small;
  }
