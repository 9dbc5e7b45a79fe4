-- ===== src/JobQueue/Drain.antt =====
-- Popping until the queue is empty serves every job once, by priority and then by age.
use mathlib.Core.List.Perm
use pow_server.Prelude.{
  ℕ, zero, suc, ◌≤◌, ◌≡◌, refl, ◌⊎◌, inl, inr, List, [], ◌∷◌, none, some, arith, Perm, All, length,
}
use pow_server.Job.{Job}
use pow_server.JobQueue.{take_top, pop_job, drain, in_order}
use pow_server.JobQueue.Order.{
  MayPrecede, take_top-perm, take_top-MayPrecede, length-take_top, All-take_top,
}

-- Each job may be served before all that come after it.
abbrev pub IsServed : {D : Type 0} → List (Job D) → Type 0
IsServed [] = Unit
IsServed (x ∷ xs) = All (MayPrecede x) xs × IsServed xs

module _ {Double : Type 0} where
  -- pop_job answers `none` for the empty queue only, and otherwise splits off a job that may be
  -- served before all the others.
  pub pop_job_lem :
      (jobs : List (Job Double))
      → ((jobs ≡ []) × (pop_job jobs ≡ none))
        ⊎ ((j : Job Double) × (rest : List (Job Double)) × (pop_job jobs ≡ some (j, rest))
            × Perm (j ∷ rest) jobs
            × All (MayPrecede j) rest)
  unfolding pop_job
  pop_job_lem [] = inl (refl, refl)
  pop_job_lem (x ∷ xs) =
      inr (
        (take_top x xs).0,
        (take_top x xs).1,
        refl,
        take_top-perm x xs,
        (take_top-MayPrecede x xs).1,
      )

  pub All-drain {κ} :
      (P : Job Double → Type κ) (fuel : ℕ) (jobs : List (Job Double))
      → All P jobs
      → All P (drain fuel jobs)
  unfolding drain pop_job
  All-drain P zero jobs h = tt
  All-drain P (suc fuel) [] h = tt
  All-drain P (suc fuel) (x ∷ xs) h =
      let (first, rest) = All-take_top P x xs h.0 h.1 in
      (first, All-drain P fuel (take_top x xs).1 rest)

  drain-perm :
      (fuel : ℕ) (jobs : List (Job Double)) → length jobs ≤ fuel → Perm (drain fuel jobs) jobs
  unfolding drain pop_job
  drain-perm zero [] h = Perm.nil
  drain-perm zero (x ∷ xs) h = absurd (omega arith)
  drain-perm (suc fuel) [] h = Perm.nil
  drain-perm (suc fuel) (x ∷ xs) h =
      Perm.trans
        (Perm.cons (take_top x xs).0
          (drain-perm fuel (take_top x xs).1 (omega (arith, length-take_top x xs))))
        (take_top-perm x xs)

  drain-IsServed : (fuel : ℕ) (jobs : List (Job Double)) → IsServed (drain fuel jobs)
  unfolding drain pop_job
  drain-IsServed zero jobs = tt
  drain-IsServed (suc fuel) [] = tt
  drain-IsServed (suc fuel) (x ∷ xs) = (
    All-drain (MayPrecede (take_top x xs).0) fuel (take_top x xs).1 (take_top-MayPrecede x xs).1,
    drain-IsServed fuel (take_top x xs).1,
  )

  -- Popping as often as there are jobs serves each job exactly once; one with a higher priority
  -- comes first, and within a priority the one with the lower id.
  pub in_order_lem :
      (jobs : List (Job Double)) → Perm (in_order jobs) jobs × IsServed (in_order jobs)
  unfolding in_order
  in_order_lem jobs =
      (drain-perm (length jobs) jobs (omega arith), drain-IsServed (length jobs) jobs)
