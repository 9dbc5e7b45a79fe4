-- ===== src/Handler/Tallies.antt =====
-- How many jobs of the queue have a number, before and after its operations
-- (src/workserver/work_handler.hpp).
use pow_server.Prelude.{
  ℕ, zero, suc, ◌+◌, ◌≤◌, ◌≡◌, refl, inl, inr, Bool, true, false, List, [], ◌∷◌, ◌==◌,
  if◌then◌else◌, All, length, Bool-cases, arith,
}
use pow_server.Bigint.{Bigint, Multiprecision, number, u256_size}
use pow_server.Job.{Job, less}
use pow_server.JobQueue.{take_top, pop_job, push, has_root, remove_loop, remove_job}
use pow_server.Handler.Accounting.{tally}
use pow_server.Handler.Task.{Running}
use pow_server.Handler.Task.Active.{erase_active, IsOrdered}
use pow_server.Handler.Task.Places.{place, IsId}

module _ {Double : Type 0} where
  abbrev pub id_of : Job Double → ℕ
  id_of j = j.job_id

  abbrev pub running_id : Running Double → ℕ
  running_id r = r.job.job_id

  abbrev pub running_place : Running Double → ℕ
  running_place r = place r.job

  pub tally-take_top :
      (f : Job Double → ℕ) (c : ℕ) (x : Job Double) (xs : List (Job Double))
      → let (top, rest) = take_top x xs in
        (if f top == c then 1 else 0) + tally f c rest ≡ tally f c (x ∷ xs)
  unfolding take_top
  tally-take_top f c x [] = refl
  tally-take_top f c x (y ∷ ys) = elim (Bool-cases (less x y)) [
    | inl risen ↦ rw risen (omega (arith, tally-take_top f c y ys))
    | inr kept ↦ rw kept (omega (arith, tally-take_top f c x ys))
  ]

  module _ (mp : Multiprecision) (f : Job Double → ℕ) (c : ℕ) where
    tally-remove_loop :
        (fuel root : ℕ) (jobs jobs_l : List (Job Double)) (found : Bool)
        → tally f c (remove_loop mp fuel root jobs jobs_l found).0
          ≤ tally f c jobs + tally f c jobs_l
    unfolding remove_loop pop_job push
    tally-remove_loop zero root jobs jobs_l found = omega arith
    tally-remove_loop (suc fuel) root [] jobs_l found = omega arith
    tally-remove_loop (suc fuel) root (x ∷ xs) jobs_l found =
        let (top, rest) = take_top x xs in
        let split = tally-take_top f c x xs in
        elim (Bool-cases (has_root mp root top)) [
          | inl hit ↦ rw hit (omega (arith, split, tally-remove_loop fuel root rest jobs_l true))
          | inr miss ↦
              rw miss (omega (arith, split, tally-remove_loop fuel root rest (top ∷ jobs_l) found))
        ]

    pub tally-remove_job :
        (jobs : List (Job Double)) (hash : Bigint)
        → tally f c (remove_job mp jobs hash).0 ≤ tally f c jobs
    unfolding remove_job
    tally-remove_job jobs hash =
        omega (arith, tally-remove_loop (length jobs) (number mp u256_size hash) jobs [] false)

  -- As many lambdas at most are at a job's place as have its id.
  pub running_place-le :
      (j : Job Double) (rs : List (Running Double))
      → IsId j
      → All (λ r. IsId r.job) rs
      → tally running_place (place j) rs ≤ tally running_id (id_of j) rs
  running_place-le j [] ij h = omega arith
  running_place-le j (r ∷ rs) ij h = ground (arith, running_place-le j rs ij h.1, ij, h.0)

  pub All-erase_active {κ} :
      (P : Job Double → Type κ) (j : Job Double) (xs : List (Job Double))
      → All P xs
      → All P (erase_active j xs)
  unfolding erase_active
  All-erase_active P j [] h = tt
  All-erase_active P j (x ∷ xs) h = elim (Bool-cases (less j x)) [
    | inl before ↦ rw before h
    | inr after ↦ elim (Bool-cases (less x j)) [
      | inl beyond ↦ rw (after, beyond) (h.0, All-erase_active P j xs h.1)
      | inr same ↦ rw (after, same) h.1
    ]
  ]

  pub erase_active-IsOrdered :
      (j : Job Double) (xs : List (Job Double)) → IsOrdered xs → IsOrdered (erase_active j xs)
  unfolding erase_active
  erase_active-IsOrdered j [] h = tt
  erase_active-IsOrdered j (x ∷ xs) h = elim (Bool-cases (less j x)) [
    | inl before ↦ rw before h
    | inr after ↦ elim (Bool-cases (less x j)) [
      | inl beyond ↦
          rw (after, beyond)
            (All-erase_active (λ y. less x y ≡ true) j xs h.0, erase_active-IsOrdered j xs h.1)
      | inr same ↦ rw (after, same) h.1
    ]
  ]
