-- ===== src/JobQueue.antt =====
-- src/workserver/work_handler.hpp: the queue of waiting jobs, a std::priority_queue over a vector.
-- The vector's order is not fixed by the standard, only that `top` is a greatest element: the
-- model keeps the jobs in any order and finds the greatest by a scan.
pub mod Order
pub mod Drain
pub mod Oldest
pub mod Remove
pub mod Kept
mod Tests
use pow_server.Prelude.{
  ℕ, zero, suc, ◌≡◌, Bool, true, false, not, List, [], ◌∷◌, ◌++◌, Option, none, some, ◌==◌,
  if◌then◌else◌, length,
}
use pow_server.Bigint.{Multiprecision, Bigint, u256_size, number}
use pow_server.Job.{Job, less}

module _ {Double : Type 0} where
  -- A greatest job of `x ∷ xs`, and the others.
  unfoldable pub take_top : Job Double → List (Job Double) → Job Double × List (Job Double)
  take_top x [] = (x, [])
  take_top x (y ∷ ys) =
      let risen = take_top y ys in
      let kept = take_top x ys in if less x y then (risen.0, x ∷ risen.1) else (kept.0, y ∷ kept.1)

  unfoldable pub push : List (Job Double) → Job Double → List (Job Double)
  push jobs j = j ∷ jobs

  -- pop_job: `none` if there is no job
  unfoldable pub pop_job : List (Job Double) → Option (Job Double × List (Job Double))
  unfolding take_top
  pop_job [] = none
  pop_job (x ∷ xs) = some (take_top x xs)

  -- `while (!jobs.empty ()) { … jobs.top () … jobs.pop (); }` in the order of service; the fuel is
  -- the number of jobs.
  unfoldable pub drain : ℕ → List (Job Double) → List (Job Double)
  drain zero jobs = []
  drain (suc fuel) jobs = elim (pop_job jobs) [ none ↦ [] | some (j, rest) ↦ j ∷ drain fuel rest ]

  unfoldable pub in_order : List (Job Double) → List (Job Double)
  unfolding drain
  in_order jobs = drain (length jobs) jobs

module _ (mp : Multiprecision) {Double : Type 0} where
  -- whether the job is for this root
  unfoldable pub has_root : ℕ → Job Double → Bool
  has_root root j = number mp u256_size j.request.root_hash == root

  -- The loop of remove_job: pops every job and pushes it on `jobs_l` unless it is for the root.
  unfoldable pub remove_loop :
      ℕ → ℕ → List (Job Double) → List (Job Double) → Bool → List (Job Double) × Bool
  remove_loop zero root jobs jobs_l removed = (jobs_l, removed)
  remove_loop (suc fuel) root jobs jobs_l removed = elim (pop_job jobs) [
    | none ↦ (jobs_l, removed)
    | some (current, rest) ↦
        remove_loop fuel root rest
          (if not (has_root root current) then push jobs_l current else jobs_l)
          (if not (has_root root current) then removed else true)
  ]

  -- remove_job: the queue that is left, and whether a job was found
  unfoldable pub remove_job : List (Job Double) → Bigint → List (Job Double) × Bool
  unfolding remove_loop has_root
  remove_job jobs root_hash =
      remove_loop (length jobs) (number mp u256_size root_hash) jobs [] false
