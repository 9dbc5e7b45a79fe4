-- ===== src/JobQueue/Remove.antt =====
-- remove_job: the loop that rebuilds the queue is a filter.
use mathlib.Core.List.Perm
use mathlib.Core.List.{perm_middle}
use pow_server.Prelude.{
  ℕ, zero, suc, ◌≤◌, ◌≡◌, List, [], ◌∷◌, ◌++◌, arith, Perm, Bool, true, false, not, ◌||◌, length,
  filter, any, filter-perm, any-perm, Bool-cases, inl, inr, append-nil,
}
use pow_server.Bigint.{Multiprecision, Bigint, u256_size, number}
use pow_server.Job.{Job}
use pow_server.JobQueue.{take_top, pop_job, push, has_root, remove_loop, remove_job}
use pow_server.JobQueue.Order.{take_top-perm, length-take_top}

module _ (mp : Multiprecision) {Double : Type 0} (root : ℕ) where
  abbrev others : Job Double → Bool
  others j = not (has_root mp root j)

  remove_loop_lem :
      (fuel : ℕ) (jobs jobs_l : List (Job Double)) (removed : Bool)
      → length jobs ≤ fuel
      → let (left, found) = remove_loop mp fuel root jobs jobs_l removed in
        Perm left (filter others jobs ++ jobs_l)
        × (found ≡ (removed || any (has_root mp root) jobs))
  unfolding remove_loop pop_job push
  remove_loop_lem zero [] jobs_l removed h = (Perm.refl jobs_l, ground arith)
  remove_loop_lem zero (x ∷ xs) jobs_l removed h = absurd (omega arith)
  remove_loop_lem (suc fuel) [] jobs_l removed h = (Perm.refl jobs_l, ground arith)
  remove_loop_lem (suc fuel) (x ∷ xs) jobs_l removed h =
      let m = (take_top x xs).0 in
      let rest = (take_top x xs).1 in
      let shorter : length rest ≤ fuel = omega (arith, length-take_top x xs) in
      let same = filter-perm others (take_top-perm x xs) in
      let seen = any-perm (has_root mp root) (take_top-perm x xs) in
      elim (Bool-cases (has_root mp root m)) [
        | inl hit ↦
            let (left, found) = remove_loop_lem fuel rest jobs_l true shorter in
            let gone : Perm (filter others rest) (filter others (x ∷ xs)) = rw hit at same in
            let there : true ≡ any (has_root mp root) (x ∷ xs) = rw hit at seen in
            rw hit
              (Perm.trans left (Perm.append_right jobs_l gone), rw (found, ← there) (ground arith))
        | inr miss ↦
            let (left, found) = remove_loop_lem fuel rest (m ∷ jobs_l) removed shorter in
            let kept : Perm (m ∷ filter others rest) (filter others (x ∷ xs)) = rw miss at same in
            let there : any (has_root mp root) rest ≡ any (has_root mp root) (x ∷ xs) =
              rw miss at seen in
            rw miss (
              Perm.trans left (
                  Perm.trans (perm_middle (filter others rest) jobs_l)
                    (Perm.append_right jobs_l kept)),
              rw (← there) found,
            )
      ]

-- remove_job removes exactly the jobs for the given root, keeps all others, and reports whether
-- there was one.
pub remove_job_lem :
    (mp : Multiprecision) {Double : Type 0} (jobs : List (Job Double)) (root_hash : Bigint)
    → let root = number mp u256_size root_hash in
      let (left, found) = remove_job mp jobs root_hash in
      Perm left (filter (λ j. not (has_root mp root j)) jobs)
      × (found ≡ any (has_root mp root) jobs)
unfolding remove_job
remove_job_lem mp jobs root_hash =
    let root = number mp u256_size root_hash in
    let (left, found) = remove_loop_lem mp root (length jobs) jobs [] false (omega arith) in
    (rw append-nil at left, found)
