-- ===== src/JobQueue/Kept.antt =====
-- src/workserver/work_handler.hpp: remove_job keeps no job that was not in the queue.
use pow_server.Prelude.{
  ℕ, zero, suc, inl, inr, Bool, true, false, List, [], ◌∷◌, length, All, Bool-cases,
}
use pow_server.Bigint.{Bigint, Multiprecision, number, u256_size}
use pow_server.Job.{Job}
use pow_server.JobQueue.{push, take_top, pop_job, has_root, remove_loop, remove_job}
use pow_server.JobQueue.Order.{All-take_top}

module _ {Double : Type 0} (mp : Multiprecision) (P : Job Double → Type 0) where
  All-remove_loop :
      (fuel root : ℕ) (jobs jobs_l : List (Job Double)) (found : Bool)
      → All P jobs
      → All P jobs_l
      → All P (remove_loop mp fuel root jobs jobs_l found).0
  unfolding remove_loop pop_job push
  All-remove_loop zero root jobs jobs_l found h hl = hl
  All-remove_loop (suc fuel) root [] jobs_l found h hl = hl
  All-remove_loop (suc fuel) root (x ∷ xs) jobs_l found h hl =
      let (first, rest) = All-take_top P x xs h.0 h.1 in
      elim (Bool-cases (has_root mp root (take_top x xs).0)) [
        | inl hit ↦ rw hit (All-remove_loop fuel root (take_top x xs).1 jobs_l true rest hl)
        | inr miss ↦ rw miss (
            All-remove_loop fuel root (take_top x xs).1 ((take_top x xs).0 ∷ jobs_l) found rest
              (first, hl))
      ]

  pub All-remove_job :
      (jobs : List (Job Double)) (hash : Bigint) → All P jobs → All P (remove_job mp jobs hash).0
  unfolding remove_job
  All-remove_job jobs hash h =
      All-remove_loop (length jobs) (number mp u256_size hash) jobs [] false h tt
