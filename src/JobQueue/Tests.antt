-- ===== src/JobQueue/Tests.antt =====
-- The theorems on the comparator and the queue at concrete jobs.
use pow_server.Prelude.{ℕ, ◌≡◌, refl, not, List, [], ◌∷◌, Perm, filter, any}
use pow_server.Bigint.{u256_size, number}
use pow_server.Bigint.Reference.{reference}
use pow_server.Job.{Job, uninitialised, less}
use pow_server.JobQueue.{pop_job, in_order, remove_job, has_root}
use pow_server.JobQueue.Drain.{IsServed, in_order_lem}
use pow_server.JobQueue.Remove.{remove_job_lem}

abbrev job : ℕ → ℕ → Job ℕ
job priority id = record {
  start_time = 0;
  end_time = 0;
  request = record { root_hash = uninitialised 32; difficulty = uninitialised 16; multiplier = 1 };
  result = record { work = uninitialised 16; difficulty = uninitialised 16; multiplier = 1 };
  priority = priority;
  job_id = id;
}

abbrev queue : List (Job ℕ)
queue = job 0 1 ∷ job 2 2 ∷ job 2 3 ∷ []

served : in_order queue ≡ job 2 2 ∷ job 2 3 ∷ job 0 1 ∷ []
unfolding in_order pop_job less
served = refl

in_order_lem_example : Perm (in_order queue) queue × IsServed (in_order queue)
in_order_lem_example = in_order_lem queue

remove_job_lem_example :
    let root = number reference u256_size (uninitialised 32) in
    let (left, found) = remove_job reference queue (uninitialised 32) in
    Perm left (filter (λ j. not (has_root reference root j)) queue)
    × (found ≡ any (has_root reference root) queue)
remove_job_lem_example = remove_job_lem reference queue (uninitialised 32)
