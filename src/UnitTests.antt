-- ===== src/UnitTests.antt =====
-- src/tests/work.cpp: the program's unit tests of `bigint` and of the queue, as functions that say
-- whether the assertions hold.
use pow_server.Prelude.{
  ℕ, zero, suc, ◌+◌, ◌-◌, ◌*◌, ◌^◌, ◌≡◌, refl, Bool, true, false, ◌&&◌, List, [], ◌∷◌, Text, Result,
  none, some, ok, err, ltb, leb, ◌==◌, if◌then◌else◌, length, replicate, text_eq,
}
use pow_server.Bigint.{
  Multiprecision, u128_size, u256_size, u512_size, from_hex, number, set, to_hex, overlay,
}
use pow_server.Bigint.Digits.{is_hex}
use pow_server.Bigint.Reference.{all_hex, bytes_of, digits_of, print, reference, scan, strip}
use pow_server.Handler.Reference.{lib}
use pow_server.Job.{Job, uninitialised, new_job, first_id, fetch_add, set_priority, less}
use pow_server.JobQueue.{push, pop_job, take_top, has_root, remove_job, remove_loop}
use pow_server.Multiplier.{Floats}

abbrev is_ok : {A : Type 0} → Result A → Bool
is_ok (ok a) = true
is_ok (err e) = false

-- TEST (bigint, basic): as many F as fit are read, printed and the largest number.
module _ (mp : Multiprecision) where
  abbrev digits : ℕ → Text
  digits size = replicate (size * 2) 70

  unfoldable reads_largest : ℕ → Bool
  reads_largest size =
      let (value, outcome) = from_hex mp size (uninitialised size) (digits size) in
      is_ok outcome
      && text_eq (to_hex mp size value) (digits size)
      && length value.bytes == size
      && number mp size value == 256 ^ size - 1

  unfoldable bigint_basic : Bool
  unfolding reads_largest
  bigint_basic =
      reads_largest u128_size
      && number mp u128_size (set mp u128_size 100) == 100
      && reads_largest u256_size
      && reads_largest u512_size

module _ (mp : Multiprecision) {Double Float : Type 0} (fl : Floats Double Float) where
  -- std::vector<job> jobs (count)
  unfoldable new_jobs : ℕ → ℕ → List (Job Double)
  new_jobs zero dispenser = []
  new_jobs (suc count) dispenser = new_job fl mp dispenser ∷ new_jobs count (fetch_add dispenser)

  -- Each job gets the hash of its place `i` and what else the test sets, and is pushed.
  unfoldable push_all :
      (ℕ → Job Double → Job Double) → ℕ → List (Job Double) → List (Job Double) → List (Job Double)
  push_all change i [] queue = queue
  push_all change i (j ∷ js) queue =
      let rooted = record j { request = record j.request { root_hash = set mp u256_size i } } in
      push_all change (i + 1) js (push queue (change i rooted))

  -- The loop of TEST (queue, priority) that pops the jobs and compares them.
  unfoldable pops_in_order : ℕ → ℕ → ℕ → ℕ → List (Job Double) → Bool
  pops_in_order boosted zero i prev_id queue = true
  pops_in_order boosted (suc rounds) i prev_id queue = elim (pop_job queue) [
    | none ↦ false
    | some (j, rest) ↦
        (if ltb i boosted
          then j.priority == 100 && (if ltb 0 i then ltb prev_id j.job_id else true)
          else ltb j.priority 100)
        && pops_in_order boosted rounds (i + 1) j.job_id rest
  ]

  unfoldable queue_priority : Bool
  unfolding new_jobs push_all pops_in_order
  queue_priority =
      let boost = λ (i : ℕ). set_priority (if leb (10 - 4) i then 100 else i) in
      pops_in_order 4 10 0 0 (push_all boost 0 (new_jobs 10 first_id) [])

  unfoldable queue_remove : Bool
  unfolding new_jobs push_all
  queue_remove =
      let queue = push_all (λ i j. j) 0 (new_jobs 10 first_id) [] in
      length queue == 10 && length (remove_job mp queue (set mp u256_size 5)).0 == 9

-- With the reference libraries all assertions hold.
tests_pass :
    (bigint_basic reference ≡ true)
    × (queue_priority reference lib.fl ≡ true)
    × (queue_remove reference lib.fl ≡ true)
unfolding bigint_basic queue_priority queue_remove from_hex number set to_hex overlay is_hex all_hex
    bytes_of digits_of print scan strip text_eq new_job fetch_add set_priority less push pop_job
    take_top has_root remove_job remove_loop
tests_pass = (refl, refl, refl)
