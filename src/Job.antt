-- ===== src/Job.antt =====
-- src/workserver/work_handler.hpp: a job, its constructor and the comparator. Times are
-- milliseconds of the system clock and come in as arguments.
pub mod Comparator
use pow_server.Prelude.{
  ℕ, zero, suc, ◌+◌, ◌-◌, ◌%◌, ◌^◌, ◌≡◌, Bool, true, false, not, Text, codes, List, [], ◌∷◌, ltb,
  ◌==◌, if◌then◌else◌, replicate,
}
use pow_server.Bigint.{Multiprecision, Bigint, u128_size, u256_size, from_hex}
use pow_server.Multiplier.{Floats}

-- job::request
pub record JobRequest (Double : Type 0) : Type 0 where
  pub root_hash : Bigint
  pub difficulty : Bigint
  pub multiplier : Double

-- job::result
pub record JobResult (Double : Type 0) : Type 0 where
  pub work : Bigint
  pub difficulty : Bigint
  pub multiplier : Double

pub record Job (Double : Type 0) : Type 0 where
  pub start_time : ℕ
  pub end_time : ℕ
  pub request : JobRequest Double
  pub result : JobResult Double
  pub priority : ℕ
  pub job_id : ℕ

-- An array that no constructor has written yet; it is overwritten before it is read.
abbrev pub uninitialised : ℕ → Bigint
uninitialised size = record { bytes = replicate size 0 }

module _ {Double Float : Type 0} (fl : Floats Double Float) (mp : Multiprecision) where
  -- The default member initialisers read the literal "0".
  abbrev pub zero_literal : ℕ → Bigint
  zero_literal size = (from_hex mp size (uninitialised size) (codes "0")).0

  -- The default constructor takes the id that the dispenser holds.
  unfoldable pub new_job : ℕ → Job Double
  new_job dispenser = record {
    start_time = 0;
    end_time = 0;
    request = record {
      root_hash = zero_literal u256_size;
      difficulty = zero_literal u128_size;
      multiplier = fl.lit_one;
    };
    result = record {
      work = zero_literal u128_size;
      difficulty = zero_literal u128_size;
      multiplier = fl.lit_one;
    };
    priority = 0;
    job_id = dispenser;
  }

-- job_id_dispenser.fetch_add (1), on an atomic<unsigned> of 32 bits
unfoldable pub fetch_add : ℕ → ℕ
fetch_add dispenser = (dispenser + 1) % 2 ^ 32

abbrev pub first_id : ℕ
first_id = 1

module _ {Double : Type 0} where
  unfoldable pub start : ℕ → Job Double → Job Double
  start now j = record j { start_time = now }

  unfoldable pub stop : ℕ → Job Double → Job Double
  stop now j = record j { end_time = now }

  -- end_time - start_time; an interval below zero, which a clock set back gives, is cut to zero.
  unfoldable pub duration : Job Double → ℕ
  duration j = j.end_time - j.start_time

  unfoldable pub set_priority : ℕ → Job Double → Job Double
  set_priority p j = record j { priority = p }

  -- comparator::operator (): whether job1 is served after job2
  unfoldable pub less : Job Double → Job Double → Bool
  less job1 job2 =
      if not (job1.priority == job2.priority)
      then ltb job1.priority job2.priority
      else ltb job2.job_id job1.job_id
