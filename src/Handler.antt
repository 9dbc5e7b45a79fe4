-- ===== src/Handler.antt =====
-- src/workserver/work_handler.hpp and work_handler.cpp: the state of `work_handler`, and what it
-- is given: the configuration, the clock, and the libraries that it calls.
pub mod Replies
pub mod Request
pub mod Task
pub mod Reports
pub mod Outcome
pub mod System
pub mod Accounting
pub mod Limits
pub mod Answers
pub mod Stages
pub mod Racing
pub mod Pool
pub mod Tallies
pub mod Tracked
pub mod Active
pub mod Shown
pub mod Calm
pub mod Own
pub mod Reference
pub mod Run
mod Tests
use pow_server.Prelude.{ℕ, ◌+◌, ◌-◌, ◌≤◌, ◌<◌, ◌≡◌, List, [], ◌∷◌, ◌++◌, Option, Text, length, drop}
use pow_server.Bigint.{Multiprecision}
use pow_server.Multiplier.{Floats}
use pow_server.Config.{Config}
use pow_server.Devices.{RegisteredDevice, register_devices}
use pow_server.Job.{Job, first_id}
use pow_server.Json.{PropertyTree}
use pow_server.Pow.{Sources}

-- boost::circular_buffer::push_back: a full buffer loses its oldest element.
pub record CircularBuffer (A : Type 0) : Type 0 where
  pub push_back : ℕ → List A → A → List A
  pub push_back_lem :
      (capacity : ℕ) (xs : List A) (x : A)
      → length xs ≤ capacity
      → push_back capacity xs x ≡ drop (length xs + 1 - capacity) (xs ++ x ∷ [])

-- The libraries and devices that the handler calls.
pub record Libraries (Double Float Tree : Type 0) : Type 0 where
  pub mp : Multiprecision
  pub fl : Floats Double Float
  pub json : PropertyTree Double Tree
  pub ring : CircularBuffer (Job Double)
  pub sources : Sources

-- What a lambda captures when it is posted to the pool: the correlation id, and whom to answer.
pub record PoolTask : Type 0 where
  pub correlation_id : Option Text
  pub client : ℕ

-- A call of a response handler: who is answered, and the text.
pub record Reply : Type 0 where
  pub client : ℕ
  pub body : Text

pub record Handler (Double : Type 0) : Type 0 where
  pub devices : List RegisteredDevice
  -- the lambdas that wait in the pool, oldest first
  pub posted : List PoolTask
  pub jobs : List (Job Double)
  pub active_jobs : List (Job Double)
  pub completed_jobs : List (Job Double)
  pub job_id_dispenser : ℕ

abbrev pub completed_capacity : ℕ
completed_capacity = 128

-- The constructor: every configured device is registered.
unfoldable pub new_handler : {Double : Type 0} → Config → Handler Double
new_handler config = record {
  devices = register_devices config.devices;
  posted = [];
  jobs = [];
  active_jobs = [];
  completed_jobs = [];
  job_id_dispenser = first_id;
}
