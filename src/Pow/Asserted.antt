-- ===== src/Pow/Asserted.antt =====
-- The assertion of to_multiplier (src/workserver/util.hpp) where work_handler.cpp calls it.
use pow_server.Prelude.{ℕ, ◌≤◌, ◌<◌, arith}
use native.Mathlib.Nat.{div-le_self}
use pow_server.Bigint.{Multiprecision, u128_size, set}
use pow_server.Bigint.Bytes.{number-set}
use pow_server.Multiplier.{Floats, Asserts}
use pow_server.Pow.{max_64, base_diff_64, difficulty_threshold, actual_diff_64}
use pow_server.Pow.Difficulty.{accepted_difficulty}

actual-le-max_64 : (hash : ℕ) → actual_diff_64 hash ≤ max_64
unfolding actual_diff_64
actual-le-max_64 hash = ground (arith, div-le_self max_64 hash)

module _ {Double Float : Type 0} (fl : Floats Double Float) (mp : Multiprecision) where
  -- For a hash that the search accepts, the difficulty that is handed to to_multiplier meets its
  -- assertion.
  pub accepted-Asserts :
      (difficulty hash : ℕ)
      → hash < difficulty_threshold (base_diff_64 difficulty)
      → Asserts fl mp (set mp u128_size (actual_diff_64 hash))
  accepted-Asserts difficulty hash below = omega (
    arith,
    number-set mp u128_size (actual_diff_64 hash) (omega arith)
        (omega (arith, actual-le-max_64 hash)),
    (accepted_difficulty difficulty hash below).1,
  )
