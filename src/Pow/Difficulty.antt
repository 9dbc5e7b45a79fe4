-- ===== src/Pow/Difficulty.antt =====
-- The threshold, and the difficulty that is reported for a hash below it.
use native.Mathlib.Nat.{div-mul-le_self, mul-le-mul_right, div-lt_iff_lt-mul, mul_comm, le_of_lt}
use native.Mathlib.Decide.{dec_lt}
use pow_server.Prelude.{ℕ, ◌+◌, ◌*◌, ◌/◌, ◌%◌, ◌^◌, ◌≤◌, ◌<◌, ◌≡◌, ◌↔◌, refl, sym, arith}
use pow_server.Prelude.Bits.{and-mask}
use pow_server.Pow.{max_64, base_diff_64, difficulty_threshold, actual_diff_64}

-- A hash below the threshold of a base is at most the quotient of the largest word by the base.
le-div : (h base : ℕ) → 0 < h → h * base ≤ max_64 → base ≤ max_64 / h
le-div h base positive fits = elim (dec_lt (max_64 / h) base) [
  | yes small ↦
      let over = (div-lt_iff_lt-mul positive).0 small in
      absurd (omega (arith, over, mul_comm h base))
  | no enough ↦ omega arith
]

reached :
    (base hash : ℕ)
    → base ≤ max_64
    → hash < difficulty_threshold base
    → (base ≤ actual_diff_64 hash) × (0 < actual_diff_64 hash)
unfolding difficulty_threshold actual_diff_64
reached base hash fits below = elim (dec_lt 0 hash) [
  | no none_left ↦ ground arith
  | yes positive ↦
      let asked : 0 < base = ground arith in
      let quotient : hash < max_64 / base = ground arith in
      let below_base = mul-le-mul_right base (le_of_lt quotient) in
      let whole = div-mul-le_self max_64 base in
      let enough = le-div hash base positive (omega arith) in ground arith
]

low_word : (difficulty : ℕ) → base_diff_64 difficulty ≡ difficulty % 2 ^ 64
unfolding base_diff_64
low_word difficulty = and-mask 64 difficulty 0xffffffffffffffff refl

-- A hash that the search accepts for a requested difficulty, of up to 128 bits, gives a reported
-- difficulty that is positive and at least the remainder of the requested one by 2 ^ 64.
pub accepted_difficulty :
    (difficulty hash : ℕ)
    → hash < difficulty_threshold (base_diff_64 difficulty)
    → (difficulty % 2 ^ 64 ≤ actual_diff_64 hash) × (0 < actual_diff_64 hash)
accepted_difficulty difficulty hash below =
    let low = low_word difficulty in
    let fits : base_diff_64 difficulty ≤ max_64 = omega arith in
    rw (sym low) (reached (base_diff_64 difficulty) hash fits below)

-- The search accepts a hash for a base exactly if the next hash still fits the base as often as
-- the largest word allows.
pub threshold_iff :
    (base hash : ℕ) → 0 < base → (hash < difficulty_threshold base) ↔ ((hash + 1) * base ≤ max_64)
unfolding difficulty_threshold
threshold_iff base hash asked = (
  λ below.
      let quotient : hash + 1 ≤ max_64 / base = ground arith in
      omega (arith, mul-le-mul_right base quotient, div-mul-le_self max_64 base),
  λ fits. elim (dec_lt (max_64 / base) (hash + 1)) [
    | yes small ↦ absurd (omega (arith, (div-lt_iff_lt-mul asked).0 small))
    | no enough ↦ ground arith
  ],
)

-- The threshold is zero for a base of zero, and below no other accepted hash: nothing is found.
pub threshold-zero : (hash : ℕ) → difficulty_threshold 0 ≤ hash
unfolding difficulty_threshold
threshold-zero hash = ground arith
