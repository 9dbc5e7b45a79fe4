-- ===== src/Multiplier.antt =====
-- src/workserver/util.hpp: difficulty multipliers. The 100 digit floats of boost and the machine's
-- doubles are parameters.
use pow_server.Prelude.{ℕ, ◌^◌, ◌<◌, ◌≡◌, Bool}
use pow_server.Bigint.{Multiprecision, Bigint, u128_size, set, number}

-- `Double` is the machine's double and `Float` boost's cpp_bin_float_100.
pub record Floats (Double Float : Type 0) : Type 0 where
  pub of_integer : ℕ → Float
  pub of_double : Double → Float
  pub quotient : Float → Float → Float
  pub product : Float → Float → Float
  -- convert_to<double> and convert_to<uint128_t>
  pub to_double : Float → Double
  pub to_integer : Float → ℕ
  -- x > .0
  pub positive : Double → Bool
  -- the literals .0, 1.0 and 1.3847
  pub lit_zero : Double
  pub lit_one : Double
  pub lit_mock : Double
  pub positive-lit_zero : positive lit_zero ≡ Bool.false
  pub to_integer-lt : (f : Float) → to_integer f < 256 ^ 16

module _ {Double Float : Type 0} (fl : Floats Double Float) (mp : Multiprecision) where
  -- assert (difficulty_a.number () > 0), which a release build leaves out
  abbrev pub Asserts : Bigint → Type 0
  Asserts difficulty = 0 < number mp u128_size difficulty

  unfoldable pub to_multiplier : Bigint → Bigint → Double
  to_multiplier difficulty base = fl.to_double (
      fl.quotient (fl.of_integer (number mp u128_size difficulty))
        (fl.of_integer (number mp u128_size base)))

  unfoldable pub from_multiplier : Double → Bigint → Bigint
  from_multiplier multiplier base = set mp u128_size (
      fl.to_integer
        (fl.product (fl.of_integer (number mp u128_size base)) (fl.of_double multiplier)))
