-- ===== src/Bigint.antt =====
-- src/workserver/util.hpp: the fixed-width integers `bigint<T, SIZE_BYTES>`, an array of bytes
-- with the most significant one first. What it calls of boost::multiprecision is a parameter.
pub mod Digits
pub mod Bytes
pub mod RoundTrip
pub mod Reference
mod Tests
use pow_server.Prelude.{
  ℕ, zero, suc, ◌+◌, ◌*◌, ◌^◌, ◌<◌, ◌≡◌, Bool, true, false, ◌&&◌, not, List, [], ◌∷◌, ◌++◌, Text,
  Error, Result, ok, err, leb, is_nil, if◌then◌else◌, length, All, reverse, replicate,
}
use Digits.{be_value, le_value, hex_value, IsHex, IsByte}

-- What `stream >> number` does: it throws, or stores a number and leaves the stream at its end
-- or before it.
pub data Extraction : Type 0 where
  throws : Error → Extraction
  reads : ℕ → Bool → Extraction

-- boost::multiprecision, for unsigned integers of `8 * size` bits without overflow checks.
pub record Multiprecision : Type 0 where
  -- `stream << hex << uppercase << setw (w) << setfill ('0') << n`
  pub insert : ℕ → ℕ → Text
  -- `stream >> hex >> number`, where the number has `size` bytes
  pub extract : ℕ → Text → Extraction
  -- `export_bits (n, out, 8, false)`: what is written to `out`, least significant byte first
  pub export_bits : ℕ → List ℕ
  -- `import_bits (result, begin, end)`: most significant byte first
  pub import_bits : List ℕ → ℕ
  pub length-insert : (w n : ℕ) → n < 16 ^ w → length (insert w n) ≡ w
  pub insert-IsHex : (w n : ℕ) → n < 16 ^ w → All IsHex (insert w n)
  pub hex_value-insert : (w n : ℕ) → n < 16 ^ w → hex_value (insert w n) ≡ n
  pub extract_hex :
      (size : ℕ) (s : Text)
      → is_nil s ≡ false
      → All IsHex s
      → hex_value s < 256 ^ size
      → extract size s ≡ reads (hex_value s) true
  pub length-export_bits :
      (size n : ℕ) → 0 < size → n < 256 ^ size → length (export_bits n) < suc size
  pub export_bits-IsByte : (n : ℕ) → All IsByte (export_bits n)
  pub le_value-export_bits : (n : ℕ) → le_value (export_bits n) ≡ n
  pub import_bits-be_value : (bs : List ℕ) → All IsByte bs → import_bits bs ≡ be_value bs

-- The union's `bytes`, SIZE_BYTES of them.
pub record Bigint : Type 0 where
  pub bytes : List ℕ

-- u128, u256 and u512 by their sizes in bytes.
abbrev pub u128_size : ℕ
u128_size = 16

abbrev pub u256_size : ℕ
u256_size = 32

abbrev pub u512_size : ℕ
u512_size = 64

-- Writes `out` over the first places of `bs`; what does not fit is dropped.
unfoldable pub overlay : List ℕ → List ℕ → List ℕ
overlay out [] = []
overlay [] (b ∷ bs) = b ∷ bs
overlay (o ∷ out) (b ∷ bs) = o ∷ overlay out bs

module _ (mp : Multiprecision) (size : ℕ) where
  -- `bytes.fill (0)`, then the export writes from the back.
  unfoldable pub set : ℕ → Bigint
  set n = record { bytes = reverse (overlay (mp.export_bits n) (replicate size 0)) }

  unfoldable pub number : Bigint → ℕ
  number b = mp.import_bits b.bytes

  unfoldable pub to_hex : Bigint → Text
  to_hex b = mp.insert (size * 2) (number b)

  -- What from_hex leaves in the number, and whether it throws. The number is stored before the
  -- end of the stream is tested.
  unfoldable pub from_hex : Bigint → Text → Bigint × Result (Unit {0})
  from_hex b text =
      if not (is_nil text) && leb (length text) (size * 2)
      then elim (mp.extract size text) [
        | throws e ↦ (b, err e)
        | reads n at_end ↦ (set n, if not at_end then err Error.invalid_input_format else ok tt)
      ]
      else (b, err Error.invalid_input_size)

  -- bigint (std::string const & val): the array is not initialised before from_hex.
  unfoldable pub of_hex : Bigint → Text → Result Bigint
  of_hex garbage text =
      let (b, outcome) = from_hex garbage text in elim outcome [ ok _ ↦ ok b | err e ↦ err e ]

-- An array of the width's size that holds bytes.
pub record IsWord (size : ℕ) (b : Bigint) : Type 0 where
  pub sized : length b.bytes ≡ size
  pub filled : All IsByte b.bytes
