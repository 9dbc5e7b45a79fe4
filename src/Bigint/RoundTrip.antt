-- ===== src/Bigint/RoundTrip.antt =====
-- to_hex and from_hex: what is accepted, what is stored, and the round trip.
use pow_server.Prelude.{
  ℕ, zero, suc, ◌+◌, ◌*◌, ◌^◌, ◌≤◌, ◌<◌, ◌≡◌, ◌⊎◌, refl, ◌∙◌, true, false, List, [], ◌∷◌, Text,
  Error, ok, err, arith, is_nil, length, All,
}
use native.Mathlib.Nat.{pow-suc, pow-le-pow_right, mul-le-mul_right}
use pow_server.Bigint.{Multiprecision, Bigint, reads, set, number, to_hex, from_hex, of_hex, IsWord}
use pow_server.Bigint.Digits.{be_from, be_value, hex_from, hex_value, digit_value, IsByte, IsHex}
use pow_server.Bigint.Bytes.{number-set}

-- One more digit below the base widens the bound by one place.
pub widen :
    (base acc b p x : ℕ) → b < base → x < (acc * base + b + 1) * p → x < (acc + 1) * (p * base)
widen base acc b p x small below =
    let grown = mul-le-mul_right p (fits base acc b small) in omega (arith, grown)
  where
    fits : (base acc b : ℕ) → b < base → acc * base + b + 1 ≤ (acc + 1) * base
    fits base acc b h = omega arith

be_from-lt : (acc : ℕ) (bs : List ℕ) → All IsByte bs → be_from acc bs < (acc + 1) * 256 ^ length bs
be_from-lt acc [] h = omega arith
be_from-lt acc (b ∷ bs) h =
    rw (pow-suc 256 (length bs))
      (widen 256 acc b (256 ^ length bs) _ h.0 (be_from-lt (acc * 256 + b) bs h.1))

digit_value-lt : (c : ℕ) → IsHex c → digit_value c < 16
digit_value-lt c h = ground arith

hex_from-lt : (acc : ℕ) (s : Text) → All IsHex s → hex_from acc s < (acc + 1) * 16 ^ length s
hex_from-lt acc [] h = omega arith
hex_from-lt acc (c ∷ s) h = rw (pow-suc 16 (length s)) (
    widen 16 acc (digit_value c) (16 ^ length s) _ (digit_value-lt c h.0)
      (hex_from-lt (acc * 16 + digit_value c) s h.1))

pow-double : (n : ℕ) → 16 ^ (n * 2) ≡ 256 ^ n
pow-double zero = refl
pow-double (suc n) =
    let two_more : suc n * 2 ≡ suc (suc (n * 2)) = omega arith in
    rw (two_more, pow-suc 16 (suc (n * 2)), pow-suc 16 (n * 2), pow-suc 256 n, pow-double n)
      (omega arith)

-- A word is below the power of its size.
pub IsWord-lt : (size : ℕ) (b : Bigint) → IsWord size b → be_value b.bytes < 256 ^ size
IsWord-lt size b w = rw (← w.sized) (omega (arith, be_from-lt 0 b.bytes w.filled))

hex_value-fits :
    (size : ℕ) (s : Text) → All IsHex s → length s ≤ size * 2 → hex_value s < 256 ^ size
hex_value-fits size s h short =
    rw (← pow-double size)
      (omega (arith, hex_from-lt 0 s h, pow-le-pow_right {n = 16} (omega arith) short))

not-nil : (s : Text) → 0 < length s → is_nil s ≡ false
not-nil [] h = absurd (omega arith)
not-nil (c ∷ s) h = refl

module _ (mp : Multiprecision) (size : ℕ) (positive : 0 < size) where
  -- A text of hexadecimal digits that is not empty and no longer than the width is accepted,
  -- and the number is the one that the digits spell.
  pub of_hex-number :
      (garbage : Bigint) (s : Text)
      → is_nil s ≡ false
      → length s ≤ size * 2
      → All IsHex s
      → (b : Bigint) × (of_hex mp size garbage s ≡ ok b) × (number mp size b ≡ hex_value s)
  unfolding of_hex from_hex
  of_hex-number garbage s some_digits short digits =
      let fits = hex_value-fits size s digits short in
      (
        set mp size (hex_value s),
        ground (arith, mp.extract_hex size s some_digits digits fits),
        number-set mp size (hex_value s) positive fits,
      )

  -- Printing a word and reading the print gives the same number.
  pub of_hex-to_hex :
      (garbage b : Bigint)
      → IsWord size b
      → (b' : Bigint) × (of_hex mp size garbage (to_hex mp size b) ≡ ok b')
        × (number mp size b' ≡ number mp size b)
  unfolding to_hex number
  of_hex-to_hex garbage b w =
      let n = mp.import_bits b.bytes in
      let spelled = mp.import_bits-be_value b.bytes w.filled in
      let fits : n < 16 ^ (size * 2) = rw (pow-double size, spelled) (IsWord-lt size b w) in
      let wide = mp.length-insert (size * 2) n fits in
      let (b', read, exact) =
        of_hex-number garbage (mp.insert (size * 2) n) (not-nil _ (omega (arith, wide)))
          (omega (arith, wide)) (mp.insert-IsHex (size * 2) n fits) in
      (b', read, exact ∙ mp.hex_value-insert (size * 2) n fits)

-- from_hex throws for an empty text and for one longer than the width, and keeps the number.
pub from_hex_bad_size :
    (mp : Multiprecision) (size : ℕ) (b : Bigint) (s : Text)
    → (is_nil s ≡ true) ⊎ (size * 2 < length s)
    → from_hex mp size b s ≡ (b, err Error.invalid_input_size)
unfolding from_hex
from_hex_bad_size mp size b s bad = ground arith

-- A text that the stream does not read to its end is refused, but the number is overwritten.
pub from_hex_trailing :
    (mp : Multiprecision) (size : ℕ) (b : Bigint) (s : Text) (n : ℕ)
    → is_nil s ≡ false
    → length s ≤ size * 2
    → mp.extract size s ≡ reads n false
    → from_hex mp size b s ≡ (set mp size n, err Error.invalid_input_format)
unfolding from_hex
from_hex_trailing mp size b s n some_digits short e = ground arith
