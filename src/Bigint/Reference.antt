-- ===== src/Bigint/Reference.antt =====
-- An implementation of what `Multiprecision` asks of boost, to show that it can be met.
use pow_server.Prelude.{
  ℕ, zero, suc, ◌+◌, ◌-◌, ◌*◌, ◌/◌, ◌%◌, ◌^◌, ◌≤◌, ◌<◌, ◌≡◌, refl, Bool, true, false, ◌&&◌, List,
  [], ◌∷◌, ◌++◌, Text, arith, is_nil, ltb, ◌==◌, if◌then◌else◌, length, length-append, All,
  All-append,
}
use native.Mathlib.Nat.{pow-suc, mod-eq_of_lt, le_refl}
use pow_server.Bigint.{Multiprecision, Extraction, reads}
use pow_server.Bigint.Digits.{
  be_value, le_value, hex_from, hex_value, digit_value, is_hex, IsByte, IsHex,
}

abbrev hex_digit : ℕ → ℕ
hex_digit d = if ltb d 10 then b'0' + d else b'A' + (d - 10)

unfoldable pub print : ℕ → ℕ → Text
print zero n = []
print (suc w) n = print w (n / 16) ++ hex_digit (n % 16) ∷ []

hex_from-append : (acc : ℕ) (s t : Text) → hex_from acc (s ++ t) ≡ hex_from (hex_from acc s) t
hex_from-append acc [] t = refl
hex_from-append acc (c ∷ s) t = hex_from-append (acc * 16 + digit_value c) s t

digit_value-hex_digit : (d : ℕ) → d < 16 → digit_value (hex_digit d) ≡ d
digit_value-hex_digit d h = ground arith

hex_digit-IsHex : (d : ℕ) → d < 16 → IsHex (hex_digit d)
hex_digit-IsHex d h = ground arith

pub length-print : (w n : ℕ) → length (print w n) ≡ w
unfolding print
length-print zero n = refl
length-print (suc w) n =
    omega
      (arith, length-append (print w (n / 16)) (hex_digit (n % 16) ∷ []), length-print w (n / 16))

pub print-IsHex : (w n : ℕ) → All IsHex (print w n)
unfolding print
print-IsHex zero n = tt
print-IsHex (suc w) n =
    All-append IsHex (print w (n / 16)) _ (print-IsHex w (n / 16))
      (hex_digit-IsHex (n % 16) (omega arith), tt)

pub hex_value-print : (w n : ℕ) → n < 16 ^ w → hex_value (print w n) ≡ n
unfolding print
hex_value-print zero n h = omega arith
hex_value-print (suc w) n h = rw (hex_from-append 0 (print w (n / 16)) (hex_digit (n % 16) ∷ [])) (
    omega (
      arith,
      hex_value-print w (n / 16) (omega (arith, pow-suc 16 w)),
      digit_value-hex_digit (n % 16) (omega arith),
    ))

-- The digits that the stream reads, and whether it meets its end.
unfoldable pub digits_of : Text → Text
digits_of [] = []
digits_of (c ∷ s) = if is_hex c then c ∷ digits_of s else []

unfoldable pub all_hex : Text → Bool
all_hex [] = true
all_hex (c ∷ s) = if is_hex c then all_hex s else false

-- The text behind the prefix that says hexadecimal.
unfoldable pub strip : Text → Text
strip (c ∷ d ∷ s) = if c == b'0' && d == b'x' then s else c ∷ d ∷ s
strip s = s

unfoldable pub scan : ℕ → Text → Extraction
unfolding strip
scan size s =
    let digits = strip s in reads (hex_value (digits_of digits) % 256 ^ size) (all_hex digits)

strip_digits : (s : Text) → All IsHex s → strip s ≡ s
unfolding strip
strip_digits [] h = refl
strip_digits (c ∷ []) h = refl
strip_digits (c ∷ d ∷ s) h = ground (arith, h.1.0)

digits_of_all : (s : Text) → All IsHex s → (digits_of s ≡ s) × (all_hex s ≡ true)
unfolding digits_of all_hex is_hex
digits_of_all [] h = (refl, refl)
digits_of_all (c ∷ s) h = ground (arith, digits_of_all s h.1)

pub scan_lem :
    (size : ℕ) (s : Text)
    → is_nil s ≡ false
    → All IsHex s
    → hex_value s < 256 ^ size
    → scan size s ≡ reads (hex_value s) true
unfolding scan
scan_lem size s some_digits h fits =
    rw (strip_digits s h, (digits_of_all s h).0, (digits_of_all s h).1, mod-eq_of_lt fits)

unfoldable pub bytes_of : ℕ → ℕ → List ℕ
bytes_of zero n = []
bytes_of (suc f) n = let rest = bytes_of f (n / 256) in if n == 0 then [] else n % 256 ∷ rest

pub bytes_of-IsByte : (f n : ℕ) → All IsByte (bytes_of f n)
unfolding bytes_of
bytes_of-IsByte zero n = tt
bytes_of-IsByte (suc f) n = ground (arith, bytes_of-IsByte f (n / 256))

pub le_value-bytes_of : (f n : ℕ) → n ≤ f → le_value (bytes_of f n) ≡ n
unfolding bytes_of
le_value-bytes_of zero n h = omega arith
le_value-bytes_of (suc f) n h = ground (arith, le_value-bytes_of f (n / 256))

pub length-bytes_of : (k f n : ℕ) → n < 256 ^ k → length (bytes_of f n) < suc k
unfolding bytes_of
length-bytes_of k zero n h = omega arith
length-bytes_of zero (suc f) n h = ground arith
length-bytes_of (suc k) (suc f) n h = ground (arith, pow-suc 256 k, length-bytes_of k f (n / 256))

abbrev pub reference : Multiprecision
reference = record {
  insert = print;
  extract = scan;
  export_bits = λ n. bytes_of n n;
  import_bits = be_value;
  length-insert = λ w n h. length-print w n;
  insert-IsHex = λ w n h. print-IsHex w n;
  hex_value-insert = hex_value-print;
  extract_hex = scan_lem;
  length-export_bits = λ size n p h. length-bytes_of size n n h;
  export_bits-IsByte = λ n. bytes_of-IsByte n n;
  le_value-export_bits = λ n. le_value-bytes_of n n (le_refl n);
  import_bits-be_value = λ bs h. refl;
}
