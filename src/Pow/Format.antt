-- ===== src/Pow/Format.antt =====
-- The work in the response: sixteen digits that spell the work value.
use pow_server.Prelude.{
  ℕ, zero, suc, ◌+◌, ◌*◌, ◌/◌, ◌^◌, ◌≤◌, ◌<◌, ◌≡◌, refl, ◌∙◌, ap, subst, List, [], ◌∷◌, ◌++◌, Text,
  arith, All, length, length-append, take, reverse, replicate,
}
use native.Mathlib.Nat.{pow-suc, pow-le-pow_right, mul-le-mul_right}
use pow_server.Bigint.{Multiprecision, Bigint, u128_size, set, number}
use pow_server.Bigint.Digits.{be_from, be_value, le_value, hex_from, hex_value, digit_value, IsByte}
use pow_server.Bigint.Bytes.{be_value-reverse, set-IsWord, number-set}
use pow_server.Pow.{store, result_work, print_bytes, work_hex}

store-IsByte : (n w : ℕ) → All IsByte (store n w)
unfolding store
store-IsByte zero w = tt
store-IsByte (suc n) w = (omega arith, store-IsByte n (w / 256))

le_value-store : (n w : ℕ) → w < 256 ^ n → le_value (store n w) ≡ w
unfolding store
le_value-store zero w h = omega arith
le_value-store (suc n) w h =
    omega (arith, le_value-store n (w / 256) (omega (arith, pow-suc 256 n)))

hex_from-append : (acc : ℕ) (s t : Text) → hex_from acc (s ++ t) ≡ hex_from (hex_from acc s) t
hex_from-append acc [] t = refl
hex_from-append acc (c ∷ s) t = hex_from-append (acc * 16 + digit_value c) s t

-- Two digits behind a number spell 256 times the number and their own value.
hex_from_two : (acc : ℕ) (s : Text) → length s ≡ 2 → hex_from acc s ≡ acc * 256 + hex_value s
hex_from_two acc [] h = absurd (omega arith)
hex_from_two acc (c ∷ []) h = absurd (omega arith)
hex_from_two acc (c ∷ d ∷ []) h = omega arith
hex_from_two acc (c ∷ d ∷ e ∷ s) h = absurd (omega arith)

module _ (mp : Multiprecision) where
  print_bytes-value :
      (acc : ℕ) (bs : List ℕ) → All IsByte bs → hex_from acc (print_bytes mp bs) ≡ be_from acc bs
  unfolding print_bytes
  print_bytes-value acc [] h = refl
  print_bytes-value acc (b ∷ bs) h =
      hex_from-append acc (mp.insert 2 b) (print_bytes mp bs)
      ∙ ap (λ n. hex_from n (print_bytes mp bs))
          (hex_from_two acc (mp.insert 2 b) (mp.length-insert 2 b h.0)
            ∙ ap (λ v. acc * 256 + v) (mp.hex_value-insert 2 b h.0))
      ∙ print_bytes-value (acc * 256 + b) bs h.1

  length-print_bytes : (bs : List ℕ) → All IsByte bs → length (print_bytes mp bs) ≡ length bs * 2
  unfolding print_bytes
  length-print_bytes [] h = refl
  length-print_bytes (b ∷ bs) h = omega (
    arith,
    length-append (mp.insert 2 b) (print_bytes mp bs),
    mp.length-insert 2 b h.0,
    length-print_bytes bs h.1,
  )

  -- The work in the response has sixteen digits, and they spell the work value.
  pub work_hex-result_work :
      (w : ℕ)
      → w < 2 ^ 64
      → (length (work_hex mp (result_work w)) ≡ 16) × (hex_value (work_hex mp (result_work w)) ≡ w)
  unfolding work_hex result_work
  work_hex-result_work w fits = (
    length-print_bytes (reverse (store 8 w)) (omega arith),
    print_bytes-value 0 (reverse (store 8 w)) (omega arith)
        ∙ be_value-reverse (store 8 w)
        ∙ le_value-store 8 w (omega arith),
  )

be_from-ge : (acc : ℕ) (bs : List ℕ) → acc * 256 ^ length bs ≤ be_from acc bs
be_from-ge acc [] = omega arith
be_from-ge acc (b ∷ bs) =
    let more = mul-le-mul_right (256 ^ length bs) (wider acc b) in
    rw (pow-suc 256 (length bs)) (omega (arith, be_from-ge (acc * 256 + b) bs, more))
  where
    wider : (acc b : ℕ) → acc * 256 ≤ acc * 256 + b
    wider acc b = omega arith

small_factor : (b p v : ℕ) → b * p ≤ v → v < p → b ≡ 0
small_factor zero p v h k = refl
small_factor (suc b) p v h k = absurd (omega arith)

-- A small number leaves the high bytes zero.
high_zero :
    (k m : ℕ) (bs : List ℕ) → length bs ≡ k + m → be_value bs < 256 ^ m → take k bs ≡ replicate k 0
high_zero zero m bs e h = refl
high_zero (suc k) m [] e h = absurd (omega arith)
high_zero (suc k) m (b ∷ bs) e h =
    let head = 0 * 256 + b in
    let least = be_from-ge head bs in
    let power = pow-le-pow_right {n = 256} (omega arith) {i = m} {j = length bs} (omega arith) in
    let none_left =
      small_factor head (256 ^ length bs) (be_from head bs) least (omega (arith, power)) in
    let rest = high_zero k m bs (omega arith) (subst (λ c. be_from c bs < 256 ^ m) none_left h) in
    let first : b ≡ 0 = omega (arith, none_left) in rw (first, rest)

module _ (mp : Multiprecision) where
  zeros-value : (w : Bigint) → take 8 w.bytes ≡ replicate 8 0 → hex_value (work_hex mp w) ≡ 0
  unfolding work_hex
  zeros-value w e = rw e (print_bytes-value mp 0 (replicate 8 0) (omega arith))

  -- A work that is set as a number, as the literal of the mock is, and not copied to the low
  -- addresses, is printed as zero whenever it fits 64 bits: the response shows the other half.
  pub work_hex-set : (n : ℕ) → n < 2 ^ 64 → hex_value (work_hex mp (set mp u128_size n)) ≡ 0
  work_hex-set n fits =
      let word = set-IsWord mp u128_size n in
      let value = mp.import_bits-be_value (set mp u128_size n).bytes word.filled in
      let stored = number-set mp u128_size n (omega arith) (omega arith) in
      zeros-value (set mp u128_size n) (
        high_zero 8 8 (set mp u128_size n).bytes word.sized
          (unfold number in omega (arith, value, stored)))
