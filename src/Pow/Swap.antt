-- ===== src/Pow/Swap.antt =====
-- The masks and shifts of `hash_reversed` read the first eight bytes of the digest the other way.
use Prim.Native.Nat.{bit_and, bit_or}
use pow_server.Prelude.{ℕ, ◌+◌, ◌*◌, ◌/◌, ◌%◌, ◌^◌, ◌≡◌, ◌∙◌, ap, List, [], ◌∷◌, arith, All}
use pow_server.Prelude.Bits.{and-byte, and-shifted, or-disjoint}
use pow_server.Bigint.Digits.{be_value, IsByte}
use pow_server.Pow.{byte_swap, load_64}

-- Byte k of a word, counted from the low end.
abbrev byte : ℕ → ℕ → ℕ
byte x k = x / 2 ^ k % 256

mask : (k x : ℕ) → bit_and x (255 * 2 ^ k) ≡ byte x k * 2 ^ k
mask k x = and-shifted k x 255 ∙ ap (λ b. b * 2 ^ k) (and-byte (x / 2 ^ k))

-- Eight bytes at the places of a word, joined from the lowest up.
join_bytes :
    (a b c d e f g h : ℕ)
    → All IsByte (a ∷ b ∷ c ∷ d ∷ e ∷ f ∷ g ∷ h ∷ [])
    → bit_or
        (bit_or
          (bit_or
            (bit_or (bit_or (bit_or (bit_or a (b * 2 ^ 8)) (c * 2 ^ 16)) (d * 2 ^ 24)) (e * 2 ^ 32))
            (f * 2 ^ 40))
          (g * 2 ^ 48))
        (h * 2 ^ 56)
      ≡ a + b * 2 ^ 8 + c * 2 ^ 16 + d * 2 ^ 24 + e * 2 ^ 32 + f * 2 ^ 40 + g * 2 ^ 48 + h * 2 ^ 56
join_bytes a b c d e f g h bytes =
    let two = a + b * 2 ^ 8 in
    let three = two + c * 2 ^ 16 in
    let four = three + d * 2 ^ 24 in
    let five = four + e * 2 ^ 32 in
    let six = five + f * 2 ^ 40 in
    let seven = six + g * 2 ^ 48 in
    rw (
      or-disjoint 8 a b (omega arith),
      or-disjoint 16 two c (omega arith),
      or-disjoint 24 three d (omega arith),
      or-disjoint 32 four e (omega arith),
      or-disjoint 40 five f (omega arith),
      or-disjoint 48 six g (omega arith),
      or-disjoint 56 seven h (omega arith),
    )

pub byte_swap-bytes :
    (x : ℕ)
    → byte_swap x
      ≡ byte x 56
        + byte x 48 * 2 ^ 8
        + byte x 40 * 2 ^ 16
        + byte x 32 * 2 ^ 24
        + byte x 24 * 2 ^ 32
        + byte x 16 * 2 ^ 40
        + byte x 8 * 2 ^ 48
        + byte x 0 * 2 ^ 56
unfolding byte_swap
byte_swap-bytes x =
    let first : bit_and x 0xff00000000000000 / 2 ^ 56 ≡ byte x 56 = omega (arith, mask 56 x) in
    let m48 : bit_and x 0x00ff000000000000 / 2 ^ 40 ≡ byte x 48 * 2 ^ 8 =
      omega (arith, mask 48 x) in
    let m40 : bit_and x 0x0000ff0000000000 / 2 ^ 24 ≡ byte x 40 * 2 ^ 16 =
      omega (arith, mask 40 x) in
    let m32 : bit_and x 0x000000ff00000000 / 2 ^ 8 ≡ byte x 32 * 2 ^ 24 =
      omega (arith, mask 32 x) in
    let m24 : bit_and x 0x00000000ff000000 * 2 ^ 8 ≡ byte x 24 * 2 ^ 32 =
      omega (arith, mask 24 x) in
    let m16 : bit_and x 0x0000000000ff0000 * 2 ^ 24 ≡ byte x 16 * 2 ^ 40 =
      omega (arith, mask 16 x) in
    let m8 : bit_and x 0x000000000000ff00 * 2 ^ 40 ≡ byte x 8 * 2 ^ 48 = omega (arith, mask 8 x) in
    let m0 : bit_and x 0x00000000000000ff * 2 ^ 56 ≡ byte x 0 * 2 ^ 56 = omega (arith, mask 0 x) in
    rw (first, m48, m40, m32, m24, m16, m8, m0)
      (join_bytes (byte x 56) (byte x 48) (byte x 40) (byte x 32) (byte x 24) (byte x 16) (byte x 8)
        (byte x 0) (omega arith))

-- The first eight bytes of a digest, loaded as a little-endian word and swapped, are the number
-- that these bytes spell with the most significant one first.
pub byte_swap-load_64 :
    (a b c d e f g h : ℕ) (rest : List ℕ)
    → All IsByte (a ∷ b ∷ c ∷ d ∷ e ∷ f ∷ g ∷ h ∷ [])
    → byte_swap (load_64 (a ∷ b ∷ c ∷ d ∷ e ∷ f ∷ g ∷ h ∷ rest))
      ≡ be_value (a ∷ b ∷ c ∷ d ∷ e ∷ f ∷ g ∷ h ∷ [])
unfolding load_64
byte_swap-load_64 a b c d e f g h rest bytes =
    let w7 = h in
    let w6 = g + 256 * w7 in
    let w5 = f + 256 * w6 in
    let w4 = e + 256 * w5 in
    let w3 = d + 256 * w4 in
    let w2 = c + 256 * w3 in
    let w1 = b + 256 * w2 in
    let d0 : byte (a + 256 * w1) 0 ≡ a = omega arith in
    let d1 : byte (a + 256 * w1) 8 ≡ b = omega arith in
    let d2 : byte (a + 256 * w1) 16 ≡ c = omega arith in
    let d3 : byte (a + 256 * w1) 24 ≡ d = omega arith in
    let d4 : byte (a + 256 * w1) 32 ≡ e = omega arith in
    let d5 : byte (a + 256 * w1) 40 ≡ f = omega arith in
    let d6 : byte (a + 256 * w1) 48 ≡ g = omega arith in
    let d7 : byte (a + 256 * w1) 56 ≡ h = omega arith in
    let plain : h + 0 ≡ h = omega arith in
    byte_swap-bytes _ ∙ rw (plain, d0, d1, d2, d3, d4, d5, d6, d7) (omega arith)
