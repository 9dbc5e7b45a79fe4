-- ===== src/Bigint/Digits.antt =====
-- What lists of bytes and of hexadecimal digits stand for.
use pow_server.Prelude.{
  ℕ, ◌+◌, ◌-◌, ◌*◌, ◌≤◌, ◌<◌, ◌⊎◌, List, [], ◌∷◌, leb, Bool, ◌&&◌, ◌||◌, if◌then◌else◌, Text,
}

abbrev pub IsByte : ℕ → Type 0
IsByte b = b < 256

-- The number that bytes spell, most significant first, behind the number `acc`.
abbrev pub be_from : ℕ → List ℕ → ℕ
be_from acc [] = acc
be_from acc (b ∷ bs) = be_from (acc * 256 + b) bs

abbrev pub be_value : List ℕ → ℕ
be_value = be_from 0

-- The number that bytes spell, least significant first.
abbrev pub le_value : List ℕ → ℕ
le_value [] = 0
le_value (b ∷ bs) = b + 256 * le_value bs

unfoldable pub is_hex : ℕ → Bool
is_hex c = leb b'0' c && leb c b'9' || (leb b'A' c && leb c b'F') || (leb b'a' c && leb c b'f')

abbrev pub IsHex : ℕ → Type 0
IsHex c = (b'0' ≤ c) × (c ≤ b'9') ⊎ (b'A' ≤ c) × (c ≤ b'F') ⊎ (b'a' ≤ c) × (c ≤ b'f')

-- The value of a hexadecimal digit in either case.
abbrev pub digit_value : ℕ → ℕ
digit_value c = if leb b'a' c then c - b'a' + 10 else if leb b'A' c then c - b'A' + 10 else c - b'0'

abbrev pub hex_from : ℕ → Text → ℕ
hex_from acc [] = acc
hex_from acc (c ∷ s) = hex_from (acc * 16 + digit_value c) s

abbrev pub hex_value : Text → ℕ
hex_value = hex_from 0
