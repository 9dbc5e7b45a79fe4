-- ===== src/Bigint/Tests.antt =====
-- The theorems on the fixed-width integers at concrete inputs.
use pow_server.Prelude.{◌<◌, ◌≡◌, refl, [], ◌∷◌, ok, replicate, arith}
use pow_server.Bigint.{Bigint, IsWord, number, to_hex, of_hex}
use pow_server.Bigint.Reference.{reference}
use pow_server.Bigint.RoundTrip.{of_hex-to_hex}

abbrev zero_word : Bigint
zero_word = record { bytes = replicate 2 0 }

abbrev word : Bigint
word = record { bytes = 0x2f ∷ 0xea ∷ [] }

word-IsWord : IsWord 2 word
word-IsWord = record { sized = refl; filled = omega arith }

two : 0 < 2
two = omega arith

of_hex-to_hex_example :
    (b : Bigint) × (of_hex reference 2 zero_word (to_hex reference 2 word) ≡ ok b)
    × (number reference 2 b ≡ number reference 2 word)
of_hex-to_hex_example = of_hex-to_hex reference 2 two zero_word word word-IsWord
