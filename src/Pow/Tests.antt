-- ===== src/Pow/Tests.antt =====
-- The theorems on the search at concrete inputs: the generator draws 3, and the hash is the work
-- itself.
use pow_server.Prelude.{
  refl, ◌%◌, ◌+◌, ◌*◌, ◌^◌, ◌≤◌, ◌<◌, ◌≡◌, ◌↔◌, [], ◌∷◌, length, All, arith, replicate,
}
use pow_server.Bigint.{u128_size, set}
use pow_server.Bigint.Digits.{be_value, hex_value, IsByte}
use pow_server.Bigint.Reference.{reference}
use pow_server.Pow.{
  Sources, max_64, byte_swap, load_64, base_diff_64, difficulty_threshold, actual_diff_64,
  first_attempt, search, work_hex, result_work,
}
use pow_server.Pow.Difficulty.{accepted_difficulty, threshold_iff}
use pow_server.Pow.Format.{work_hex-result_work, work_hex-set}
use pow_server.Pow.Search.{IsSearch, search-IsSearch}
use pow_server.Pow.Swap.{byte_swap-load_64}

abbrev sources : Sources
sources = record { draw = λ i. 3; blake2b = λ bytes. bytes; draw-lt = λ i. omega arith }

search-IsSearch_example :
    IsSearch sources
      (replicate 32 0)
      5
      1000
      (first_attempt sources (replicate 32 0))
      (search sources (replicate 32 0) 5 1000)
search-IsSearch_example = search-IsSearch sources (replicate 32 0) 5 1000

eight : All IsByte (1 ∷ 2 ∷ 3 ∷ 4 ∷ 5 ∷ 6 ∷ 7 ∷ 8 ∷ [])
eight = omega arith

byte_swap-load_64_example :
    byte_swap (load_64 (1 ∷ 2 ∷ 3 ∷ 4 ∷ 5 ∷ 6 ∷ 7 ∷ 8 ∷ 9 ∷ []))
    ≡ be_value (1 ∷ 2 ∷ 3 ∷ 4 ∷ 5 ∷ 6 ∷ 7 ∷ 8 ∷ [])
byte_swap-load_64_example = byte_swap-load_64 1 2 3 4 5 6 7 8 (9 ∷ []) eight

low_1000 : base_diff_64 (2 ^ 64 + 1000) ≡ 1000
unfolding base_diff_64
low_1000 = refl

hash_below : 12345 < difficulty_threshold (base_diff_64 (2 ^ 64 + 1000))
unfolding difficulty_threshold
hash_below = rw low_1000 (omega arith)

accepted_difficulty_example :
    ((2 ^ 64 + 1000) % 2 ^ 64 ≤ actual_diff_64 12345) × (0 < actual_diff_64 12345)
accepted_difficulty_example = accepted_difficulty (2 ^ 64 + 1000) 12345 hash_below

asked : 0 < 1000
asked = omega arith

threshold_iff_example : (12345 < difficulty_threshold 1000) ↔ ((12345 + 1) * 1000 ≤ max_64)
threshold_iff_example = threshold_iff 1000 12345 asked

value_fits : 0x2feaeaa < 2 ^ 64
value_fits = omega arith

work_hex-result_work_example :
    (length (work_hex reference (result_work 0x2feaeaa)) ≡ 16)
    × (hex_value (work_hex reference (result_work 0x2feaeaa)) ≡ 0x2feaeaa)
work_hex-result_work_example = work_hex-result_work reference 0x2feaeaa value_fits

mock_fits : 0x2feaeaa000000000 < 2 ^ 64
mock_fits = omega arith

work_hex-set_example :
    hex_value (work_hex reference (set reference u128_size 0x2feaeaa000000000)) ≡ 0
work_hex-set_example = work_hex-set reference 0x2feaeaa000000000 mock_fits
