-- ===== src/Pow.antt =====
-- src/workserver/work_handler.cpp: the proof-of-work search of a pool task. OpenSSL's Blake2b, the
-- random numbers and boost's printing are parameters.
pub mod Swap
pub mod Search
pub mod Difficulty
pub mod Format
pub mod Asserted
mod Tests
use Prim.Native.Nat.{bit_and, bit_or}
use pow_server.Prelude.{
  ℕ, zero, suc, ◌+◌, ◌-◌, ◌*◌, ◌/◌, ◌%◌, ◌^◌, ◌≤◌, ◌<◌, ◌≡◌, Bool, true, false, ◌&&◌, List, [], ◌∷◌,
  ◌++◌, Text, ltb, ◌==◌, if◌then◌else◌, length, take, drop, replicate, reverse, map,
}
use pow_server.Bigint.{Multiprecision, Bigint}
use pow_server.Bigint.Digits.{le_value}

abbrev pub max_64 : ℕ
max_64 = 2 ^ 64 - 1

-- memcpy of a word of `n` bytes into memory, and back from its first 8 bytes; the machine is
-- little-endian, as the source's comments say.
unfoldable pub store : ℕ → ℕ → List ℕ
store zero w = []
store (suc n) w = w % 256 ∷ store n (w / 256)

unfoldable pub load_64 : List ℕ → ℕ
load_64 bytes = le_value (take 8 bytes)

abbrev shl : ℕ → ℕ → ℕ
shl x k = x * 2 ^ k

abbrev shr : ℕ → ℕ → ℕ
shr x k = x / 2 ^ k

-- `hash_reversed`, as the source writes it
unfoldable pub byte_swap : ℕ → ℕ
byte_swap x =
    bit_or
      (bit_or
        (bit_or
          (bit_or
            (bit_or
              (bit_or
                (bit_or (shr (bit_and x 0xff00000000000000) 56)
                  (shr (bit_and x 0x00ff000000000000) 40))
                (shr (bit_and x 0x0000ff0000000000) 24))
              (shr (bit_and x 0x000000ff00000000) 8))
            (shl (bit_and x 0x00000000ff000000) 8))
          (shl (bit_and x 0x0000000000ff0000) 24))
        (shl (bit_and x 0x000000000000ff00) 40))
      (shl (bit_and x 0x00000000000000ff) 56)

-- The low 64 bits of the requested difficulty.
unfoldable pub base_diff_64 : ℕ → ℕ
base_diff_64 difficulty = bit_and difficulty 0xffffffffffffffff

unfoldable pub difficulty_threshold : ℕ → ℕ
difficulty_threshold base = if ltb 0 base then max_64 / base else 0

unfoldable pub actual_diff_64 : ℕ → ℕ
actual_diff_64 hash_reversed = if ltb 0 hash_reversed then max_64 / hash_reversed else max_64

-- `dis (gen)` and Blake2b with an output of 64 bytes. The generator is seeded by the machine; its
-- draws are numbered.
pub record Sources : Type 0 where
  pub draw : ℕ → ℕ
  pub blake2b : List ℕ → List ℕ
  pub draw-lt : (i : ℕ) → draw i < 2 ^ 64

-- The variables of the loop: `draws` counts the numbers that the generator has given.
pub record Attempt : Type 0 where
  pub work_value : ℕ
  pub iterations : ℕ
  pub draws : ℕ

module _ (src : Sources) (root_hash : List ℕ) where
  -- Hash the 8 bytes of the work and the 32 bytes of the root, and reverse the first 8 bytes.
  unfoldable pub reversed_hash : ℕ → ℕ
  unfolding store load_64 byte_swap
  reversed_hash work_value = byte_swap (load_64 (src.blake2b (store 8 work_value ++ root_hash)))

  -- The end of the loop's body: the next value, or a new draw after each hundred million rounds.
  unfoldable pub advance : Attempt → Attempt
  advance a =
      let iterations = a.iterations + 1 in
      if ltb 0 iterations && iterations % 100000000 == 0
      then record { work_value = src.draw a.draws; iterations = iterations; draws = a.draws + 1 }
      else record {
        work_value = (a.work_value + 1) % 2 ^ 64;
        iterations = iterations;
        draws = a.draws;
      }

  -- `while (!found && iterations < max_iterations)`: the last attempt, and whether it was found.
  unfoldable pub search_loop : ℕ → ℕ → ℕ → Attempt → Attempt × Bool
  search_loop zero max_iterations threshold a = (a, false)
  search_loop (suc fuel) max_iterations threshold a =
      let next = search_loop fuel max_iterations threshold (advance a) in
      let round = if ltb (reversed_hash a.work_value) threshold then (a, true) else next in
      if ltb a.iterations max_iterations then round else (a, false)

  abbrev pub first_attempt : Attempt
  first_attempt = record { work_value = src.draw 0; iterations = 0; draws = 1 }

  -- The fuel is the number of rounds that the loop allows, and one to leave it.
  unfoldable pub search : ℕ → ℕ → Attempt × Bool
  unfolding search_loop
  search max_iterations threshold =
      search_loop (suc max_iterations) max_iterations threshold first_attempt

-- 10 billion attempts
abbrev pub max_iterations : ℕ
max_iterations = 10000000000

-- `job.result.work`: 16 bytes, zero but for the work value in the first 8.
unfoldable pub result_work : ℕ → Bigint
unfolding store
result_work work_value = record { bytes = store 8 work_value ++ replicate 8 0 }

-- The loop that formats the response's work: bytes 7 to 0, two digits each.
unfoldable pub print_bytes : Multiprecision → List ℕ → Text
print_bytes mp [] = []
print_bytes mp (b ∷ bs) = mp.insert 2 b ++ print_bytes mp bs

unfoldable pub work_hex : Multiprecision → Bigint → Text
unfolding print_bytes
work_hex mp b = print_bytes mp (reverse (take 8 b.bytes))
