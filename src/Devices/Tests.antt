-- ===== src/Devices/Tests.antt =====
-- The theorems on the devices at concrete inputs.
use pow_server.Prelude.{ℕ, ◌+◌, ◌<◌, ◌≤◌, ◌≡◌, ◌≢◌, ◌↔◌, refl, true, false, [], ◌∷◌, ◌++◌, arith}
use pow_server.Devices.Available.{total, holds, is_lost}
use pow_server.Devices.Safety.{device_available, device_exclusive, busy_iff_held}
use pow_server.Devices.Scan.{
  idle, missed, scanning, holding, Threads, begin, exchange, Reach, initial, later, set_busy,
  after_exchange,
}

-- Two threads over two devices: both begin, the first takes device 0, and the second meets it.
abbrev both_scan : Threads
both_scan = record { busy = λ _. false; pcs = scanning 0 ∷ scanning 0 ∷ [] }

abbrev one_holds : Threads
one_holds = record { busy = set_busy (λ _. false) 0 true; pcs = holding 0 ∷ scanning 0 ∷ [] }

abbrev second_moved : Threads
second_moved = record {
  busy = set_busy (set_busy (λ _. false) 0 true) 0 true;
  pcs = holding 0 ∷ scanning 1 ∷ [];
}

one_holds-Reach : Reach 2 2 one_holds
unfolding after_exchange
one_holds-Reach =
    later
      (later (later initial (begin [] (idle ∷ []) refl refl))
        (begin (scanning 0 ∷ []) [] refl refl))
      (exchange [] (scanning 0 ∷ []) 0 (omega arith) refl refl)

second_moved-Reach : Reach 2 2 second_moved
unfolding after_exchange
second_moved-Reach = later one_holds-Reach (exchange (holding 0 ∷ []) [] 0 (omega arith) refl refl)

none_lost : 2 + total is_lost second_moved.pcs ≤ 2
unfolding total
none_lost = omega arith

zero_two : 0 < 2
zero_two = omega arith

device_available_example :
    (second_moved.pcs ≢ (holding 0 ∷ []) ++ missed ∷ [])
    × ((i : ℕ) → second_moved.pcs ≡ (holding 0 ∷ []) ++ scanning i ∷ [] → i < 2)
device_available_example = device_available second_moved-Reach none_lost (holding 0 ∷ []) []

device_exclusive_example : second_moved.pcs ≢ [] ++ holding 0 ∷ ([] ++ holding 0 ∷ [])
device_exclusive_example = device_exclusive second_moved-Reach [] [] [] 0

busy_iff_held_example :
    ((second_moved.busy 0 ≡ true) ↔ (0 < total (holds 0) second_moved.pcs))
    × (total (holds 0) second_moved.pcs ≤ 1)
busy_iff_held_example = busy_iff_held second_moved-Reach 0 zero_two
