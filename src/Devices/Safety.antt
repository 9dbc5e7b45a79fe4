-- ===== src/Devices/Safety.antt =====
-- What holds of the pool's threads over the devices (src/workserver/work_handler.cpp).
use pow_server.Prelude.{
  ℕ, ◌+◌, ◌≤◌, ◌<◌, ◌≡◌, ◌≢◌, ◌↔◌, true, List, ◌∷◌, ◌++◌, arith, ap, length, length-replicate,
}
use pow_server.Devices.Scan.{Pc, idle, missed, scanning, holding, Threads, Reach, initial, later}
use pow_server.Devices.Available.{
  total, total-split, beyond, holds, is_lost, IsKept, init-IsKept, IsScan, init-IsScan, init-lost,
}
use pow_server.Devices.Moves.{Step-IsKept, Step-IsScan, Step-IsBalanced}

module _ {n k : ℕ} where
  Reach-IsKept : {s : Threads} → Reach n k s → IsKept n s
  Reach-IsKept initial = init-IsKept n k
  Reach-IsKept (later r st) = Step-IsKept st (Reach-IsKept r)

  -- The list has the threads and the lost devices.
  Reach-length : {s : Threads} → Reach n k s → length s.pcs ≡ k + total is_lost s.pcs
  Reach-length initial = omega (arith, length-replicate k idle, init-lost k)
  Reach-length (later r st) = omega (arith, Reach-length r, Step-IsBalanced st)

  Reach-IsScan : {s : Threads} → Reach n k s → k + total is_lost s.pcs ≤ n → IsScan n s
  Reach-IsScan initial few = init-IsScan n k (omega arith)
  Reach-IsScan (later r st) few =
      Step-IsScan st (omega (arith, Reach-length (later r st))) (Reach-IsKept r)
        (Reach-IsScan r (omega (arith, Step-IsBalanced st)))

  -- While the threads, and the devices that works which threw have left busy, are together no more
  -- than the devices, however the threads interleave: no thread passes all devices without finding a
  -- free one, and a thread that scans still has a device to try.
  pub device_available :
      {s : Threads}
      → Reach n k s
      → k + total is_lost s.pcs ≤ n
      → (before after : List Pc)
      → (s.pcs ≢ before ++ missed ∷ after)
        × ((i : ℕ) → s.pcs ≡ before ++ scanning i ∷ after → i < n)
  device_available {s} r few before after = (
    λ e. absurd (
        omega (
          arith,
          room n (omega arith),
          ap (total (beyond n)) e,
          total-split (beyond n) before missed after,
        )),
    λ i e.
        ground (
          arith,
          room n,
          ap (total (beyond n)) e,
          total-split (beyond n) before (scanning i) after,
        ),
  )
    where
      open (Reach-IsScan r few) use {room}

  -- Two threads never work on the same device, whether or not works throw.
  pub device_exclusive :
      {s : Threads}
      → Reach n k s
      → (before between after : List Pc) (i : ℕ)
      → s.pcs ≢ before ++ holding i ∷ (between ++ holding i ∷ after)
  device_exclusive {s} r before between after i e = ground (
    arith,
    (Reach-IsKept r).held i,
    (Reach-IsKept r).inside i,
    ap (total (holds i)) e,
    total-split (holds i) before (holding i) (between ++ holding i ∷ after),
    total-split (holds i) between (holding i) after,
  )

  -- A flag is set exactly while some thread works on the device, or if a work on it threw; and never
  -- for two of these at once.
  pub busy_iff_held :
      {s : Threads}
      → Reach n k s
      → (i : ℕ) → i < n
      → ((s.busy i ≡ true) ↔ (0 < total (holds i) s.pcs)) × (total (holds i) s.pcs ≤ 1)
  busy_iff_held r i lt =
      (ground (arith, (Reach-IsKept r).held i lt), ground (arith, (Reach-IsKept r).held i lt))
