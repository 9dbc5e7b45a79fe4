-- ===== src/Devices/Busy.antt =====
-- The busy flags of the devices (src/workserver/work_handler.hpp), by index.
use pow_server.Prelude.{
  ℕ, zero, suc, ◌+◌, ◌≤◌, ◌<◌, ◌≡◌, refl, true, false, List, [], ◌∷◌, ◌++◌, ◌==◌, if◌then◌else◌,
  length, All, arith,
}
use pow_server.Config.{Device}
use pow_server.Devices.{RegisteredDevice, register_devices, release_at}
use pow_server.Devices.Acquire.{IsBusy}

-- 1 if the device with this index is busy, and 0 if it is not or there is none.
abbrev pub busy_at : List RegisteredDevice → ℕ → ℕ
busy_at [] i = 0
busy_at (d ∷ ds) zero = if d.busy then 1 else 0
busy_at (d ∷ ds) (suc i) = busy_at ds i

pub busy_at-le_one : (ds : List RegisteredDevice) (i : ℕ) → busy_at ds i ≤ 1
busy_at-le_one [] i = omega arith
busy_at-le_one (d ∷ ds) zero = ground arith
busy_at-le_one (d ∷ ds) (suc i) = busy_at-le_one ds i

pub busy_at-marked :
    (before : List RegisteredDevice) (d : RegisteredDevice) (after : List RegisteredDevice) (i : ℕ)
    → d.busy ≡ false
    → busy_at (before ++ record d { busy = true } ∷ after) i
      ≡ (if length before == i then 1 else 0) + busy_at (before ++ d ∷ after) i
busy_at-marked [] d after zero free = rw free refl
busy_at-marked [] d after (suc i) free = ground arith
busy_at-marked (b ∷ before) d after zero free = ground arith
busy_at-marked (b ∷ before) d after (suc i) free =
    ground (arith, busy_at-marked before d after i free)

pub busy_at-release :
    (ds : List RegisteredDevice) (j i : ℕ)
    → busy_at (release_at ds j) i ≡ (if j == i then 0 else busy_at ds i)
unfolding release_at
busy_at-release [] j i = ground arith
busy_at-release (d ∷ ds) zero zero = ground arith
busy_at-release (d ∷ ds) zero (suc i) = ground arith
busy_at-release (d ∷ ds) (suc j) zero = ground arith
busy_at-release (d ∷ ds) (suc j) (suc i) = ground (arith, busy_at-release ds j i)

pub length-release_at : (ds : List RegisteredDevice) (j : ℕ) → length (release_at ds j) ≡ length ds
unfolding release_at
length-release_at [] j = refl
length-release_at (d ∷ ds) zero = refl
length-release_at (d ∷ ds) (suc j) = omega (arith, length-release_at ds j)

pub busy_at-register_devices : (ds : List Device) (i : ℕ) → busy_at (register_devices ds) i ≡ 0
unfolding register_devices
busy_at-register_devices [] i = refl
busy_at-register_devices (d ∷ ds) zero = refl
busy_at-register_devices (d ∷ ds) (suc i) = busy_at-register_devices ds i

pub length-register_devices : (ds : List Device) → length (register_devices ds) ≡ length ds
unfolding register_devices
length-register_devices [] = refl
length-register_devices (d ∷ ds) = omega (arith, length-register_devices ds)

pub busy_at-all :
    (ds : List RegisteredDevice) (i : ℕ) → All IsBusy ds → i < length ds → busy_at ds i ≡ 1
busy_at-all [] i all inside = absurd (omega arith)
busy_at-all (d ∷ ds) zero all inside = rw all.0 refl
busy_at-all (d ∷ ds) (suc i) all inside = busy_at-all ds i all.1 (omega arith)
