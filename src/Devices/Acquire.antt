-- ===== src/Devices/Acquire.antt =====
-- One worker alone: which device it takes, and that releasing it undoes the acquisition.
use pow_server.Prelude.{
  ℕ, suc, ◌+◌, ◌≡◌, ◌⊎◌, inl, inr, refl, ◌∙◌, true, false, List, [], ◌∷◌, ◌++◌, Error, Result, ok,
  err, arith, length, All, Bool-cases, ap,
}
use pow_server.Devices.{
  RegisteredDevice, try_aquire, find_device, aquire_first_available_device, release_at,
}

abbrev pub IsBusy : RegisteredDevice → Type 0
IsBusy d = d.busy ≡ true

-- What taking a device from a row may give: every device is busy and nothing changes, or the first
-- free one, behind busy ones only, is marked busy.
abbrev pub Takes : List RegisteredDevice → ℕ → List RegisteredDevice × Result ℕ → Type 0
Takes devices i r =
    (All IsBusy devices × (r ≡ (devices, err Error.no_available_devices)))
    ⊎ ((before : List RegisteredDevice) × (d : RegisteredDevice) × (after : List RegisteredDevice)
        × (devices ≡ before ++ d ∷ after)
        × All IsBusy before
        × (d.busy ≡ false)
        × (r ≡ (before ++ record d { busy = true } ∷ after, ok (i + length before))))

busy_again : (d : RegisteredDevice) → d.busy ≡ true → (try_aquire d).0 ≡ d
unfolding try_aquire
busy_again d h = ground arith

find_device-Takes :
    (devices : List RegisteredDevice) (i : ℕ) → Takes devices i (find_device devices i)
unfolding find_device try_aquire
find_device-Takes [] i = inl (tt, refl)
find_device-Takes (d ∷ ds) i = elim (Bool-cases d.busy) [
  | inr free ↦ inr ([], d, ds, refl, tt, free, ground arith)
  | inl busy ↦ elim (find_device-Takes ds (suc i)) [
    | inl (all, r) ↦ inl ((busy, all), ground arith)
    | inr (before, e, after, split, ahead, free, r) ↦
        inr (d ∷ before, e, after, ap (◌∷◌ d) split, (busy, ahead), free, ground arith)
  ]
]

-- A worker that runs alone gets the first device that is not busy and marks just that one; only
-- if all are busy it throws, and then no device has changed.
pub aquire-Takes :
    (devices : List RegisteredDevice) → Takes devices 0 (aquire_first_available_device devices)
unfolding aquire_first_available_device
aquire-Takes devices = find_device-Takes devices 0

release_at-append :
    (before : List RegisteredDevice) (d : RegisteredDevice) (after : List RegisteredDevice)
    → release_at (before ++ d ∷ after) (length before) ≡ before ++ record d { busy = false } ∷ after
unfolding release_at
release_at-append [] d after = refl
release_at-append (b ∷ before) d after = ap (◌∷◌ b) (release_at-append before d after)

-- Releasing the device that was taken restores all devices.
pub release-aquire :
    (devices taken : List RegisteredDevice) (i : ℕ)
    → aquire_first_available_device devices ≡ (taken, ok i)
    → release_at taken i ≡ devices
release-aquire devices taken i h = elim (aquire-Takes devices) [
  | inl (all, r) ↦ cc
  | inr (before, d, after, split, ahead, free, r) ↦
      let marked : taken ≡ before ++ record d { busy = true } ∷ after = ground arith in
      let place : i ≡ length before = ground arith in
      let same : record d { busy = false } ≡ d = ground arith in
      rw (marked, place, split)
        (release_at-append before (record d { busy = true }) after
          ∙ ap (λ e. before ++ e ∷ after) same)
]
