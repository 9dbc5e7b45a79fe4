-- ===== src/Devices/Available.antt =====
-- A device is available whenever a thread of the pool looks for one, however the threads interleave.
use pow_server.Prelude.{
  ℕ, zero, suc, ◌+◌, ◌≤◌, ◌<◌, ◌≡◌, refl, Bool, true, false, List, [], ◌∷◌, ◌++◌, ◌==◌, leb,
  if◌then◌else◌, arith, length, length-append, length-replicate, replicate,
}
use pow_server.Devices.Scan.{Pc, idle, missed, scanning, holding, lost, Threads, init}

-- 1 for a thread at device `i` or beyond it, be it scanning or holding, and for a lost device there.
abbrev pub beyond : ℕ → Pc → ℕ
beyond i idle = 0
beyond i missed = 1
beyond i (scanning j) = if leb i j then 1 else 0
beyond i (holding j) = if leb i j then 1 else 0
beyond i (lost j) = if leb i j then 1 else 0

-- 1 for a thread that works on device `i`, and for the device `i` that is lost.
abbrev pub holds : ℕ → Pc → ℕ
holds i idle = 0
holds i missed = 0
holds i (scanning j) = 0
holds i (holding j) = if j == i then 1 else 0
holds i (lost j) = if j == i then 1 else 0

-- 1 for a lost device.
abbrev pub is_lost : Pc → ℕ
is_lost (lost j) = 1
is_lost _ = 0

unfoldable pub total : (Pc → ℕ) → List Pc → ℕ
total w [] = 0
total w (p ∷ ps) = w p + total w ps

total-append : (w : Pc → ℕ) (ps qs : List Pc) → total w (ps ++ qs) ≡ total w ps + total w qs
unfolding total
total-append w [] qs = omega arith
total-append w (p ∷ ps) qs = omega (arith, total-append w ps qs)

-- The total where one thread of the list is singled out.
pub total-split :
    (w : Pc → ℕ) (ps : List Pc) (p : Pc) (qs : List Pc)
    → total w (ps ++ p ∷ qs) ≡ total w ps + w p + total w qs
unfolding total
total-split w ps p qs = omega (arith, total-append w ps (p ∷ qs))

beyond-le-one : (p : Pc) (i : ℕ) → beyond i p ≤ 1
beyond-le-one idle i = omega arith
beyond-le-one missed i = omega arith
beyond-le-one (scanning j) i = ground arith
beyond-le-one (holding j) i = ground arith
beyond-le-one (lost j) i = ground arith

total-beyond-le : (ps : List Pc) (i : ℕ) → total (beyond i) ps ≤ length ps
unfolding total
total-beyond-le [] i = omega arith
total-beyond-le (p ∷ ps) i = omega (arith, beyond-le-one p i, total-beyond-le ps i)

-- A thread that works on device `i` is not beyond it.
beyond-holds : (p : Pc) (i : ℕ) → beyond (suc i) p + holds i p ≤ beyond i p
beyond-holds idle i = omega arith
beyond-holds missed i = omega arith
beyond-holds (scanning j) i = ground arith
beyond-holds (holding j) i = ground arith
beyond-holds (lost j) i = ground arith

total-beyond-holds :
    (ps : List Pc) (i : ℕ) → total (beyond (suc i)) ps + total (holds i) ps ≤ total (beyond i) ps
unfolding total
total-beyond-holds [] i = omega arith
total-beyond-holds (p ∷ ps) i = omega (arith, beyond-holds p i, total-beyond-holds ps i)

abbrev pub flag : Bool → ℕ
flag true = 1
flag false = 0

-- A flag is set exactly while one thread works on the device, or the device is lost.
pub record IsKept (n : ℕ) (s : Threads) : Type 0 where
  pub held : (i : ℕ) → i < n → total (holds i) s.pcs ≡ flag (s.busy i)
  pub inside : (i : ℕ) → n ≤ i → total (holds i) s.pcs ≡ 0

-- No more threads and lost devices than devices, and at most `n - i` of them at device `i` or beyond.
pub record IsScan (n : ℕ) (s : Threads) : Type 0 where
  pub few : length s.pcs ≤ n
  pub room : (i : ℕ) → i ≤ n → total (beyond i) s.pcs + i ≤ n

total-idle : (w : Pc → ℕ) (k : ℕ) → w idle ≡ 0 → total w (replicate k idle) ≡ 0
unfolding total
total-idle w zero h = refl
total-idle w (suc k) h = omega (arith, h, total-idle w k h)

pub init-IsKept : (n k : ℕ) → IsKept n (init k)
init-IsKept n k = record {
  held = λ i lt. total-idle (holds i) k refl;
  inside = λ i le. total-idle (holds i) k refl;
}

pub init-IsScan : (n k : ℕ) → k ≤ n → IsScan n (init k)
init-IsScan n k h = record {
  few = omega (arith, length-replicate k idle);
  room = λ i le. omega (arith, total-idle (beyond i) k refl);
}

pub init-lost : (k : ℕ) → total is_lost (replicate k idle) ≡ 0
init-lost k = total-idle is_lost k refl

-- A thread that leaves its device lost is at it as before.
pub throw-total :
    (xs ys : List Pc) (w : Pc → ℕ) (i : ℕ)
    → w (lost i) ≡ w (holding i)
    → w idle ≡ 0
    → total w (xs ++ lost i ∷ idle ∷ ys) ≡ total w (xs ++ holding i ∷ ys)
unfolding total
throw-total xs ys w i same none =
    omega
      (arith, total-split w xs (lost i) (idle ∷ ys), total-split w xs (holding i) ys, same, none)

pub throw-lost :
    (xs ys : List Pc) (i : ℕ)
    → total is_lost (xs ++ lost i ∷ idle ∷ ys) ≡ total is_lost (xs ++ holding i ∷ ys) + 1
unfolding total
throw-lost xs ys i =
    omega
      (arith, total-split is_lost xs (lost i) (idle ∷ ys), total-split is_lost xs (holding i) ys)

-- One thread moves from `p` to `p'` while the others stand still.
module _ (n : ℕ) (f : ℕ → Bool) (xs ys : List Pc) (p : Pc) where
  abbrev pub old : Threads
  old = record { busy = f; pcs = xs ++ p ∷ ys }

  -- The totals over the threads that do not move.
  abbrev pub rest : (Pc → ℕ) → ℕ
  rest w = total w xs + total w ys

  pub moved-IsKept :
      (f' : ℕ → Bool) (p' : Pc)
      → ((i : ℕ) → i < n → rest (holds i) + holds i p' ≡ flag (f' i))
      → ((i : ℕ) → n ≤ i → holds i p' ≡ 0)
      → IsKept n old
      → IsKept n (record { busy = f'; pcs = xs ++ p' ∷ ys })
  moved-IsKept f' p' held inside v = record {
    held = λ i lt. omega (arith, held i lt, total-split (holds i) xs p' ys);
    inside = λ i le. omega (
      arith,
      inside i le,
      v.inside i le,
      total-split (holds i) xs p ys,
      total-split (holds i) xs p' ys,
    );
  }

  pub moved-IsScan :
      (f' : ℕ → Bool) (p' : Pc)
      → ((i : ℕ) → i ≤ n → rest (beyond i) + beyond i p' + i ≤ n)
      → IsScan n old
      → IsScan n (record { busy = f'; pcs = xs ++ p' ∷ ys })
  moved-IsScan f' p' room v = record {
    few = omega (arith, v.few, length-append xs (p ∷ ys), length-append xs (p' ∷ ys));
    room = λ i le. omega (arith, room i le, total-split (beyond i) xs p' ys);
  }

  -- What the invariants say of the threads that do not move.
  pub room_of : IsScan n old → (i : ℕ) → i ≤ n → rest (beyond i) + beyond i p + i ≤ n
  room_of v i le = omega (arith, v.room i le, total-split (beyond i) xs p ys)

  pub held_of : IsKept n old → (i : ℕ) → i < n → rest (holds i) + holds i p ≡ flag (f i)
  held_of v i lt = omega (arith, v.held i lt, total-split (holds i) xs p ys)

  pub few_of : IsScan n old → (i : ℕ) → rest (beyond i) + 1 ≤ n
  few_of v i =
      omega (arith, v.few, length-append xs (p ∷ ys), total-beyond-le xs i, total-beyond-le ys i)

  pub gap_of : (i : ℕ) → rest (beyond (suc i)) + rest (holds i) ≤ rest (beyond i)
  gap_of i = omega (arith, total-beyond-holds xs i, total-beyond-holds ys i)
