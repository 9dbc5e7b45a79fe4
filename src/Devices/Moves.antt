-- ===== src/Devices/Moves.antt =====
-- Each step of a thread of the pool (src/workserver/work_handler.cpp) keeps the invariants of the scan.
use pow_server.Prelude.{
  ℕ, suc, ◌+◌, ◌<◌, ◌≤◌, ◌≡◌, refl, Bool, true, false, List, ◌∷◌, ◌++◌, arith, length,
  length-append, Bool-cases, inl, inr, subst,
}
use pow_server.Devices.Scan.{
  Pc, idle, scanning, holding, missed, lost, Threads, set_busy, after_exchange, Step, begin,
  exchange, no_device, finish, throw,
}
use pow_server.Devices.Available.{
  IsScan, IsKept, moved-IsScan, moved-IsKept, room_of, held_of, few_of, gap_of, total, total-split,
  holds, beyond, is_lost, throw-total, throw-lost,
}

module _ (n : ℕ) (f : ℕ → Bool) (xs ys : List Pc) where
  abbrev at : Pc → Threads
  at p = record { busy = f; pcs = xs ++ p ∷ ys }

  abbrev thrown : ℕ → Threads
  thrown i = record { busy = f; pcs = xs ++ lost i ∷ idle ∷ ys }

  -- A thread that moves without an exchange.
  still-IsKept :
      (p p' : Pc)
      → ((i : ℕ) → holds i p ≡ 0)
      → ((i : ℕ) → holds i p' ≡ 0)
      → IsKept n (at p)
      → IsKept n (at p')
  still-IsKept p p' none none' v =
      moved-IsKept n f xs ys p f p'
        (λ i lt. omega (arith, held_of n f xs ys p v i lt, none i, none' i)) (λ i le. none' i) v

  pass-IsKept :
      (i : ℕ)
      → i < n
      → f i ≡ true
      → IsKept n (at (scanning i))
      → IsKept n (record { busy = set_busy f i true; pcs = xs ++ scanning (suc i) ∷ ys })
  pass-IsKept i lt busy v =
      moved-IsKept n f xs ys (scanning i) (set_busy f i true) (scanning (suc i))
        (λ j less. ground (arith, held_of n f xs ys (scanning i) v j less)) (λ j le. refl) v

  take-IsKept :
      (i : ℕ)
      → i < n
      → f i ≡ false
      → IsKept n (at (scanning i))
      → IsKept n (record { busy = set_busy f i true; pcs = xs ++ holding i ∷ ys })
  take-IsKept i lt free v =
      moved-IsKept n f xs ys (scanning i) (set_busy f i true) (holding i)
        (λ j less. ground (arith, held_of n f xs ys (scanning i) v j less)) (λ j le. ground arith) v

  finish-IsKept :
      (i : ℕ)
      → IsKept n (at (holding i))
      → IsKept n (record { busy = set_busy f i false; pcs = xs ++ idle ∷ ys })
  finish-IsKept i v =
      moved-IsKept n f xs ys (holding i) (set_busy f i false) idle
        (λ j less. ground (arith, held_of n f xs ys (holding i) v j less)) (λ j le. refl) v

  throw-IsKept : (i : ℕ) → IsKept n (at (holding i)) → IsKept n (thrown i)
  throw-IsKept i v = record {
    held = λ j lt. omega (arith, v.held j lt, throw-total xs ys (holds j) i refl refl);
    inside = λ j le. omega (arith, v.inside j le, throw-total xs ys (holds j) i refl refl);
  }

  begin-IsScan : IsScan n (at idle) → IsScan n (at (scanning 0))
  begin-IsScan v =
      moved-IsScan n f xs ys idle f (scanning 0)
        (λ i le. ground (arith, room_of n f xs ys idle v i le, few_of n f xs ys idle v i)) v

  -- The flag was set: some other thread works on the device, or it is lost, so there is room beyond.
  pass-IsScan :
      (i : ℕ)
      → i < n
      → f i ≡ true
      → IsKept n (at (scanning i))
      → IsScan n (at (scanning i))
      → IsScan n (record { busy = set_busy f i true; pcs = xs ++ scanning (suc i) ∷ ys })
  pass-IsScan i lt busy kept v =
      moved-IsScan n f xs ys (scanning i) (set_busy f i true) (scanning (suc i))
        (λ j le. ground (
          arith,
          room_of n f xs ys (scanning i) v j le,
          room_of n f xs ys (scanning i) v i (omega arith),
          held_of n f xs ys (scanning i) kept i lt,
          gap_of n f xs ys (scanning i) i,
        ))
        v

  take-IsScan :
      (i : ℕ)
      → IsScan n (at (scanning i))
      → IsScan n (record { busy = set_busy f i true; pcs = xs ++ holding i ∷ ys })
  take-IsScan i v =
      moved-IsScan n f xs ys (scanning i) (set_busy f i true) (holding i)
        (λ j le. ground (arith, room_of n f xs ys (scanning i) v j le)) v

  finish-IsScan :
      (i : ℕ)
      → IsScan n (at (holding i))
      → IsScan n (record { busy = set_busy f i false; pcs = xs ++ idle ∷ ys })
  finish-IsScan i v =
      moved-IsScan n f xs ys (holding i) (set_busy f i false) idle
        (λ j le. ground (arith, room_of n f xs ys (holding i) v j le)) v

  throw-IsScan :
      (i : ℕ) → length (thrown i).pcs ≤ n → IsScan n (at (holding i)) → IsScan n (thrown i)
  throw-IsScan i few v = record {
    few = few;
    room = λ j le. omega (arith, v.room j le, throw-total xs ys (beyond j) i refl refl);
  }

  no_device-absurd : IsScan n (at (scanning n)) → ⊥
  no_device-absurd v = ground (arith, room_of n f xs ys (scanning n) v n)

-- What the list of threads and lost devices and the lost ones among them come to.
abbrev pub IsBalanced : List Pc → List Pc → Type 0
IsBalanced old new =
    (length new + total is_lost old ≡ length old + total is_lost new)
    × (total is_lost old ≤ total is_lost new)

moved-IsBalanced :
    (xs ys : List Pc) (p p' : Pc)
    → is_lost p ≡ 0
    → is_lost p' ≡ 0
    → IsBalanced (xs ++ p ∷ ys) (xs ++ p' ∷ ys)
moved-IsBalanced xs ys p p' none none' = omega (
  arith,
  none,
  none',
  length-append xs (p ∷ ys),
  length-append xs (p' ∷ ys),
  total-split is_lost xs p ys,
  total-split is_lost xs p' ys,
)

exchange-lost : (i : ℕ) (b : Bool) → is_lost (after_exchange i b) ≡ 0
unfolding after_exchange
exchange-lost i true = refl
exchange-lost i false = refl

module _ {n : ℕ} where
  -- A state is known by its flags and its threads.
  at_flags : {s : Threads} {l : List Pc} → s.pcs ≡ l → IsKept n s → IsKept n (record s { pcs = l })
  at_flags {s} {l} e v = subst (λ (pcs : List Pc). IsKept n (record s { pcs = pcs })) e v

  at_pcs : {s : Threads} {l : List Pc} → s.pcs ≡ l → IsScan n s → IsScan n (record s { pcs = l })
  at_pcs {s} {l} e v = subst (λ (pcs : List Pc). IsScan n (record s { pcs = pcs })) e v

  exchange-IsKept :
      (f : ℕ → Bool) (xs ys : List Pc) (i : ℕ)
      → i < n
      → IsKept n (record { busy = f; pcs = xs ++ scanning i ∷ ys })
      → IsKept n (record { busy = set_busy f i true; pcs = xs ++ after_exchange i (f i) ∷ ys })
  unfolding after_exchange
  exchange-IsKept f xs ys i lt v = elim (Bool-cases (f i)) [
    | inl busy ↦ rw (busy, after_exchange) (pass-IsKept n f xs ys i lt busy v)
    | inr free ↦ rw (free, after_exchange) (take-IsKept n f xs ys i lt free v)
  ]

  exchange-IsScan :
      (f : ℕ → Bool) (xs ys : List Pc) (i : ℕ)
      → i < n
      → IsKept n (record { busy = f; pcs = xs ++ scanning i ∷ ys })
      → IsScan n (record { busy = f; pcs = xs ++ scanning i ∷ ys })
      → IsScan n (record { busy = set_busy f i true; pcs = xs ++ after_exchange i (f i) ∷ ys })
  unfolding after_exchange
  exchange-IsScan f xs ys i lt kept v = elim (Bool-cases (f i)) [
    | inl busy ↦ rw (busy, after_exchange) (pass-IsScan n f xs ys i lt busy kept v)
    | inr free ↦ rw (free, after_exchange) (take-IsScan n f xs ys i v)
  ]

  -- Every step of every thread keeps what the flags say.
  pub Step-IsKept : {s t : Threads} → Step n s t → IsKept n s → IsKept n t
  Step-IsKept {s} (begin xs ys e e') v =
      rw e' (still-IsKept n s.busy xs ys idle (scanning 0) (λ i. refl) (λ i. refl) (at_flags e v))
  Step-IsKept {s} (exchange xs ys i lt e e') v =
      rw e' (exchange-IsKept s.busy xs ys i lt (at_flags e v))
  Step-IsKept {s} (no_device xs ys e e') v =
      rw e' (still-IsKept n s.busy xs ys (scanning n) missed (λ i. refl) (λ i. refl) (at_flags e v))
  Step-IsKept {s} (finish xs ys i e e') v = rw e' (finish-IsKept n s.busy xs ys i (at_flags e v))
  Step-IsKept {s} (throw xs ys i e e') v = rw e' (throw-IsKept n s.busy xs ys i (at_flags e v))

  -- And that there is room, while the threads and the lost devices are no more than the devices.
  pub Step-IsScan :
      {s t : Threads} → Step n s t → length t.pcs ≤ n → IsKept n s → IsScan n s → IsScan n t
  Step-IsScan {s} (begin xs ys e e') few kept v = rw e' (begin-IsScan n s.busy xs ys (at_pcs e v))
  Step-IsScan {s} (exchange xs ys i lt e e') few kept v =
      rw e' (exchange-IsScan s.busy xs ys i lt (at_flags e kept) (at_pcs e v))
  Step-IsScan {s} (no_device xs ys e e') few kept v =
      absurd (no_device-absurd n s.busy xs ys (at_pcs e v))
  Step-IsScan {s} (finish xs ys i e e') few kept v =
      rw e' (finish-IsScan n s.busy xs ys i (at_pcs e v))
  Step-IsScan {s} (throw xs ys i e e') few kept v =
      rw e' (throw-IsScan n s.busy xs ys i (rw e' at few) (at_pcs e v))

  -- The threads stay as many as they are, besides the lost devices, which stay lost.
  pub Step-IsBalanced : {s t : Threads} → Step n s t → IsBalanced s.pcs t.pcs
  Step-IsBalanced (begin xs ys e e') =
      rw (e, e') (moved-IsBalanced xs ys idle (scanning 0) refl refl)
  Step-IsBalanced {s} (exchange xs ys i lt e e') =
      rw (e, e')
        (moved-IsBalanced xs ys (scanning i) (after_exchange i (s.busy i)) refl
          (exchange-lost i (s.busy i)))
  Step-IsBalanced (no_device xs ys e e') =
      rw (e, e') (moved-IsBalanced xs ys (scanning n) missed refl refl)
  Step-IsBalanced (finish xs ys i e e') =
      rw (e, e') (moved-IsBalanced xs ys (holding i) idle refl refl)
  Step-IsBalanced (throw xs ys i e e') =
      rw (e, e')
        (omega (
          arith,
          length-append xs (holding i ∷ ys),
          length-append xs (lost i ∷ idle ∷ ys),
          throw-lost xs ys i,
        ))
