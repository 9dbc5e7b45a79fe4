-- ===== src/Devices/Scan.antt =====
-- The pool's threads over the devices' busy flags, one atomic exchange at a time, in any
-- interleaving (src/workserver/work_handler.hpp and work_handler.cpp).
use pow_server.Prelude.{
  ℕ, suc, ◌<◌, ◌≡◌, Bool, true, false, List, ◌∷◌, ◌++◌, ◌==◌, if◌then◌else◌, replicate,
}

-- Where a thread of the pool stands: it waits for a job, is about to exchange the flag of device
-- `i`, works on device `i`, or has passed every device. `lost i` is no thread, but the device `i` that
-- a work which threw has left without a release.
pub data Pc : Type 0 where
  idle missed : Pc
  scanning holding lost : ℕ → Pc

pub record Threads : Type 0 where
  pub busy : ℕ → Bool
  pub pcs : List Pc

abbrev pub set_busy : (ℕ → Bool) → ℕ → Bool → ℕ → Bool
set_busy f i b j = if i == j then b else f j

-- What `!driver.try_aquire ()` makes of a thread at device `i`, by the flag that it finds.
unfoldable pub after_exchange : ℕ → Bool → Pc
after_exchange i was_busy = if was_busy then scanning (suc i) else holding i

-- One step of one thread; the others, before and behind it in the list, do not move. A work that
-- throws ends its lambda in the catch clause, which releases nothing.
pub data Step (n : ℕ) (s t : Threads) : Type 0 where
  begin :
      (before after : List Pc)
      → s.pcs ≡ before ++ idle ∷ after
      → t ≡ record s { pcs = before ++ scanning 0 ∷ after }
      → Step n s t
  exchange :
      (before after : List Pc) (i : ℕ)
      → i < n
      → s.pcs ≡ before ++ scanning i ∷ after
      → t ≡ record {
        busy = set_busy s.busy i true;
        pcs = before ++ after_exchange i (s.busy i) ∷ after;
      }
      → Step n s t
  no_device :
      (before after : List Pc)
      → s.pcs ≡ before ++ scanning n ∷ after
      → t ≡ record s { pcs = before ++ missed ∷ after }
      → Step n s t
  finish :
      (before after : List Pc) (i : ℕ)
      → s.pcs ≡ before ++ holding i ∷ after
      → t ≡ record { busy = set_busy s.busy i false; pcs = before ++ idle ∷ after }
      → Step n s t
  throw :
      (before after : List Pc) (i : ℕ)
      → s.pcs ≡ before ++ holding i ∷ after
      → t ≡ record s { pcs = before ++ lost i ∷ idle ∷ after }
      → Step n s t

-- All devices free, and `k` threads that wait.
abbrev pub init : ℕ → Threads
init k = record { busy = λ _. false; pcs = replicate k idle }

-- The states that `k` threads reach over `n` devices.
pub data Reach (n k : ℕ) : Threads → Type 0 where
  initial : Reach n k (init k)
  later : {s t : Threads} → Reach n k s → Step n s t → Reach n k t
