-- ===== src/JobQueue/Order.antt =====
-- What one scan of the queue gives: a greatest job, and the others.
use mathlib.Core.List.Perm
use pow_server.Prelude.{
  ◌<◌, ◌≤◌, ◌≡◌, refl, ◌⊎◌, inl, inr, List, [], ◌∷◌, true, false, arith, Perm, All, length,
  Bool-cases,
}
use pow_server.Job.{Job, less}
use pow_server.JobQueue.{take_top}

-- `a` may be served before `b`: its priority is higher, or equal with an id that is not higher.
abbrev pub MayPrecede : {D : Type 0} → Job D → Job D → Type 0
MayPrecede a b = (b.priority < a.priority) ⊎ ((a.priority ≡ b.priority) × (a.job_id ≤ b.job_id))

module _ {Double : Type 0} where
  MayPrecede-refl : (a : Job Double) → MayPrecede a a
  MayPrecede-refl a = ground arith

  MayPrecede-risen : (x y m : Job Double) → less x y ≡ true → MayPrecede m y → MayPrecede m x
  unfolding less
  MayPrecede-risen x y m h p = ground arith

  MayPrecede-kept : (x y m : Job Double) → less x y ≡ false → MayPrecede m x → MayPrecede m y
  unfolding less
  MayPrecede-kept x y m h p = ground arith

  pub take_top-perm :
      (x : Job Double) (xs : List (Job Double))
      → let (m, rest) = take_top x xs in Perm (m ∷ rest) (x ∷ xs)
  unfolding take_top
  take_top-perm x [] = Perm.refl (x ∷ [])
  take_top-perm x (y ∷ ys) = elim (Bool-cases (less x y)) [
    | inl risen ↦ rw risen (
        Perm.trans (Perm.swap x (take_top y ys).0 (take_top y ys).1)
          (Perm.cons x (take_top-perm y ys)))
    | inr kept ↦ rw kept (
        Perm.trans (Perm.swap y (take_top x ys).0 (take_top x ys).1)
          (Perm.trans (Perm.cons y (take_top-perm x ys)) (Perm.swap x y ys)))
  ]

  pub take_top-MayPrecede :
      (x : Job Double) (xs : List (Job Double))
      → let (m, rest) = take_top x xs in MayPrecede m x × All (MayPrecede m) rest
  unfolding take_top
  take_top-MayPrecede x [] = (MayPrecede-refl x, tt)
  take_top-MayPrecede x (y ∷ ys) = elim (Bool-cases (less x y)) [
    | inl risen ↦
        let (first, rest) = take_top-MayPrecede y ys in
        let over = MayPrecede-risen x y (take_top y ys).0 risen first in
        rw risen (over, (over, rest))
    | inr kept ↦
        let (first, rest) = take_top-MayPrecede x ys in
        rw kept (first, (MayPrecede-kept x y (take_top x ys).0 kept first, rest))
  ]

  pub length-take_top :
      (x : Job Double) (xs : List (Job Double)) → length (take_top x xs).1 ≡ length xs
  unfolding take_top
  length-take_top x [] = refl
  length-take_top x (y ∷ ys) = ground (arith, length-take_top y ys, length-take_top x ys)

  module _ {κ} (P : Job Double → Type κ) where
    pub All-take_top :
        (x : Job Double) (xs : List (Job Double))
        → P x
        → All P xs
        → let (m, rest) = take_top x xs in P m × All P rest
    unfolding take_top
    All-take_top x [] p h = (p, h)
    All-take_top x (y ∷ ys) p h = elim (Bool-cases (less x y)) [
      | inl risen ↦ let (first, rest) = All-take_top y ys h.0 h.1 in rw risen (first, (p, rest))
      | inr kept ↦ let (first, rest) = All-take_top x ys p h.1 in rw kept (first, (h.0, rest))
    ]
