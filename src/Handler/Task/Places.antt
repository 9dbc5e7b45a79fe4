-- ===== src/Handler/Task/Places.antt =====
-- What insert and erase make of the set of active jobs, by the places of the jobs in its order
-- (src/workserver/work_handler.cpp).
use pow_server.Prelude.{
  ℕ, ◌+◌, ◌*◌, ◌^◌, ◌<◌, ◌≡◌, refl, inl, inr, true, false, List, [], ◌∷◌, ◌==◌, if◌then◌else◌, All,
  Bool-cases, arith,
}
use pow_server.Job.{Job, less}
use pow_server.Job.Comparator.{less_trans}
use pow_server.Handler.Accounting.{tally}
use pow_server.Handler.Task.Active.{insert_active, erase_active, IsOrdered}

module _ {Double : Type 0} where
  -- The priority and the id of a job, in one number.
  abbrev pub place : Job Double → ℕ
  place j = j.priority * 2 ^ 32 + j.job_id

  -- The id has 32 bits.
  abbrev pub IsId : Job Double → Type 0
  IsId j = j.job_id < 2 ^ 32

  less-place : (a b : Job Double) → IsId a → IsId b → less a b ≡ true → (place a == place b) ≡ false
  unfolding less
  less-place a b ia ib h = ground arith

  equal-place : (a b : Job Double) → less a b ≡ false → less b a ≡ false → place a ≡ place b
  unfolding less
  equal-place a b h g = ground arith

  pub All-insert_active {κ} :
      (P : Job Double → Type κ) (j : Job Double) (xs : List (Job Double))
      → P j
      → All P xs
      → All P (insert_active j xs)
  unfolding insert_active
  All-insert_active P j [] p h = (p, tt)
  All-insert_active P j (x ∷ xs) p h = elim (Bool-cases (less j x)) [
    | inl before ↦ rw before (p, h)
    | inr after ↦ elim (Bool-cases (less x j)) [
      | inl beyond ↦ rw (after, beyond) (h.0, All-insert_active P j xs p h.1)
      | inr same ↦ rw (after, same) h
    ]
  ]

  All-less :
      (j x : Job Double) (xs : List (Job Double))
      → less j x ≡ true
      → All (λ y. less x y ≡ true) xs
      → All (λ y. less j y ≡ true) xs
  All-less j x [] before h = tt
  All-less j x (y ∷ ys) before h = (less_trans j x y before h.0, All-less j x ys before h.1)

  pub insert_active-IsOrdered :
      (j : Job Double) (xs : List (Job Double)) → IsOrdered xs → IsOrdered (insert_active j xs)
  unfolding insert_active
  insert_active-IsOrdered j [] h = (tt, tt)
  insert_active-IsOrdered j (x ∷ xs) h = elim (Bool-cases (less j x)) [
    | inl before ↦ rw before ((before, All-less j x xs before h.0), h)
    | inr after ↦ elim (Bool-cases (less x j)) [
      | inl beyond ↦
          rw (after, beyond)
            (
              All-insert_active (λ y. less x y ≡ true) j xs beyond h.0,
              insert_active-IsOrdered j xs h.1,
            )
      | inr same ↦ rw (after, same) h
    ]
  ]

  -- One more job is at its place, if none was there.
  pub tally-insert_active :
      (k : ℕ) (j : Job Double) (xs : List (Job Double))
      → tally place (place j) xs ≡ 0
      → tally place k (insert_active j xs) ≡ (if place j == k then 1 else 0) + tally place k xs
  unfolding insert_active
  tally-insert_active k j [] h = refl
  tally-insert_active k j (x ∷ xs) h = elim (Bool-cases (less j x)) [
    | inl before ↦ rw before refl
    | inr after ↦ elim (Bool-cases (less x j)) [
      | inl beyond ↦
          let rest : tally place (place j) xs ≡ 0 = omega (arith, h) in
          rw (after, beyond) (omega (arith, tally-insert_active k j xs rest))
      | inr same ↦ let here = equal-place j x after same in absurd (ground (arith, h, here))
    ]
  ]

  -- No job that is served after `j` is at its place.
  tally-less :
      (j : Job Double) (xs : List (Job Double))
      → IsId j
      → All IsId xs
      → All (λ y. less j y ≡ true) xs
      → tally place (place j) xs ≡ 0
  tally-less j [] ij ix h = refl
  tally-less j (x ∷ xs) ij ix h =
      ground (arith, less-place j x ij ix.0 h.0, tally-less j xs ij ix.1 h.1)

  -- The job at the place is the one that goes, if there is one.
  pub tally-erase_active :
      (k : ℕ) (j : Job Double) (xs : List (Job Double))
      → IsId j
      → All IsId xs
      → IsOrdered xs
      → 0 < tally place (place j) xs
      → tally place k (erase_active j xs) + (if place j == k then 1 else 0) ≡ tally place k xs
  unfolding erase_active
  tally-erase_active k j [] ij ix h some_there = absurd (omega (arith, some_there))
  tally-erase_active k j (x ∷ xs) ij ix h some_there = elim (Bool-cases (less j x)) [
    | inl before ↦
        let gone = tally-less j (x ∷ xs) ij ix (before, All-less j x xs before h.0) in
        absurd (omega (arith, gone, some_there))
    | inr after ↦ elim (Bool-cases (less x j)) [
      | inl beyond ↦
          let apart = less-place x j ix.0 ij beyond in
          let there : 0 < tally place (place j) xs = ground (arith, apart, some_there) in
          rw (after, beyond) (omega (arith, tally-erase_active k j xs ij ix.1 h.1 there))
      | inr same ↦ let here = equal-place j x after same in rw (after, same) (ground (arith, here))
    ]
  ]
