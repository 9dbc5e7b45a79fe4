-- ===== src/Handler/Task/Active.antt =====
-- The set of active jobs, a std::set ordered by the comparator: jobs that it does not separate
-- count as one.
use pow_server.Prelude.{◌≡◌, true, false, List, [], ◌∷◌, if◌then◌else◌, All}
use pow_server.Job.{Job, less}

module _ {Double : Type 0} where
  -- insert: nothing changes if an equivalent job is there
  unfoldable pub insert_active : Job Double → List (Job Double) → List (Job Double)
  insert_active j [] = j ∷ []
  insert_active j (x ∷ xs) =
      if less j x then j ∷ x ∷ xs else if less x j then x ∷ insert_active j xs else x ∷ xs

  -- erase: the equivalent job, if any
  unfoldable pub erase_active : Job Double → List (Job Double) → List (Job Double)
  erase_active j [] = []
  erase_active j (x ∷ xs) =
      if less j x then x ∷ xs else if less x j then x ∷ erase_active j xs else xs

  -- In the order of the set, no job twice.
  abbrev pub IsOrdered : List (Job Double) → Type 0
  IsOrdered [] = Unit
  IsOrdered (x ∷ xs) = All (λ y. less x y ≡ true) xs × IsOrdered xs

  -- The job has no equivalent in the set.
  abbrev pub IsNew : Job Double → List (Job Double) → Type 0
  IsNew j = All (λ x. (less x j ≡ false) × (less j x ≡ false) → ⊥)
