-- ===== src/JobQueue/Oldest.antt =====
-- src/workserver/work_handler.hpp: the queue when each job is served after those pushed before it.
use pow_server.Prelude.{ℕ, ◌≡◌, refl, ap, true, List, [], ◌∷◌, ◌++◌, All}
use pow_server.Job.{Job, less}
use pow_server.JobQueue.{take_top}
use pow_server.JobQueue.Order.{All-take_top}

-- Every job is served after those behind it.
abbrev pub IsNewestFirst : {D : Type 0} → List (Job D) → Type 0
IsNewestFirst [] = Unit
IsNewestFirst (x ∷ xs) = All (λ y. less x y ≡ true) xs × IsNewestFirst xs

-- The ids from the back to the front.
abbrev pub ids : {D : Type 0} → List (Job D) → List ℕ
ids [] = []
ids (x ∷ xs) = ids xs ++ x.job_id ∷ []

module _ {Double : Type 0} where
  -- The top is the last of them, and the others stay in their order.
  pub take_top-oldest :
      (x : Job Double) (xs : List (Job Double))
      → IsNewestFirst (x ∷ xs)
      → let (oldest, rest) = take_top x xs in
        (ids (x ∷ xs) ≡ oldest.job_id ∷ ids rest) × IsNewestFirst rest
  unfolding take_top
  take_top-oldest x [] h = (refl, tt)
  take_top-oldest x (y ∷ ys) h =
      let (split, ordered) = take_top-oldest y ys h.1 in
      let (first, rest) = All-take_top (λ z. less x z ≡ true) y ys h.0.0 h.0.1 in
      rw (h.0.0) (ap (λ l. l ++ x.job_id ∷ []) split, (rest, ordered))
