-- ===== src/Pow/Search.antt =====
-- What the search returns.
use pow_server.Prelude.{
  ℕ, zero, suc, ◌+◌, ◌≤◌, ◌<◌, ◌≡◌, ◌⊎◌, inl, inr, refl, Bool, true, false, List, arith, ltb,
  Bool-cases,
}
use pow_server.Pow.{Sources, Attempt, reversed_hash, advance, search_loop, search, first_attempt}

module _ (src : Sources) (root_hash : List ℕ) where
  -- The attempt after n rounds.
  pub iterate : ℕ → Attempt → Attempt
  iterate zero a = a
  iterate (suc n) a = iterate n (advance src root_hash a)

  advance-iterations : (a : Attempt) → (advance src root_hash a).iterations ≡ a.iterations + 1
  unfolding advance
  advance-iterations a = ground arith

  abbrev pub hash_of : Attempt → ℕ
  hash_of a = reversed_hash src root_hash a.work_value

  -- `n` rounds failed; then the next attempt was below the threshold, or the rounds were used up.
  pub record IsSearch (max threshold : ℕ) (a : Attempt) (r : Attempt × Bool) : Type 0 where
    pub rounds : ℕ
    pub reached : r.0 ≡ iterate rounds a
    pub failed : (m : ℕ) → m < rounds → threshold ≤ hash_of (iterate m a)
    pub ended :
        ((r.1 ≡ true) × (rounds + a.iterations < max) × (hash_of r.0 < threshold))
        ⊎ ((r.1 ≡ false) × (rounds + a.iterations ≡ max))

  failed_first :
      (threshold n : ℕ) (a : Attempt)
      → threshold ≤ hash_of a
      → ((m : ℕ) → m < n → threshold ≤ hash_of (iterate m (advance src root_hash a)))
      → (m : ℕ) → m < suc n
      → threshold ≤ hash_of (iterate m a)
  unfolding iterate
  failed_first threshold n a h rest zero lt = h
  failed_first threshold n a h rest (suc m) lt = rest m (omega arith)

  search_loop-IsSearch :
      (fuel max threshold : ℕ) (a : Attempt)
      → a.iterations ≤ max
      → max < fuel + a.iterations
      → IsSearch max threshold a (search_loop src root_hash fuel max threshold a)
  unfolding search_loop iterate
  search_loop-IsSearch zero max threshold a le lt = absurd (omega arith)
  search_loop-IsSearch (suc fuel) max threshold a le lt = elim (Bool-cases (ltb a.iterations max)) [
    | inr over ↦ rw over (record {
      rounds = 0;
      reached = refl;
      failed = λ m h. absurd (omega arith);
      ended = inr (refl, ground arith);
    })
    | inl more ↦ elim (Bool-cases (ltb (hash_of a) threshold)) [
      | inl hit ↦
          rw (more, hit)
            (record {
              rounds = 0;
              reached = refl;
              failed = λ m h. absurd (omega arith);
              ended = inl (refl, ground arith, ground arith);
            })
      | inr miss ↦
          let one_more = advance-iterations a in
          let ih =
            search_loop-IsSearch fuel max threshold (advance src root_hash a) (ground arith)
              (omega arith) in
          rw (more, miss)
            (record {
              rounds = suc ih.rounds;
              reached = ih.reached;
              failed = failed_first threshold ih.rounds a (ground arith) ih.failed;
              ended = ground arith;
            })
    ]
  ]

  -- The search ends: it tries values from the first draw on, one a round; it stops at the first
  -- one whose hash is below the threshold, or after exactly the allowed number of failures.
  pub search-IsSearch :
      (max threshold : ℕ)
      → IsSearch max threshold (first_attempt src root_hash) (search src root_hash max threshold)
  unfolding search
  search-IsSearch max threshold =
      search_loop-IsSearch (suc max) max threshold (first_attempt src root_hash) (omega arith)
        (omega arith)
