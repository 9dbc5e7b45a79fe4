-- ===== src/Job/Comparator.antt =====
-- The comparator is what std::priority_queue and std::set ask for: a strict weak order.
use pow_server.Prelude.{◌<◌, ◌≡◌, ◌↔◌, ◌⊎◌, true, false, arith}
use pow_server.Job.{Job, less}

-- The order of service: higher priority first, and the lower id first within a priority.
abbrev pub Before : {D : Type 0} → Job D → Job D → Type 0
Before a b = (b.priority < a.priority) ⊎ ((a.priority ≡ b.priority) × (a.job_id < b.job_id))

module _ {Double : Type 0} where
  -- The comparator holds exactly if the second job has the higher priority, or the same priority
  -- and the lower id.
  pub less-Before : (a b : Job Double) → (less a b ≡ true) ↔ Before b a
  unfolding less
  less-Before a b = ground arith

  pub less_irrefl : (a : Job Double) → less a a ≡ false
  unfolding less
  less_irrefl a = ground arith

  pub less_trans : (a b c : Job Double) → less a b ≡ true → less b c ≡ true → less a c ≡ true
  unfolding less
  less_trans a b c p q = ground arith

  -- Jobs that the comparator does not separate have the same priority and id, so it is a strict
  -- weak order whose classes are those of the pair.
  pub not_less_iff :
      (a b : Job Double)
      → ((less a b ≡ false) × (less b a ≡ false))
        ↔ ((a.priority ≡ b.priority) × (a.job_id ≡ b.job_id))
  unfolding less
  not_less_iff a b = ground arith

  -- If the comparator puts neither a below b nor b below c, it does not put a below c.
  pub not_less_trans : (a b c : Job Double) → less a b ≡ false → less b c ≡ false → less a c ≡ false
  unfolding less
  not_less_trans a b c p q = ground arith
