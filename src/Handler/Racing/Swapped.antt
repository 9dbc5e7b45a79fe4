-- ===== src/Handler/Racing/Swapped.antt =====
-- src/workserver/work_handler.cpp: the race between queueing a job and posting its lambda, and which
-- lambda gets which job.
use pow_server.Prelude.{◌≤◌, ◌≡◌, refl, true, false, [], ◌∷◌, some, ltb, lt→ltb, arith}
use pow_server.Config.{Config}
use pow_server.Job.{less}
use pow_server.JobQueue.{push, pop_job, take_top}
use pow_server.Handler.{Libraries}
use pow_server.Handler.Racing.{Racing, Prepared, queue_job, post_task, on_queue, on_post}
use pow_server.Handler.Racing.Steps.{queues, posts, Reach, later}

module _ {Double Float Tree : Type 0} (lib : Libraries Double Float Tree) (config : Config) where
  -- Two threads are about to queue their jobs, and neither a job nor a lambda waits.
  abbrev pub two_prepared : Racing Double → Prepared Double → Prepared Double → Racing Double
  two_prepared s q p = record s {
    system = record s.system { handler = record s.system.handler { jobs = []; posted = [] } };
    preparing = q ∷ p ∷ [];
    posting = [];
  }

  -- When two threads are about to queue their jobs, of which that of `p` need not wait for that of
  -- `q`, neither a job nor a lambda waits, and the limit leaves room for both, the threads can take
  -- turns so that the lambda of `q` is the first that waits and the job of `p` the first to be
  -- served.
  pub swapped_lem :
      (s : Racing Double) (q p : Prepared Double)
      → Reach lib config (two_prepared s q p)
      → less p.job q.job ≡ false
      → 2 ≤ config.server.request_limit
      → (t : Racing Double) × Reach lib config t
        × (t.preparing ≡ [])
        × (t.posting ≡ [])
        × (t.system.handler.posted ≡ q.task ∷ p.task ∷ [])
        × (pop_job t.system.handler.jobs ≡ some (p.job, q.job ∷ []))
  unfolding on_queue on_post queue_job post_task push pop_job take_top
  swapped_lem s q p r later_served room =
      let one : ltb 0 config.server.request_limit ≡ true = lt→ltb _ _ (omega arith) in
      let two : ltb 1 config.server.request_limit ≡ true = lt→ltb _ _ (omega arith) in
      let began = later r (queues [] q (p ∷ []) refl) in
      let first = rw one at began in
      let ended = later first (queues [] p [] refl) in
      let both = rw two at ended in
      let posted = later both (posts (p.task ∷ []) q.task [] refl) in
      (_, later posted (posts [] p.task [] refl), refl, refl, refl, rw later_served refl)
