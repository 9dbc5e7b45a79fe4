-- ===== src/Handler/Racing/Settled.antt =====
-- src/workserver/work_handler.cpp: limits and answers over the histories in which the threads of
-- the web server and of the pool take turns.
use pow_server.Prelude.{ℕ, ◌≡◌, refl, ap, [], length, arith}
use pow_server.Config.{Config}
use pow_server.Handler.{Libraries}
use pow_server.Handler.Accounting.{tally, reply_client, task_client, running_client}
use pow_server.Handler.Answers.{nil_of_length, init-IsSystem, Step-IsSystem}
use pow_server.Handler.Racing.{Racing, prepared_client}
use pow_server.Handler.Racing.Lambdas.{threads}
use pow_server.Handler.Racing.Steps.{
  Step, requests, prepares, queues, posts, takes, pops, finds, inserts, responds, releases,
  completes, deletes, Reach, initial, later,
}
use pow_server.Handler.System.{System, request, delete, on_request, on_delete}
use pow_server.Handler.Racing.Accounts.{
  IsRacing, owed, popped_client, prepares-IsRacing, queues-IsRacing, posts-IsRacing, prepare-client,
}
use pow_server.Handler.Racing.Threads.{
  takes-IsRacing, pops-IsRacing, finds-IsRacing, inserts-IsRacing, responds-IsRacing,
  releases-IsRacing, completes-IsRacing,
}
use pow_server.Handler.System as HandlerSystem

module _ {Double Float Tree : Type 0} (lib : Libraries Double Float Tree) (config : Config) where
  -- A request and a deletion are steps of the handler with its pool.
  system-IsRacing :
      {t : System Double} (s : Racing Double)
      → HandlerSystem.Step lib config s.system t
      → t.running ≡ s.system.running
      → IsRacing lib config s
      → IsRacing lib config (record s { system = t })
  system-IsRacing s st same v = record {
    system = Step-IsSystem lib config _ (owed lib config s) st v.system;
    working = let running = ap length same in omega (arith, running, v.working);
  }

  Step-IsRacing :
      {s t : Racing Double} → Step lib config s t → IsRacing lib config s → IsRacing lib config t
  unfolding on_request on_delete
  Step-IsRacing {s} (requests body client whole) v =
      system-IsRacing s (HandlerSystem.request body client) refl v
  Step-IsRacing {s} (prepares body client p e) v =
      prepares-IsRacing lib config client p s
        (prepare-client lib config body client s.system.handler p e) v
  Step-IsRacing {s} (queues before p after split) v =
      queues-IsRacing lib config before p after s split v
  Step-IsRacing {s} (posts before t after split) v =
      posts-IsRacing lib config before t after s split v
  Step-IsRacing {s} (takes t rest split free) v = takes-IsRacing lib config t rest s split free v
  Step-IsRacing {s} (pops before t after split) v =
      pops-IsRacing lib config before t after s split v
  Step-IsRacing {s} (finds now before p after split) v =
      finds-IsRacing lib config now before p after s split v
  Step-IsRacing {s} (inserts before r after split) v =
      inserts-IsRacing lib config before r after s split v
  Step-IsRacing {s} (responds before r after split) v =
      responds-IsRacing lib config before r after s split v
  Step-IsRacing {s} (releases before r after split) v =
      releases-IsRacing lib config before r after s split v
  Step-IsRacing {s} (completes now before r after split) v =
      completes-IsRacing lib config before r after s now split v
  Step-IsRacing {s} (deletes client) v = system-IsRacing s (HandlerSystem.delete client) refl v

  pub Reach-IsRacing : {s : Racing Double} → Reach lib config s → IsRacing lib config s
  Reach-IsRacing initial = record { system = init-IsSystem lib config; working = omega arith }
  Reach-IsRacing (later r st) = Step-IsRacing st (Reach-IsRacing r)

  -- However the threads of the web server that construct jobs, queue them and post their lambdas
  -- take turns, with each other and with those of the pool that take and finish lambdas: once no
  -- thread has a job to queue or a lambda to post, and no lambda waits or runs, no job is left and
  -- each client has one answer for each request.
  pub settled_lem :
      {s : Racing Double}
      → Reach lib config s
      → s.preparing ≡ []
      → s.posting ≡ []
      → threads s ≡ 0
      → s.system.handler.posted ≡ []
      → (s.system.handler.jobs ≡ [])
        × ((c : ℕ)
            → tally reply_client c s.system.replies ≡ tally (λ client. client) c s.system.asked)
  settled_lem {s} r queued posted no_thread no_lambda =
      let v = (Reach-IsRacing r).system in
      let none_taken = nil_of_length s.lambdas (omega (arith, no_thread)) in
      let none_popped = nil_of_length s.popped (omega (arith, no_thread)) in
      let none_armed = nil_of_length s.armed (omega (arith, no_thread)) in
      let none_running = nil_of_length s.system.running (omega (arith, no_thread)) in
      (
        nil_of_length s.system.handler.jobs
            (omega (arith, v.handler.covered, ap length no_lambda, ap length posted, no_thread)),
        λ c. omega (
          arith,
          v.accounts c,
          ap (tally prepared_client c) queued,
          ap (tally task_client c) posted,
          ap (tally task_client c) none_taken,
          ap (tally popped_client c) none_popped,
          ap (tally running_client c) none_armed,
          ap (tally task_client c) no_lambda,
          ap (tally running_client c) none_running,
        ),
      )
