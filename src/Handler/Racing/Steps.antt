-- ===== src/Handler/Racing/Steps.antt =====
-- src/workserver/work_handler.cpp: the steps of the threads of the web server and of the pool, in any
-- order.
use pow_server.Prelude.{ℕ, ◌<◌, ◌≡◌, List, [], ◌∷◌, ◌++◌, none, some, Text, length}
use pow_server.Config.{Config}
use pow_server.Handler.{Libraries, PoolTask}
use pow_server.Handler.Racing.{Racing, Prepared, prepare, on_prepare, on_queue, on_post}
use pow_server.Handler.Racing.Lambdas.{
  threads, on_lambda, on_pop, on_driver, on_insert, on_respond, on_release, on_complete,
}
use pow_server.Handler.Stages.{Popped}
use pow_server.Handler.System.{System, on_request, on_delete, init}
use pow_server.Handler.Task.{Running}

module _ {Double Float Tree : Type 0} (lib : Libraries Double Float Tree) (config : Config) where
  -- A request that is no work_generate, or one that is refused before its job is queued, is one
  -- step; a work_generate is three. The pool has as many threads as there are devices. The queue is
  -- deleted between these steps.
  pub data Step (s : Racing Double) : Racing Double → Type 0 where
    requests :
        (body : Text) (client : ℕ)
        → prepare lib config body client s.system.handler ≡ none
        → Step s (record s { system = on_request lib config body client s.system })
    prepares :
        (body : Text) (client : ℕ) (p : Prepared Double)
        → prepare lib config body client s.system.handler ≡ some p
        → Step s (on_prepare lib config client p s)
    queues :
        (before : List (Prepared Double)) (p : Prepared Double) (after : List (Prepared Double))
        → s.preparing ≡ before ++ p ∷ after
        → Step s (on_queue lib config before p after s)
    posts :
        (before : List PoolTask) (t : PoolTask) (after : List PoolTask)
        → s.posting ≡ before ++ t ∷ after
        → Step s (on_post lib config before t after s)
    takes :
        (t : PoolTask) (rest : List PoolTask)
        → s.system.handler.posted ≡ t ∷ rest
        → threads s < length config.devices
        → Step s (on_lambda lib config t rest s)
    pops :
        (before : List PoolTask) (t : PoolTask) (after : List PoolTask)
        → s.lambdas ≡ before ++ t ∷ after
        → Step s (on_pop lib config before t after s)
    finds :
        (now : ℕ) (before : List (Popped Double)) (p : Popped Double) (after : List (Popped Double))
        → s.popped ≡ before ++ p ∷ after
        → Step s (on_driver lib config now before p after s)
    inserts :
        (before : List (Running Double)) (r : Running Double) (after : List (Running Double))
        → s.armed ≡ before ++ r ∷ after
        → Step s (on_insert lib config before r after s)
    responds :
        (before : List (Running Double)) (r : Running Double) (after : List (Running Double))
        → s.system.running ≡ before ++ r ∷ after
        → Step s (on_respond lib config before r after s)
    releases :
        (before : List (Running Double)) (r : Running Double) (after : List (Running Double))
        → s.answered ≡ before ++ r ∷ after
        → Step s (on_release lib config before r after s)
    completes :
        (now : ℕ) (before : List (Running Double)) (r : Running Double)
        (after : List (Running Double))
        → s.released ≡ before ++ r ∷ after
        → Step s (on_complete lib config now before r after s)
    deletes : (client : ℕ) → Step s (record s { system = on_delete lib config client s.system })

  -- The handler while no thread is in the middle of a step of its own.
  abbrev pub alone : System Double → Racing Double
  alone s = record {
    system = s;
    preparing = [];
    posting = [];
    lambdas = [];
    popped = [];
    armed = [];
    answered = [];
    released = [];
  }

  pub data Reach : Racing Double → Type 0 where
    initial : Reach (alone (init lib config))
    later : {s t : Racing Double} → Reach s → Step s t → Reach t
