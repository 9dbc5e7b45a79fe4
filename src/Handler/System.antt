-- ===== src/Handler/System.antt =====
-- The handler with the threads of its pool: requests come in, threads take lambdas and finish
-- them, in any order. Each step runs alone, as the mutexes make it; Racing has the queueing of a
-- job and the post of its lambda as two steps.
use pow_server.Prelude.{ℕ, ◌<◌, ◌≡◌, List, [], ◌∷◌, ◌++◌, Text, Option, none, some, length}
use pow_server.Config.{Config}
use pow_server.Handler.{Libraries, Handler, Reply, new_handler}
use pow_server.Handler.Request.{handle_request_async}
use pow_server.Handler.Task.{Running, take_task, finish_task}
use pow_server.Handler.Reports.{handle_queue_delete_request}

-- `running` are the lambdas that threads work on; `asked` are the clients of the calls of
-- handle_request_async, and `replies` the calls of their response handlers.
pub record System (Double : Type 0) : Type 0 where
  pub handler : Handler Double
  pub running : List (Running Double)
  pub asked : List ℕ
  pub replies : List Reply

abbrev pub of_option {ℓ} : {A : Type ℓ} → Option A → List A
of_option none = []
of_option (some a) = a ∷ []

module _ {Double Float Tree : Type 0} (lib : Libraries Double Float Tree) (config : Config) where
  -- handle_request_async
  unfoldable pub on_request : Text → ℕ → System Double → System Double
  on_request body client s =
      let (h, answers) = handle_request_async lib config body client s.handler in
      record s { handler = h; asked = client ∷ s.asked; replies = answers ++ s.replies }

  -- A free thread takes the oldest lambda.
  unfoldable pub on_take : ℕ → System Double → System Double
  on_take now s =
      let (h, answers, taken) = take_task lib config now s.handler in
      record s {
        handler = h;
        running = of_option taken ++ s.running;
        replies = answers ++ s.replies;
      }

  -- The thread with the lambda `r` finishes it, those in `before` and `after` go on.
  unfoldable pub on_finish :
      ℕ
      → List (Running Double)
      → Running Double
      → List (Running Double)
      → System Double
      → System Double
  on_finish now before r after s =
      let (h, answers) = finish_task lib config now r s.handler in
      record s { handler = h; running = before ++ after; replies = answers ++ s.replies }

  -- handle_queue_delete_request; its own answer goes to whoever asked for it.
  unfoldable pub on_delete : ℕ → System Double → System Double
  on_delete client s = record s {
    handler = (handle_queue_delete_request lib config client s.handler).0;
  }

  -- The pool has as many threads as there are devices.
  pub data Step (s : System Double) : System Double → Type 0 where
    request : (body : Text) (client : ℕ) → Step s (on_request body client s)
    take : (now : ℕ) → length s.running < length config.devices → Step s (on_take now s)
    finish :
        (now : ℕ) (before : List (Running Double)) (r : Running Double)
        (after : List (Running Double))
        → s.running ≡ before ++ r ∷ after
        → Step s (on_finish now before r after s)
    delete : (client : ℕ) → Step s (on_delete client s)

  abbrev pub init : System Double
  init = record { handler = new_handler config; running = []; asked = []; replies = [] }

  pub data Reach : System Double → Type 0 where
    initial : Reach init
    later : {s t : System Double} → Reach s → Step s t → Reach t
