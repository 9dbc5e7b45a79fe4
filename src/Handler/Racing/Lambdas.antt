-- ===== src/Handler/Racing/Lambdas.antt =====
-- src/workserver/work_handler.cpp: the threads of the pool, each a step further with its lambda.
use pow_server.Prelude.{ℕ, ◌+◌, List, ◌∷◌, ◌++◌, length}
use pow_server.Config.{Config}
use pow_server.Handler.{Libraries, PoolTask}
use pow_server.Handler.Racing.{Racing}
use pow_server.Handler.Stages.{
  Popped, pop_top, find_driver, insert_job, respond_with, release_device, complete,
}
use pow_server.Handler.System.{of_option}
use pow_server.Handler.Task.{Running}

-- How many threads of the pool are at work.
abbrev pub threads : {Double : Type 0} → Racing Double → ℕ
threads s =
    length s.lambdas
    + length s.popped
    + length s.armed
    + length s.system.running
    + length s.answered
    + length s.released

module _ {Double Float Tree : Type 0} (lib : Libraries Double Float Tree) (config : Config) where
  -- A thread takes the oldest lambda; `rest` wait on.
  unfoldable pub on_lambda : PoolTask → List PoolTask → Racing Double → Racing Double
  on_lambda t rest s = record s {
    system = record s.system { handler = record s.system.handler { posted = rest } };
    lambdas = t ∷ s.lambdas;
  }

  unfoldable pub on_pop : List PoolTask → PoolTask → List PoolTask → Racing Double → Racing Double
  on_pop before t after s =
      let (h, answers, left) = pop_top lib config t s.system.handler in
      record s {
        system = record s.system { handler = h; replies = answers ++ s.system.replies };
        lambdas = before ++ after;
        popped = of_option left ++ s.popped;
      }

  unfoldable pub on_driver :
      ℕ
      → List (Popped Double)
      → Popped Double
      → List (Popped Double)
      → Racing Double
      → Racing Double
  on_driver now before p after s =
      let (h, answers, left) = find_driver lib config now p s.system.handler in
      record s {
        system = record s.system { handler = h; replies = answers ++ s.system.replies };
        popped = before ++ after;
        armed = of_option left ++ s.armed;
      }

  unfoldable pub on_insert :
      List (Running Double) → Running Double → List (Running Double) → Racing Double → Racing Double
  on_insert before r after s = record s {
    system = record s.system {
      handler = insert_job lib config r s.system.handler;
      running = r ∷ s.system.running;
    };
    armed = before ++ after;
  }

  unfoldable pub on_respond :
      List (Running Double) → Running Double → List (Running Double) → Racing Double → Racing Double
  on_respond before r after s =
      let (answers, left) = respond_with lib config r in
      record s {
        system = record s.system {
          running = before ++ after;
          replies = answers ++ s.system.replies;
        };
        answered = of_option left ++ s.answered;
      }

  unfoldable pub on_release :
      List (Running Double) → Running Double → List (Running Double) → Racing Double → Racing Double
  on_release before r after s = record s {
    system = record s.system { handler = release_device lib config r s.system.handler };
    answered = before ++ after;
    released = r ∷ s.released;
  }

  unfoldable pub on_complete :
      ℕ
      → List (Running Double)
      → Running Double
      → List (Running Double)
      → Racing Double
      → Racing Double
  on_complete now before r after s = record s {
    system = record s.system { handler = complete lib config now r s.system.handler };
    released = before ++ after;
  }
