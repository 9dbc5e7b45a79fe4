-- ===== src/Handler/Racing/Accounts.antt =====
-- src/workserver/work_handler.cpp: what each client is owed while threads take turns, and the steps
-- of the threads of the web server.
use pow_server.Prelude.{
  ℕ, ◌+◌, ◌≤◌, ◌≡◌, List, [], ◌∷◌, ◌++◌, Option, none, some, Text, codes, text_eq, ltb, ltb→lt,
  length, length-append, arith, Bool-cases, inl, inr,
}
use pow_server.Config.{Config}
use pow_server.JobQueue.{push}
use pow_server.Handler.{Libraries, Handler, PoolTask}
use pow_server.Handler.Accounting.{tally, tally-append, task_client, running_client}
use pow_server.Handler.Answers.{IsSystem}
use pow_server.Handler.Racing.{
  Racing, Prepared, prepare_job, prepare_action, prepare, prepared_client, on_prepare, on_queue,
  on_post, queue_job, post_task, dispense,
}
use pow_server.Handler.Racing.Cases.{length-split, tally-split}
use pow_server.Handler.Racing.Lambdas.{threads}
use pow_server.Handler.Stages.{Popped}

abbrev pub popped_client : {Double : Type 0} → Popped Double → ℕ
popped_client p = p.task.client

module _ {Double Float Tree : Type 0} (lib : Libraries Double Float Tree) (config : Config) where
  -- What a client is owed outside the handler: its jobs that are being queued, its lambdas that are
  -- being posted, and those that a thread has taken and that do not work yet.
  abbrev pub owed : Racing Double → ℕ → ℕ
  owed s c =
      tally prepared_client c s.preparing
      + tally task_client c s.posting
      + tally task_client c s.lambdas
      + tally popped_client c s.popped
      + tally running_client c s.armed

  -- A job has a lambda that waits, is being posted, or is about to pop a job.
  pub record IsRacing (s : Racing Double) : Type 0 where
    pub system : IsSystem lib config (length s.posting + length s.lambdas) (owed s) s.system
    pub working : threads s ≤ length config.devices

  prepare_job-client :
      (id : Option Text) (client : ℕ) (tree : Tree) (h : Handler Double) (p : Prepared Double)
      → prepare_job lib config id client tree h ≡ some p
      → p.task.client ≡ client
  unfolding prepare_job
  prepare_job-client id client tree h p e = ground arith

  prepare_action-client :
      (id : Option Text) (client : ℕ) (tree : Tree) (action : Option Text) (h : Handler Double)
      (p : Prepared Double)
      → prepare_action lib config id client tree action h ≡ some p
      → p.task.client ≡ client
  unfolding prepare_action
  prepare_action-client id client tree none h p e = ground arith
  prepare_action-client id client tree (some action) h p e =
      elim (Bool-cases (text_eq action (codes "work_generate"))) [
        | inl generates ↦ prepare_job-client id client tree h p (rw generates at e)
        | inr other ↦ ground arith
      ]

  -- The lambda of a request answers the client that asked.
  pub prepare-client :
      (body : Text) (client : ℕ) (h : Handler Double) (p : Prepared Double)
      → prepare lib config body client h ≡ some p
      → p.task.client ≡ client
  unfolding prepare
  prepare-client body client h p e = ground arith

  pub prepares-IsRacing :
      (client : ℕ) (p : Prepared Double) (s : Racing Double)
      → p.task.client ≡ client
      → IsRacing s
      → IsRacing (on_prepare lib config client p s)
  unfolding on_prepare dispense
  prepares-IsRacing client p s own v = record {
    system = record {
      handler = record {
        limited = v.system.handler.limited;
        covered = v.system.handler.covered;
        kept = v.system.handler.kept;
      };
      threads = v.system.threads;
      accounts = λ c. rw own (omega (arith, v.system.accounts c));
    };
    working = v.working;
  }

  pub queues-IsRacing :
      (before : List (Prepared Double)) (p : Prepared Double) (after : List (Prepared Double))
      (s : Racing Double)
      → s.preparing ≡ before ++ p ∷ after
      → IsRacing s
      → IsRacing (on_queue lib config before p after s)
  unfolding on_queue queue_job push
  queues-IsRacing before p after s split v =
      let moved = tally-split before p after split prepared_client in
      elim (Bool-cases (ltb (length s.system.handler.jobs) config.server.request_limit)) [
        | inl room ↦ rw room (record {
          system = record {
            handler = record {
              limited =
                  omega
                    (arith, ltb→lt (length s.system.handler.jobs) config.server.request_limit room);
              covered = omega (arith, v.system.handler.covered);
              kept = v.system.handler.kept;
            };
            threads = v.system.threads;
            accounts = λ c. omega (arith, v.system.accounts c, moved c);
          };
          working = v.working;
        })
        | inr full ↦ rw full (record {
          system = record {
            handler = v.system.handler;
            threads = v.system.threads;
            accounts = λ c. omega (arith, v.system.accounts c, moved c);
          };
          working = v.working;
        })
      ]

  pub posts-IsRacing :
      (before : List PoolTask) (t : PoolTask) (after : List PoolTask) (s : Racing Double)
      → s.posting ≡ before ++ t ∷ after
      → IsRacing s
      → IsRacing (on_post lib config before t after s)
  unfolding on_post post_task
  posts-IsRacing before t after s split v = record {
    system = record {
      handler = record {
        limited = v.system.handler.limited;
        covered = omega (
          arith,
          v.system.handler.covered,
          length-split before t after split,
          length-append s.system.handler.posted (t ∷ []),
        );
        kept = v.system.handler.kept;
      };
      threads = v.system.threads;
      accounts = λ c. omega (
        arith,
        v.system.accounts c,
        tally-split before t after split task_client c,
        tally-append task_client c s.system.handler.posted (t ∷ []),
      );
    };
    working = v.working;
  }
