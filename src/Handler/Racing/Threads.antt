-- ===== src/Handler/Racing/Threads.antt =====
-- src/workserver/work_handler.cpp: the steps of the threads of the pool, and what each client is
-- owed.
use pow_server.Prelude.{ℕ, ◌<◌, ◌≡◌, ap, List, ◌∷◌, ◌++◌, length, arith, inl, inr}
use pow_server.Config.{Config}
use pow_server.Handler.{Libraries, PoolTask}
use pow_server.Handler.Accounting.{tally, task_client, running_client}
use pow_server.Handler.Limits.{length-push_back}
use pow_server.Handler.Racing.{Racing}
use pow_server.Handler.Racing.Cases.{
  length-split, tally-split, pop_top-cases, find_driver-cases, respond_with-cases,
}
use pow_server.Handler.Racing.Lambdas.{
  threads, on_lambda, on_pop, on_driver, on_insert, on_respond, on_release, on_complete,
}
use pow_server.Handler.Stages.{Popped, insert_job, release_device, complete}
use pow_server.Handler.Task.{Running, answer_error}
use pow_server.Handler.Racing.Accounts.{IsRacing, popped_client}
use pow_server.Job.{stop}

module _ {Double Float Tree : Type 0} (lib : Libraries Double Float Tree) (config : Config) where
  pub takes-IsRacing :
      (t : PoolTask) (rest : List PoolTask) (s : Racing Double)
      → s.system.handler.posted ≡ t ∷ rest
      → threads s < length config.devices
      → IsRacing lib config s
      → IsRacing lib config (on_lambda lib config t rest s)
  unfolding on_lambda
  takes-IsRacing t rest s split free v =
      let waited = ap length split in
      record {
        system = record {
          handler = record {
            limited = v.system.handler.limited;
            covered = omega (arith, v.system.handler.covered, waited);
            kept = v.system.handler.kept;
          };
          threads = v.system.threads;
          accounts = λ c. omega (arith, v.system.accounts c, ap (tally task_client c) split);
        };
        working = omega (arith, free);
      }

  pub pops-IsRacing :
      (before : List PoolTask) (t : PoolTask) (after : List PoolTask) (s : Racing Double)
      → s.lambdas ≡ before ++ t ∷ after
      → IsRacing lib config s
      → IsRacing lib config (on_pop lib config before t after s)
  unfolding on_pop answer_error
  pops-IsRacing before t after s split v =
      let moved = tally-split before t after split task_client in
      let fewer = length-split before t after split in
      elim (pop_top-cases lib config t s.system.handler) [
        | inl (empty, r) ↦
            let no_job = ap length empty in
            rw r (record {
              system = record {
                handler = record {
                  limited = v.system.handler.limited;
                  covered = omega (arith, no_job);
                  kept = v.system.handler.kept;
                };
                threads = v.system.threads;
                accounts = λ c. omega (arith, v.system.accounts c, moved c);
              };
              working = omega (arith, v.working, fewer);
            })
        | inr (j, rest, one, r) ↦ rw r (record {
          system = record {
            handler = record {
              limited = omega (arith, v.system.handler.limited, one);
              covered = omega (arith, v.system.handler.covered, one, fewer);
              kept = v.system.handler.kept;
            };
            threads = v.system.threads;
            accounts = λ c. omega (arith, v.system.accounts c, moved c);
          };
          working = omega (arith, v.working, fewer);
        })
      ]

  pub finds-IsRacing :
      (now : ℕ) (before : List (Popped Double)) (p : Popped Double) (after : List (Popped Double))
      (s : Racing Double)
      → s.popped ≡ before ++ p ∷ after
      → IsRacing lib config s
      → IsRacing lib config (on_driver lib config now before p after s)
  unfolding on_driver answer_error
  finds-IsRacing now before p after s split v =
      let moved = tally-split before p after split popped_client in
      let fewer = length-split before p after split in
      let h = v.system.handler in
      elim (find_driver-cases lib config now p s.system.handler) [
        | inl (e, missing, r) ↦ rw r (record {
          system = record {
            handler = record { limited = h.limited; covered = h.covered; kept = h.kept };
            threads = v.system.threads;
            accounts = λ c. omega (arith, v.system.accounts c, moved c);
          };
          working = omega (arith, v.working, fewer);
        })
        | inr (i, found, r) ↦ rw r (record {
          system = record {
            handler = record { limited = h.limited; covered = h.covered; kept = h.kept };
            threads = v.system.threads;
            accounts = λ c. omega (arith, v.system.accounts c, moved c);
          };
          working = omega (arith, v.working, fewer);
        })
      ]

  module _ (before : List (Running Double)) (r : Running Double) (after : List (Running Double))
      (s : Racing Double) where
    pub inserts-IsRacing :
        s.armed ≡ before ++ r ∷ after
        → IsRacing lib config s
        → IsRacing lib config (on_insert lib config before r after s)
    unfolding on_insert insert_job
    inserts-IsRacing split v =
        let fewer = length-split before r after split in
        let h = v.system.handler in
        record {
          system = record {
            handler = record { limited = h.limited; covered = h.covered; kept = h.kept };
            threads = omega (arith, v.working, fewer);
            accounts = λ c.
                omega
                  (arith, v.system.accounts c, tally-split before r after split running_client c);
          };
          working = omega (arith, v.working, fewer);
        }

    pub responds-IsRacing :
        s.system.running ≡ before ++ r ∷ after
        → IsRacing lib config s
        → IsRacing lib config (on_respond lib config before r after s)
    unfolding on_respond answer_error
    responds-IsRacing split v =
        let moved = tally-split before r after split running_client in
        let fewer = length-split before r after split in
        elim (respond_with-cases lib config r) [
          | inl (e, bad, result) ↦ rw result (record {
            system = record {
              handler = v.system.handler;
              threads = omega (arith, v.system.threads, fewer);
              accounts = λ c. omega (arith, v.system.accounts c, moved c);
            };
            working = omega (arith, v.working, fewer);
          })
          | inr (body, j, result) ↦ rw result (record {
            system = record {
              handler = v.system.handler;
              threads = omega (arith, v.system.threads, fewer);
              accounts = λ c. omega (arith, v.system.accounts c, moved c);
            };
            working = omega (arith, v.working, fewer);
          })
        ]

    pub releases-IsRacing :
        s.answered ≡ before ++ r ∷ after
        → IsRacing lib config s
        → IsRacing lib config (on_release lib config before r after s)
    unfolding on_release release_device
    releases-IsRacing split v =
        let h = v.system.handler in
        record {
          system = record {
            handler = record { limited = h.limited; covered = h.covered; kept = h.kept };
            threads = v.system.threads;
            accounts = λ c. omega (arith, v.system.accounts c);
          };
          working = omega (arith, v.working, length-split before r after split);
        }

    pub completes-IsRacing :
        (now : ℕ)
        → s.released ≡ before ++ r ∷ after
        → IsRacing lib config s
        → IsRacing lib config (on_complete lib config now before r after s)
    unfolding on_complete complete
    completes-IsRacing now split v =
        let h = v.system.handler in
        record {
          system = record {
            handler = record {
              limited = h.limited;
              covered = h.covered;
              kept =
                  length-push_back lib config s.system.handler.completed_jobs (stop now r.job)
                    h.kept;
            };
            threads = v.system.threads;
            accounts = λ c. omega (arith, v.system.accounts c);
          };
          working = omega (arith, v.working, length-split before r after split);
        }
