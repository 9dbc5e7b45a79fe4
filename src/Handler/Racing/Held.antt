-- ===== src/Handler/Racing/Held.antt =====
-- src/workserver/work_handler.cpp: the busy flags of the devices and the lambdas that hold them, while
-- the threads of the pool take turns and no work throws.
use pow_server.Prelude.{
  ℕ, ◌+◌, ◌≡◌, ◌∙◌, refl, sym, ap, true, inl, inr, List, ◌∷◌, ◌++◌, Text, Error, Result, err, ltb,
  length, length-append, arith, Bool-cases,
}
use pow_server.Config.{Config}
use pow_server.Devices.{RegisteredDevice}
use pow_server.Devices.Acquire.{aquire-Takes}
use pow_server.Devices.Busy.{
  busy_at, busy_at-le_one, busy_at-marked, busy_at-release, length-release_at,
  busy_at-register_devices, length-register_devices,
}
use pow_server.Job.{Job}
use pow_server.Handler.{Libraries, Handler, new_handler}
use pow_server.Handler.Accounting.{tally}
use pow_server.Handler.Outcome.{
  queued, refused, refused_job, answered, removed, handle_request-Outcome,
}
use pow_server.Handler.Racing.{
  Racing, on_prepare, on_queue, on_post, queue_job, post_task, dispense,
}
use pow_server.Handler.Racing.Cases.{tally-split, pop_top-cases, respond_with-cases}
use pow_server.Handler.Racing.Lambdas.{
  on_lambda, on_pop, on_driver, on_insert, on_respond, on_release, on_complete,
}
use pow_server.Handler.Racing.Steps.{
  Step, requests, prepares, queues, posts, takes, pops, finds, inserts, responds, releases,
  completes, deletes, Reach, initial, later,
}
use pow_server.Handler.Request.{handle_request_async}
use pow_server.Handler.Reports.{handle_queue_delete_request}
use pow_server.Handler.Stages.{Popped, find_driver, insert_job, release_device, complete}
use pow_server.Handler.System.{on_request, on_delete}
use pow_server.Handler.Task.{Running, work_result}

abbrev pub device_of : {Double : Type 0} → Running Double → ℕ
device_of r = r.device

-- How many lambdas hold the device `i`: those that found it and did not release it.
abbrev pub holders : {Double : Type 0} → Racing Double → ℕ → ℕ
holders s i =
    tally device_of i s.armed + tally device_of i s.system.running + tally device_of i s.answered

module _ {Double Float Tree : Type 0} (lib : Libraries Double Float Tree) (config : Config) where
  -- A device is busy for the one lambda that holds it, and the devices are those configured.
  pub record IsHeld (s : Racing Double) : Type 0 where
    pub held : (i : ℕ) → busy_at s.system.handler.devices i ≡ holders s i
    pub registered : length s.system.handler.devices ≡ length config.devices

  request-devices :
      (body : Text) (client : ℕ) (h : Handler Double)
      → (handle_request_async lib config body client h).0.devices ≡ h.devices
  request-devices body client h = elim (handle_request-Outcome lib config body client h) [
    | queued id asked_for j some_device good room e ↦ rw e refl
    | refused id e r ↦ rw r refl
    | refused_job id e r ↦ rw r refl
    | answered text r ↦ rw r refl
    | removed hash text r ↦ rw r refl
  ]

  delete-devices :
      (client : ℕ) (h : Handler Double)
      → (handle_queue_delete_request lib config client h).0.devices ≡ h.devices
  unfolding handle_queue_delete_request
  delete-devices client h = elim (Bool-cases config.server.allow_control) [
    | inl allowed ↦ rw allowed refl
    | inr denied ↦ rw denied refl
  ]

  -- What is kept when neither the devices nor their holders change.
  same-IsHeld :
      (s t : Racing Double)
      → t.system.handler.devices ≡ s.system.handler.devices
      → ((i : ℕ) → holders t i ≡ holders s i)
      → IsHeld s
      → IsHeld t
  same-IsHeld s t devices same v = record {
    held = λ i. ap (λ ds. busy_at ds i) devices ∙ v.held i ∙ sym (same i);
    registered = ap length devices ∙ v.registered;
  }

  queue-devices :
      (j : Job Double) (h : Handler Double) → (queue_job lib config j h).0.devices ≡ h.devices
  unfolding queue_job
  queue-devices j h = elim (Bool-cases (ltb (length h.jobs) config.server.request_limit)) [
    | inl room ↦ rw room refl
    | inr full ↦ rw full refl
  ]

  finds-IsHeld :
      (now : ℕ) (before : List (Popped Double)) (p : Popped Double) (after : List (Popped Double))
      (s : Racing Double)
      → IsHeld s
      → IsHeld (on_driver lib config now before p after s)
  unfolding on_driver find_driver
  finds-IsHeld now before p after s v = elim (aquire-Takes s.system.handler.devices) [
    | inl (all, r) ↦
        let same = ap (λ (x : List RegisteredDevice × Result ℕ). x.0) r in
        rw (r, on_driver, find_driver)
          (record {
            held = λ i. ap (λ ds. busy_at ds i) same ∙ v.held i;
            registered = ap length same ∙ v.registered;
          })
    | inr (ahead, d, behind, split, busy, free, r) ↦
        let same = ap length split in
        let taken = ap (λ (x : List RegisteredDevice × Result ℕ). x.0) r in
        let marked = ap length taken in
        rw (r, on_driver, find_driver)
          (record {
            held = λ i.
                let whole = ap (λ ds. busy_at ds i) split in
                let changed = ap (λ ds. busy_at ds i) taken in
                ground (arith, v.held i, whole, changed, busy_at-marked ahead d behind i free);
            registered = omega (
              arith,
              v.registered,
              same,
              marked,
              length-append ahead (d ∷ behind),
              length-append ahead (record d { busy = true } ∷ behind),
            );
          })
  ]

  releases-IsHeld :
      (before : List (Running Double)) (r : Running Double) (after : List (Running Double))
      (s : Racing Double)
      → s.answered ≡ before ++ r ∷ after
      → IsHeld s
      → IsHeld (on_release lib config before r after s)
  unfolding on_release release_device
  releases-IsHeld before r after s split v = record {
    held = λ i. ground (
      arith,
      v.held i,
      busy_at-le_one s.system.handler.devices i,
      busy_at-release s.system.handler.devices r.device i,
      tally-split before r after split device_of i,
    );
    registered = length-release_at s.system.handler.devices r.device ∙ v.registered;
  }

  module _
      (never_throws : (j : Job Double) (e : Error) → work_result lib config j ≡ err e → ⊥) where
    Step-IsHeld : {s t : Racing Double} → Step lib config s t → IsHeld s → IsHeld t
    unfolding on_request on_delete on_prepare dispense on_queue on_post post_task on_lambda on_pop
        on_insert insert_job on_respond on_complete complete
    Step-IsHeld {s} (requests body client whole) v =
        same-IsHeld s _ (request-devices body client s.system.handler) (λ i. refl) v
    Step-IsHeld {s} (prepares body client p e) v = same-IsHeld s _ refl (λ i. refl) v
    Step-IsHeld {s} (queues before p after split) v =
        same-IsHeld s _ (queue-devices p.job s.system.handler) (λ i. refl) v
    Step-IsHeld {s} (posts before t after split) v = same-IsHeld s _ refl (λ i. refl) v
    Step-IsHeld {s} (takes t rest split free) v = same-IsHeld s _ refl (λ i. refl) v
    Step-IsHeld {s} (pops before t after split) v =
        elim (pop_top-cases lib config t s.system.handler) [
          | inl (empty, r) ↦ rw r (same-IsHeld s _ refl (λ i. refl) v)
          | inr (j, rest, one, r) ↦ rw r (same-IsHeld s _ refl (λ i. refl) v)
        ]
    Step-IsHeld {s} (finds now before p after split) v = finds-IsHeld now before p after s v
    Step-IsHeld {s} (inserts before r after split) v =
        same-IsHeld s _ refl
          (λ i. let moved = tally-split before r after split device_of i in omega (arith, moved)) v
    Step-IsHeld {s} (responds before r after split) v = elim (respond_with-cases lib config r) [
      | inl (e, bad, result) ↦ absurd (never_throws r.job e bad)
      | inr (body, j, result) ↦ rw result (
          same-IsHeld s _ refl
            (λ i. let moved = tally-split before r after split device_of i in omega (arith, moved))
            v)
    ]
    Step-IsHeld {s} (releases before r after split) v = releases-IsHeld before r after s split v
    Step-IsHeld {s} (completes now before r after split) v = same-IsHeld s _ refl (λ i. refl) v
    Step-IsHeld {s} (deletes client) v =
        same-IsHeld s _ (delete-devices client s.system.handler) (λ i. refl) v

    pub Reach-IsHeld : {s : Racing Double} → Reach lib config s → IsHeld s
    unfolding new_handler
    Reach-IsHeld initial = record {
      held = busy_at-register_devices config.devices;
      registered = length-register_devices config.devices;
    }
    Reach-IsHeld (later r st) = Step-IsHeld st (Reach-IsHeld r)
