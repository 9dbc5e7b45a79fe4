-- ===== src/Web/Pipeline/Racing.antt =====
-- src/workserver/webserver.hpp: http_session::queue by the strand and by the threads of the pool.
-- queue::operator () is called without the strand, and nothing locks the queue, so its push_back and
-- its test, and the erase and the test of on_write, are steps between which the others run.
use pow_server.Prelude.{
  ℕ, ◌+◌, ◌-◌, ◌≤◌, ◌<◌, ◌≡◌, ◌∙◌, ap, refl, take, length-append, true, false, Bool, List, [], ◌∷◌,
  ◌++◌, Option, none, some, Text, ◌==◌, if◌then◌else◌, is_nil, length, drop, arith, append_assoc,
}
use pow_server.Web.Pipeline.{
  Pipeline, respond, on_write, start_front, queue_on_write, is_full, read,
}
use pow_server.Web.Pipeline.History.{History}
use pow_server.Web.Pipeline.Order.{HasOrder, Reach-IsInOrder}
use pow_server.Web.Pipeline.History as Serial

-- `items_.push_back`
unfoldable pub push_item : Text → Pipeline → Pipeline
push_item msg p = record p { items = p.items ++ msg ∷ [] }

-- `if (items_.size () == 1)`, behind it
unfoldable pub start_single : Pipeline → Pipeline
unfolding start_front
start_single p = if length p.items == 1 then start_front p else p

-- on_write up to the erase, and whether the queue was full
unfoldable pub erase_front : Pipeline → Pipeline × Bool
unfolding is_full
erase_front p = (record p { items = drop 1 p.items }, is_full p)

-- The rest of on_write, and the read that follows it.
unfoldable pub start_next : Bool → Pipeline → Pipeline
unfolding start_front read
start_next was_full p =
    let q = if is_nil p.items then p else start_front p in if was_full then read q else q

-- A call is its two steps in a row.
pub in_a_row :
    (msg : Text) (p : Pipeline)
    → (respond msg p ≡ start_single (push_item msg p))
      × (on_write false p ≡ start_next (erase_front p).1 (erase_front p).0)
unfolding respond on_write queue_on_write push_item start_single erase_front start_next
in_a_row msg p = (refl, refl)

-- A session, with how many threads of the pool have pushed a response and are to test, and whether
-- on_write has erased one and is to test.
pub record Racing : Type 0 where
  pub history : History
  pub pushed : ℕ
  pub erased : Option Bool

abbrev pub alone : History → Racing
alone s = record { history = s; pushed = 0; erased = none }

-- A step of the strand that is not between the two of on_write, or a whole call of another thread; or
-- one of the steps of a call. Only a write that was started comes out well.
pub data Step (s : Racing) : Racing → Type 0 where
  whole :
      {t : History}
      → s.erased ≡ none
      → Serial.Step s.history t
      → length t.written ≤ length s.history.pipeline.started
      → Step s (record s { history = t })
  pushes :
      (msg : Text)
      → Step s (record s {
        history = record s.history {
          pipeline = push_item msg s.history.pipeline;
          responses = s.history.responses ++ msg ∷ [];
        };
        pushed = s.pushed + 1;
      })
  tests :
      0 < s.pushed
      → Step s (record s {
        history = record s.history { pipeline = start_single s.history.pipeline };
        pushed = s.pushed - 1;
      })
  erases :
      (first : Text) (rest : List Text)
      → s.erased ≡ none
      → s.history.stalled ≡ false
      → s.history.pipeline.items ≡ first ∷ rest
      → length s.history.written < length s.history.pipeline.started
      → Step s (record s {
        history = record s.history {
          pipeline = (erase_front s.history.pipeline).0;
          written = s.history.written ++ first ∷ [];
        };
        erased = some (erase_front s.history.pipeline).1;
      })
  goes_on :
      (was_full : Bool)
      → s.erased ≡ some was_full
      → Step s (record s {
        history = record s.history { pipeline = start_next was_full s.history.pipeline };
        erased = none;
      })

pub data Reach : Racing → Type 0 where
  initial : Reach (alone Serial.init)
  later : {s t : Racing} → Reach s → Step s t → Reach t

started_lem :
    (s : History)
    → HasOrder s
    → length s.pipeline.started ≡ length s.written + length (take 1 s.pipeline.items)
started_lem s v = ap length v.one_write ∙ length-append s.written (take 1 s.pipeline.items)

-- While calls do not overlap, a write that comes out well was started.
Step-started :
    {s t : History} → Serial.Step s t → HasOrder s → length t.written ≤ length s.pipeline.started
Step-started {s} (Serial.read_done answer busy) v = omega (arith, started_lem s v)
Step-started {s} (Serial.read_begins busy) v = omega (arith, started_lem s v)
Step-started {s} (Serial.read_goes_on handles) v = omega (arith, started_lem s v)
Step-started {s} (Serial.read_ended close busy) v = omega (arith, started_lem s v)
Step-started {s} (Serial.respond_later msg) v = omega (arith, started_lem s v)
Step-started {s} (Serial.write_fails going) v = omega (arith, started_lem s v)
Step-started {s} (Serial.write_done true first rest going split) v = omega (arith, started_lem s v)
Step-started {s} (Serial.write_done false first rest going split) v =
    let one : length (take 1 s.pipeline.items) ≡ 1 = rw split refl in
    omega (arith, started_lem s v, length-append s.written (first ∷ []), one)

-- The histories whose calls do not overlap are among these.
pub Reach-Reach : {s : History} → Serial.Reach s → Reach (alone s)
Reach-Reach Serial.initial = initial
Reach-Reach (Serial.later r st) =
    later (Reach-Reach r) (whole refl st (Step-started st (Reach-IsInOrder r)))

-- A session whose only response is at the front.
abbrev pub one_waits : Racing → Text → Racing
one_waits s first = record s {
  history = record s.history {
    pipeline = record s.history.pipeline { items = first ∷ [] };
    stalled = false;
  };
  erased = none;
}

-- If one response is queued and a write is under way, and a thread of the pool gives another
-- response, the threads can take turns so that the write of this one is started twice, behind the end
-- of the first write and with none of the two complete.
pub doubled_lem :
    (s : Racing) (first msg : Text)
    → Reach (one_waits s first)
    → length s.history.written < length s.history.pipeline.started
    → (t : Racing) × Reach t
      × (t.history.pipeline.items ≡ msg ∷ [])
      × (t.history.pipeline.started ≡ s.history.pipeline.started ++ msg ∷ msg ∷ [])
      × (t.history.written ≡ s.history.written ++ first ∷ [])
unfolding push_item start_single erase_front start_next start_front is_full read
doubled_lem s first msg r writes =
    let erased = later r (erases first [] refl refl refl writes) in
    let pushed = later erased (pushes msg) in
    let next = later pushed (goes_on _ refl) in
    let twice = later next (tests (omega arith)) in
    (_, twice, refl, append_assoc s.history.pipeline.started (msg ∷ []) (msg ∷ []), refl)
