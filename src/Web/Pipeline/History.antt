-- ===== src/Web/Pipeline/History.antt =====
-- src/workserver/webserver.hpp: the histories of an http_session behind run.
use pow_server.Prelude.{
  ℕ, ◌+◌, ◌-◌, ◌<◌, ◌≡◌, Bool, true, false, List, [], ◌∷◌, ◌++◌, Option, none, some, Text,
  if◌then◌else◌,
}
use pow_server.Web.Pipeline.{Pipeline, respond, on_write, on_read, accepted, begin_read, read_next}

-- A session with the responses that it was given, those that were written and erased, and the
-- number of its requests whose handler is not behind it; `stalled` says that a write ended without
-- the next one's start.
pub record History : Type 0 where
  pub pipeline : Pipeline
  pub responses : List Text
  pub written : List Text
  pub handling : ℕ
  pub stalled : Bool

abbrev pub of_answer : Option Text → List Text
of_answer none = []
of_answer (some msg) = msg ∷ []

-- graceful_shutdown
abbrev pub shut : Pipeline → Pipeline
shut p = record p { closed = true }

-- Each call of the queue is one step here, so these are the histories in which no two of them
-- overlap; Racing has the steps of a call apart. A request is read and its handler returns, or other
-- steps come before it does; a read ends otherwise, and the sending side may be shut down; a handler
-- that kept the session responds; a write comes out well, or not.
pub data Step (s : History) : History → Type 0 where
  read_done :
      (answer : Option Text)
      → 0 < s.pipeline.reads
      → Step s (record s {
        pipeline = on_read answer s.pipeline;
        responses = s.responses ++ of_answer answer;
      })
  read_begins :
      0 < s.pipeline.reads
      → Step s (record s { pipeline = begin_read s.pipeline; handling = s.handling + 1 })
  read_goes_on :
      0 < s.handling
      → Step s (record s { pipeline = read_next s.pipeline; handling = s.handling - 1 })
  read_ended :
      (close : Bool)
      → 0 < s.pipeline.reads
      → Step s (record s {
        pipeline = if close then shut (begin_read s.pipeline) else begin_read s.pipeline;
      })
  respond_later :
      (msg : Text)
      → Step s (record s { pipeline = respond msg s.pipeline; responses = s.responses ++ msg ∷ [] })
  write_done :
      (close : Bool) (first : Text) (rest : List Text)
      → s.stalled ≡ false
      → s.pipeline.items ≡ first ∷ rest
      → Step s (record s {
        pipeline = on_write close s.pipeline;
        written = if close then s.written else s.written ++ first ∷ [];
        stalled = close;
      })
  write_fails : s.stalled ≡ false → Step s (record s { stalled = true })

abbrev pub init : History
init = record { pipeline = accepted; responses = []; written = []; handling = 0; stalled = false }

pub data Reach : History → Type 0 where
  initial : Reach init
  later : {s t : History} → Reach s → Step s t → Reach t
