-- ===== src/Web/Socket.antt =====
-- src/workserver/webserver.hpp: websocket_session, its send queue and its pings. Whether a write
-- fails and the test of the deadline are arguments.
pub mod Queued
pub mod History
pub mod Stuck
mod Tests
use pow_server.Prelude.{
  ℕ, ◌+◌, ◌-◌, ◌≡◌, refl, Bool, true, false, not, ◌&&◌, List, [], ◌∷◌, ◌++◌, Text, ◌==◌,
  if◌then◌else◌, is_nil, take, drop, arith, Bool-cases, inl, inr,
}
use pow_server.Web.Pipeline.{Pipeline, respond, queue_on_write, start_front}
use pow_server.Web.Pipeline.Order.{only_one}

-- `send_queue_`, `ping_state_`, whether the stream is open, and whether the timer has closed the
-- socket; the messages whose write was started, oldest first, and how many of these writes are
-- complete; whether the handshake is under way, and how many reads are.
pub record Socket : Type 0 where
  pub send_queue : List Text
  pub started : List Text
  pub completed : ℕ
  pub ping_state : ℕ
  pub accepting : Bool
  pub is_open : Bool
  pub reads : ℕ
  pub closed : Bool

-- write_queued_messages, up to the start of the write
unfoldable pub write_queued_messages : Socket → Socket
write_queued_messages s = record s { started = s.started ++ take 1 s.send_queue }

-- write_response: the lambda that is posted to the strand
unfoldable pub write_response : Text → Socket → Socket
unfolding write_queued_messages
write_response message s =
    let write_in_progress = not (is_nil s.send_queue) in
    let queued : Socket = record s { send_queue = s.send_queue ++ message ∷ [] } in
    if not write_in_progress then write_queued_messages queued else queued

-- The completion of a write.
unfoldable pub on_sent : Bool → Socket → Socket
unfolding write_queued_messages
on_sent failed s =
    let popped : Socket = record s {
      send_queue = drop 1 s.send_queue;
      completed = s.completed + 1;
    } in
    if failed
    then popped
    else if not (is_nil popped.send_queue)
    then write_queued_messages popped
    else popped

-- on_timer, when the wait ends or is aborted: `expired` is the test of the deadline.
unfoldable pub on_timer : Bool → Socket → Socket
on_timer expired s =
    if expired
    then if s.is_open && s.ping_state == 0
      then record s { ping_state = 1 }
      else record s { closed = true }
    else s

-- activity, which each control frame and each message calls
unfoldable pub activity : Socket → Socket
activity s = record s { ping_state = 0 }

-- on_ping, for a ping that was sent
unfoldable pub on_ping : Socket → Socket
on_ping s = if s.ping_state == 1 then record s { ping_state = 2 } else s

-- A websocket_session behind do_accept.
abbrev pub new_socket : Socket
new_socket = record {
  send_queue = [];
  started = [];
  completed = 0;
  ping_state = 0;
  accepting = true;
  is_open = false;
  reads = 0;
  closed = false;
}

-- on_accept: the stream is open once the handshake came out well.
unfoldable pub on_accept : Bool → Socket → Socket
on_accept failed s =
    if failed
    then record s { accepting = false }
    else record s { accepting = false; is_open = true; reads = s.reads + 1 }

-- on_read up to the handler, for a message
unfoldable pub begin_message : Socket → Socket
unfolding activity
begin_message s = activity (record s { reads = s.reads - 1 })

-- on_read behind the handler: another read.
unfoldable pub end_message : Socket → Socket
end_message s = record s { reads = s.reads + 1 }

-- on_read for a message, around its handler: write_response posts, so that what the handler writes
-- at once is queued behind on_read.
unfoldable pub on_message_read : Socket → Socket
unfolding begin_message end_message
on_message_read s = end_message (begin_message s)

-- on_read for a read that was aborted, or failed: nothing is read any more.
unfoldable pub on_read_failed : Socket → Socket
on_read_failed s = record s { reads = s.reads - 1 }

-- The send queue alone, as a queue of responses.
abbrev pub as_pipeline : Socket → Pipeline
as_pipeline s = record { items = s.send_queue; started = s.started; reads = 0; closed = false }

-- The send queue of a WebSocket session, as long as writes come out well, does what the queue of
-- an HTTP session does: it starts a write for an only message, and for the next one when a write
-- completes.
pub write_response-respond :
    (message : Text) (s : Socket)
    → (as_pipeline (write_response message s) ≡ respond message (as_pipeline s))
      × (as_pipeline (on_sent false s) ≡ (queue_on_write (as_pipeline s)).0)
unfolding write_response write_queued_messages respond on_sent queue_on_write start_front
write_response-respond message s = (
  elim (Bool-cases (is_nil s.send_queue)) [
    | inl empty ↦ ground (arith, only_one s.send_queue message)
    | inr busy ↦ ground (arith, only_one s.send_queue message)
  ],
  elim (Bool-cases (is_nil (drop 1 s.send_queue))) [
    | inl empty ↦ rw empty refl
    | inr more ↦ rw more refl
  ],
)

-- An open session that has just shown activity is not closed when the timer expires, but pinged;
-- if it shows none until the timer expires again, it is closed, whether or not the ping was sent.
pub on_timer-activity :
    (s : Socket) (sent : Bool)
    → s.is_open ≡ true
    → let pinged = on_timer true (activity s) in
      let waiting = if sent then on_ping pinged else pinged in
      (pinged.closed ≡ s.closed) × (pinged.ping_state ≡ 1) × ((on_timer true waiting).closed ≡ true)
unfolding on_timer activity on_ping
on_timer-activity s true h = ground arith
on_timer-activity s false h = ground arith
