-- ===== src/Web/Socket/History.antt =====
-- src/workserver/webserver.hpp: the histories of a websocket_session behind do_accept. The strand
-- makes each completion one step.
use pow_server.Prelude.{
  ◌+◌, ◌<◌, ◌≤◌, ◌≡◌, refl, sym, ap, subst, Bool, true, false, List, [], ◌∷◌, ◌++◌, Text, arith,
  length, append-nil, Bool-cases, inl, inr, list_cases,
}
use pow_server.Web.Socket.{
  Socket, new_socket, write_response, write_queued_messages, on_sent, on_timer, activity, on_ping,
  on_accept, on_message_read, on_read_failed,
}
use pow_server.Web.Socket.Queued.{
  IsQueued, first-IsQueued, behind-IsQueued, stop-IsQueued, next-IsQueued,
}

-- The handshake ends; a message is read, or a read fails; a handler responds; a write ends, well or
-- not; the timer's wait or a ping ends; a control frame comes. The list has the messages that the
-- session is given.
pub data Step (s : Socket) : List Text → Socket → Type 0 where
  accepts : (failed : Bool) → s.accepting ≡ true → Step s [] (on_accept failed s)
  reads_message : 0 < s.reads → Step s [] (on_message_read s)
  read_fails : 0 < s.reads → Step s [] (on_read_failed s)
  responds : (message : Text) → Step s (message ∷ []) (write_response message s)
  write_ends : (failed : Bool) → s.completed < length s.started → Step s [] (on_sent failed s)
  waits : (expired : Bool) → Step s [] (on_timer expired s)
  pinged : Step s [] (on_ping s)
  control_frame : Step s [] (activity s)

pub data Reach : List Text → Socket → Type 0 where
  initial : Reach [] new_socket
  later :
      {given more : List Text} {s t : Socket}
      → Reach given s
      → Step s more t
      → Reach (given ++ more) t

-- One operation at a time of each kind that beast allows once: at most one read, none before the
-- handshake is complete, and at most one write, whose message is at the front of the queue. No
-- message is lost or reordered.
pub record IsSound (given : List Text) (s : Socket) : Type 0 where
  pub one_read : s.reads ≤ 1
  pub read_after : s.accepting ≡ true → s.reads ≡ 0
  pub queued : IsQueued given s.started s.completed s.send_queue

-- The handshake and the reads.
abbrev IsReading : Socket → Type 0
IsReading s = (s.reads ≤ 1) × (s.accepting ≡ true → s.reads ≡ 0)

abbrev IsSending : List Text → Socket → Type 0
IsSending given s = IsQueued given s.started s.completed s.send_queue

Step-IsReading : {s t : Socket} {more : List Text} → Step s more t → IsReading s → IsReading t
unfolding on_accept on_message_read on_read_failed write_response write_queued_messages on_sent
    on_timer on_ping activity
Step-IsReading {s} (accepts failed still) v = ground arith
Step-IsReading {s} (reads_message busy) v = ground arith
Step-IsReading {s} (read_fails busy) v = ground arith
Step-IsReading {s} (responds message) v = ground arith
Step-IsReading {s} (write_ends failed busy) v = ground arith
Step-IsReading {s} (waits expired) v = ground arith
Step-IsReading {s} pinged v = ground arith
Step-IsReading control_frame v = v

-- The queue of the session as a list that the cases of a lemma know.
with_queue : List Text → Socket → Socket
with_queue q s = record s { send_queue = q }

responds-IsSending :
    (m : Text) (given : List Text) (s : Socket)
    → IsSending given s
    → IsSending (given ++ m ∷ []) (write_response m s)
unfolding write_response write_queued_messages with_queue
responds-IsSending m given s v =
    let responds : List Text → Type 0 =
      λ q. IsSending (given ++ m ∷ []) (write_response m (with_queue q s)) in
    let queued : List Text → Type 0 = λ q. IsQueued given s.started s.completed q in
    elim (list_cases s.send_queue) [
      | inl e ↦
          subst responds (sym e) (first-IsQueued given s.started s.completed m (subst queued e v))
      | inr (x, q, e) ↦
          subst responds (sym e)
            (behind-IsQueued given s.started s.completed m x q (subst queued e v))
    ]

write_ends-IsSending :
    (failed : Bool) (given : List Text) (s : Socket)
    → s.completed < length s.started
    → IsSending given s
    → IsSending given (on_sent failed s)
unfolding on_sent write_queued_messages with_queue
write_ends-IsSending failed given s busy v =
    let ends : Bool → List Text → Type 0 =
      λ failed q. IsSending given (on_sent failed (with_queue q s)) in
    let queued : List Text → Type 0 = λ q. IsQueued given s.started s.completed q in
    elim (list_cases s.send_queue) [
      | inl e ↦ absurd (omega (arith, v.has_front busy, ap length e))
      | inr (x, q, e) ↦
          let stopped = stop-IsQueued given s.started s.completed x q busy (subst queued e v) in
          subst (ends failed) (sym e) (elim (Bool-cases failed) [
            | inl fails ↦ subst (λ b. ends b (x ∷ q)) (sym fails) stopped
            | inr sent ↦
                subst (λ b. ends b (x ∷ q)) (sym sent)
                  (elim (list_cases q) [
                    | inl last ↦
                        subst (λ t. ends false (x ∷ t)) (sym last)
                          (subst (λ t. IsQueued given s.started (s.completed + 1) t) last stopped)
                    | inr (y, t, more) ↦
                        subst (λ t. ends false (x ∷ t)) (sym more)
                          (next-IsQueued given s.started s.completed x y t busy
                            (subst (λ t. queued (x ∷ t)) more (subst queued e v)))
                  ])
          ])
    ]

-- A step that gives nothing and leaves the queue as it is.
kept-IsSending :
    (given : List Text) (s t : Socket)
    → t.started ≡ s.started
    → t.completed ≡ s.completed
    → t.send_queue ≡ s.send_queue
    → IsSending given s
    → IsSending given t
kept-IsSending given s t started completed queue v =
    subst (λ q. IsQueued given t.started t.completed q) (sym queue)
      (subst (λ c. IsQueued given t.started c s.send_queue) (sym completed)
        (subst (λ l. IsQueued given l s.completed s.send_queue) (sym started) v))

Step-IsSending :
    {s t : Socket} {more : List Text} (given : List Text)
    → Step s more t
    → IsSending given s
    → IsSending (given ++ more) t
unfolding on_accept on_message_read on_read_failed on_timer on_ping activity
Step-IsSending {s} given (accepts failed still) v =
    rw (append-nil given)
      (kept-IsSending given s (on_accept failed s) (ground arith) (ground arith) (ground arith) v)
Step-IsSending {s} given (reads_message busy) v = rw (append-nil given) v
Step-IsSending {s} given (read_fails busy) v = rw (append-nil given) v
Step-IsSending {s} given (responds message) v = responds-IsSending message given s v
Step-IsSending {s} given (write_ends failed busy) v =
    rw (append-nil given) (write_ends-IsSending failed given s busy v)
Step-IsSending {s} given (waits expired) v =
    rw (append-nil given)
      (kept-IsSending given s (on_timer expired s) (ground arith) (ground arith) (ground arith) v)
Step-IsSending {s} given pinged v =
    rw (append-nil given)
      (kept-IsSending given s (on_ping s) (ground arith) (ground arith) (ground arith) v)
Step-IsSending {s} given control_frame v = rw (append-nil given) v

-- In every history of a WebSocket session, writes that fail included, at most one read is under way,
-- and none before the handshake is complete; at most one write is, whose message is at the front of
-- the queue; and the messages that the session was given are those whose write was started, then
-- those that wait, in the order in which they were given.
pub Reach-IsSound : {given : List Text} {s : Socket} → Reach given s → IsSound given s
Reach-IsSound initial = record {
  one_read = omega arith;
  read_after = λ _. refl;
  queued = record {
    one_write = omega arith;
    no_more = omega arith;
    has_front = λ more. absurd (omega arith);
    at_front = λ more. absurd (omega arith);
    in_order = refl;
  };
}
Reach-IsSound (later {given} r st) =
    let v = Reach-IsSound r in
    let (one_read, read_after) = Step-IsReading st (v.one_read, v.read_after) in
    record {
      one_read = one_read;
      read_after = read_after;
      queued = Step-IsSending given st v.queued;
    }
