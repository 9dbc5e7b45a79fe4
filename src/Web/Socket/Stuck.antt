-- ===== src/Web/Socket/Stuck.antt =====
-- src/workserver/webserver.hpp: a websocket_session behind a write that failed.
use pow_server.Prelude.{
  ◌<◌, ◌≡◌, refl, true, List, [], ◌∷◌, Text, arith, length, is_nil, length-append, length-drop,
  ◌==◌,
}
use pow_server.Web.Socket.{
  Socket, write_response, write_queued_messages, on_sent, on_timer, activity, on_ping, on_accept,
  on_message_read, on_read_failed,
}
use pow_server.Web.Socket.Queued.{IsQueued}
use pow_server.Web.Socket.History.{
  Step, accepts, reads_message, read_fails, responds, write_ends, waits, pinged, control_frame,
  Reach, Reach-IsSound,
}

-- What follows a state of a session.
pub data Run (s : Socket) : Socket → Type 0 where
  here : Run s s
  next : {t u : Socket} {more : List Text} → Run s t → Step t more u → Run s u

-- No write is under way although messages wait.
abbrev IsStuck : List Text → Socket → Type 0
IsStuck started s =
    (s.started ≡ started) × (s.completed ≡ length s.started) × (0 < length s.send_queue)

nil_length : (q : List Text) → is_nil q ≡ (length q == 0)
nil_length [] = refl
nil_length (x ∷ q) = ground arith

responds-IsStuck :
    (started : List Text) (m : Text) (s : Socket)
    → IsStuck started s
    → IsStuck started (write_response m s)
unfolding write_response write_queued_messages
responds-IsStuck started m s v =
    ground (arith, length-append s.send_queue (m ∷ []), nil_length s.send_queue)

Step-IsStuck :
    {s t : Socket} {more : List Text} (started : List Text)
    → Step s more t
    → IsStuck started s
    → IsStuck started t
unfolding on_accept on_message_read on_read_failed on_timer on_ping activity
Step-IsStuck {s} started (accepts failed still) v = ground arith
Step-IsStuck {s} started (reads_message busy) v = v
Step-IsStuck {s} started (read_fails busy) v = v
Step-IsStuck {s} started (responds message) v = responds-IsStuck started message s v
Step-IsStuck {s} started (write_ends failed busy) v = absurd (omega (arith, v.1))
Step-IsStuck {s} started (waits expired) v = ground arith
Step-IsStuck {s} started pinged v = ground arith
Step-IsStuck {s} started control_frame v = v

Run-IsStuck : {s t : Socket} (started : List Text) → IsStuck started s → Run s t → IsStuck started t
Run-IsStuck started v here = v
Run-IsStuck started v (next r st) = Step-IsStuck started st (Run-IsStuck started v r)

failed-IsStuck :
    (given : List Text) (s : Socket)
    → IsQueued given s.started s.completed s.send_queue
    → s.completed < length s.started
    → 1 < length s.send_queue
    → IsStuck s.started (on_sent true s)
unfolding on_sent
failed-IsStuck given s v busy more =
    (refl, omega (arith, v.one_write), omega (arith, length-drop 1 s.send_queue))

-- If a write fails while another message waits, no write is started any more, whatever the session
-- is given and whatever else happens to it.
pub failed-Run :
    {given : List Text} {s t : Socket}
    → Reach given s
    → s.completed < length s.started
    → 1 < length s.send_queue
    → Run (on_sent true s) t
    → (t.started ≡ s.started) × (0 < length t.send_queue)
failed-Run {given} {s} r busy more run =
    let stuck =
      Run-IsStuck s.started (failed-IsStuck given s (Reach-IsSound r).queued busy more) run in
    (stuck.0, stuck.2)
