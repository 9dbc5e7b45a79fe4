-- ===== src/Entry/Sessions.antt =====
-- The sessions inside the whole program (src/entry/nano_pow_server.cpp) are sessions on their own
-- (src/workserver/webserver.hpp).
use pow_server.Prelude.{
  ℕ, ◌<◌, ◌≡◌, sym, subst, Bool, true, false, List, [], ◌∷◌, ◌++◌, Text, if◌then◌else◌, arith,
}
use pow_server.Config.{Config}
use pow_server.Entry.{work_endpoint, register_endpoints}
use pow_server.Entry.Program.{
  Program, Connection, http, websocket, WebLibraries, Request, update, perform, on_http, on_message,
  on_accepted_by, on_other_read,
}
use pow_server.Entry.Steps.{
  Step, connection, request, message, read_ends, write_ends, accepts, message_fails, sent,
  session_timer, timer, pinged, control_frame, runs_post, take, finish, signal, leaves, Reach,
  IsNew, initial, later,
}
use pow_server.Handler.{Libraries}
use pow_server.Web.Listener.{Listener}
use pow_server.Web.Socket.{Socket, on_message_read}
use pow_server.Handler.Task.{take_task, finish_task}
use pow_server.Web.Session.{
  Session, begin_request, ReadEnd, read_aborted, end_of_stream, read_failed, upgrade, on_read_end,
  WriteEnd, write_aborted, write_failed, write_done, on_write_end, on_timer as on_session_timer,
}
use pow_server.Web.Socket.History as History
use pow_server.Web.Pipeline.History as Pipelined
use pow_server.Web.Pipeline.Order.{IsInOrder, Reach-IsInOrder}
use pow_server.Web.Endpoints.{Regexes, WebsocketEndpoint}
use pow_server.Entry.Histories.{
  IsHistory, AreHistories, update-AreHistories, step-IsHistory, pipelined, none_handled, handled_by,
  handled_self, begin_request-IsHistory, deliver_all-AreHistories, answer-AreHistories,
}

-- A step of an HTTP session.
http-IsHistory :
    {s : Session} (t : Session) (c : Connection)
    → c ≡ http s
    → ((responses written : List Text) (handling : ℕ)
        → Pipelined.Reach (pipelined s responses written handling)
        → IsHistory 0 (http t))
    → IsHistory 0 c
    → IsHistory 0 (http t)
http-IsHistory {s} t c here go old =
    let (responses, written, handling, r, some) : IsHistory 0 (http s) =
      subst (IsHistory 0) here old in
    go responses written handling r

read_end-IsHistory :
    {Regex Action : Type 0} (re : Regexes Regex) (endpoints : List (WebsocketEndpoint Regex Action))
    (e : ReadEnd) (s : Session) (responses written : List Text) (handling : ℕ)
    → 0 < s.pipeline.reads
    → Pipelined.Reach (pipelined s responses written handling)
    → IsHistory 0 (http (on_read_end re endpoints e s).0)
unfolding on_read_end
read_end-IsHistory re endpoints read_aborted s responses written handling busy r =
    (responses, written, handling, Pipelined.later r (Pipelined.read_ended false busy), omega arith)
read_end-IsHistory re endpoints end_of_stream s responses written handling busy r =
    (responses, written, handling, Pipelined.later r (Pipelined.read_ended true busy), omega arith)
read_end-IsHistory re endpoints (read_failed what) s responses written handling busy r =
    (responses, written, handling, Pipelined.later r (Pipelined.read_ended false busy), omega arith)
read_end-IsHistory re endpoints (upgrade target) s responses written handling busy r =
    (responses, written, handling, Pipelined.later r (Pipelined.read_ended false busy), omega arith)

write_end-IsHistory :
    (e : WriteEnd) (s : Session) (first : Text) (rest responses written : List Text) (handling : ℕ)
    → s.pipeline.items ≡ first ∷ rest
    → s.stalled ≡ false
    → Pipelined.Reach (pipelined s responses written handling)
    → IsHistory 0 (http (on_write_end e s))
unfolding on_write_end
write_end-IsHistory write_aborted s first rest responses written handling items going r =
    (responses, written, handling, Pipelined.later r (Pipelined.write_fails going), omega arith)
write_end-IsHistory (write_failed what) s first rest responses written handling items going r =
    (responses, written, handling, Pipelined.later r (Pipelined.write_fails going), omega arith)
write_end-IsHistory (write_done close) s first rest responses written handling items going r = (
  responses,
  if close then written else written ++ first ∷ [],
  handling,
  Pipelined.later r (Pipelined.write_done close first rest going items),
  omega arith,
)

timer-IsHistory :
    (fails expired : Bool) (s : Session) (responses written : List Text) (handling : ℕ)
    → Pipelined.Reach (pipelined s responses written handling)
    → IsHistory 0 (http (on_session_timer fails expired s).0)
unfolding on_session_timer
timer-IsHistory true expired s responses written handling r =
    (responses, written, handling, r, omega arith)
timer-IsHistory false true s responses written handling r =
    (responses, written, handling, r, omega arith)
timer-IsHistory false false s responses written handling r =
    (responses, written, handling, r, omega arith)

-- A step of the connection `i` alone.
one-AreHistories :
    (i : ℕ) (c : Connection) (connections : ℕ → Connection)
    → IsHistory 0 c
    → AreHistories none_handled connections
    → AreHistories none_handled (update i c connections)
one-AreHistories i c connections new all =
    update-AreHistories i c connections none_handled none_handled new (λ k other. omega arith) all

module _ {Double Float Tree Regex : Type 0} (lib : Libraries Double Float Tree)
    (web : WebLibraries Regex) (config : Config) where
  message-AreHistories :
      (i : ℕ) (s : Socket) (posts : List Text) (body : Text) (p : Program Double)
      → p.connections i ≡ websocket s posts
      → 0 < s.reads
      → AreHistories none_handled p.connections
      → AreHistories none_handled (on_message lib web config i s posts body p).connections
  unfolding on_message
  message-AreHistories i s posts body p is_socket busy all =
      let received = websocket (on_message_read s) posts in
      deliver_all-AreHistories lib web config none_handled
        (perform lib web config i body work_endpoint p.system).1 (update i received p.connections)
        (one-AreHistories i received p.connections
          (step-IsHistory posts (p.connections i) is_socket (History.reads_message busy) (all i))
          all)

  request-AreHistories :
      (i : ℕ) (s : Session) (r : Request) (p : Program Double)
      → p.connections i ≡ http s
      → 0 < s.pipeline.reads
      → AreHistories none_handled p.connections
      → AreHistories none_handled (on_http lib web config i s r p).connections
  unfolding on_http
  request-AreHistories i s r p is_http busy all =
      let begun = http (begin_request r.version r.keepalive s) in
      answer-AreHistories lib web config i r.body _ (update i begun p.connections) p (
        update-AreHistories i begun p.connections none_handled (handled_by i)
          (subst (λ n. IsHistory n begun) (sym (handled_self i))
            (begin_request-IsHistory r.version r.keepalive s (p.connections i) is_http busy
              (all i)))
          (λ k other. rw other (omega arith)) all)

  Step-AreHistories :
      {p q : Program Double}
      → Step lib web config p q
      → AreHistories none_handled p.connections
      → AreHistories none_handled q.connections
  unfolding on_accepted_by on_other_read
  Step-AreHistories (connection i a on waits free new) all = all
  Step-AreHistories {p} (request i s r on is_http busy) all =
      request-AreHistories i s r p is_http busy all
  Step-AreHistories {p} (message i s posts body on is_socket busy) all =
      message-AreHistories i s posts body p is_socket busy all
  Step-AreHistories {p} (read_ends i j s e on is_http busy free new) all =
      one-AreHistories i _ p.connections
        (http-IsHistory (on_read_end web.re (register_endpoints web.re).websocket_handlers e s).0
          (p.connections i) is_http
          (λ responses written handling.
            read_end-IsHistory web.re (register_endpoints web.re).websocket_handlers e s responses
              written handling busy)
          (all i))
        all
  Step-AreHistories {p} (write_ends i s first rest e on is_http items going) all =
      one-AreHistories i _ p.connections
        (http-IsHistory (on_write_end e s) (p.connections i) is_http
          (λ responses written handling.
            write_end-IsHistory e s first rest responses written handling items going)
          (all i))
        all
  Step-AreHistories {p} (accepts i s posts refused on is_socket busy) all =
      one-AreHistories i _ p.connections
        (step-IsHistory posts _ is_socket (History.accepts refused busy) (all i)) all
  Step-AreHistories {p} (message_fails i s posts on is_socket busy) all =
      one-AreHistories i _ p.connections
        (step-IsHistory posts _ is_socket (History.read_fails busy) (all i)) all
  Step-AreHistories {p} (sent i s posts fails on is_socket busy) all =
      one-AreHistories i _ p.connections
        (step-IsHistory posts _ is_socket (History.write_ends fails busy) (all i)) all
  Step-AreHistories {p} (session_timer i s fails expired on is_http) all =
      one-AreHistories i _ p.connections
        (http-IsHistory (on_session_timer fails expired s).0 (p.connections i) is_http
          (timer-IsHistory fails expired s) (all i))
        all
  Step-AreHistories {p} (timer i s posts expired on is_socket) all =
      one-AreHistories i _ p.connections
        (step-IsHistory posts _ is_socket (History.waits expired) (all i)) all
  Step-AreHistories {p} (pinged i s posts on is_socket) all =
      one-AreHistories i _ p.connections (step-IsHistory posts _ is_socket History.pinged (all i))
        all
  Step-AreHistories {p} (control_frame i s posts on is_socket) all =
      one-AreHistories i _ p.connections
        (step-IsHistory posts _ is_socket History.control_frame (all i)) all
  Step-AreHistories {p} (runs_post i s text posts on is_socket) all =
      one-AreHistories i _ p.connections
        (step-IsHistory posts _ is_socket (History.responds text) (all i)) all
  Step-AreHistories {p} (take now on free) all =
      deliver_all-AreHistories lib web config none_handled
        (take_task lib config now p.system.handler).1 p.connections all
  Step-AreHistories {p} (finish now before r after on split) all =
      deliver_all-AreHistories lib web config none_handled
        (finish_task lib config now r p.system.handler).1 p.connections all
  Step-AreHistories (signal on) all = all
  Step-AreHistories (leaves on) all = all

  new-IsHistory : (c : Connection) → IsNew lib web config c → IsHistory 0 c
  new-IsHistory (http s) e =
      subst (λ (t : Session). IsHistory 0 (http t)) (sym e)
        ([], [], 0, Pipelined.initial, omega arith)
  new-IsHistory (websocket s posts) (e, none_posted) =
      subst (λ (t : Socket). IsHistory 0 (websocket t posts)) (sym e) ([], History.initial)

  -- Each session inside the program, HTTP or WebSocket, goes only through states that such a session
  -- reaches on its own, whatever the other sessions do; each call of an HTTP session's queue is one
  -- step, so no two of them overlap.
  pub Reach-AreHistories :
      {first : Listener} {p : Program Double}
      → Reach lib web config first p
      → AreHistories none_handled p.connections
  Reach-AreHistories (initial connections fresh) = λ k. new-IsHistory (connections k) (fresh k)
  Reach-AreHistories (later r st) = Step-AreHistories st (Reach-AreHistories r)

  -- In every history of the whole program, whose calls of an HTTP session's queue do not overlap, the
  -- responses that the session was given are those that were written and those that wait, in their
  -- order, and at most one is being written.
  pub http-HasOrder :
      {first : Listener} {p : Program Double} (k : ℕ) (s : Session)
      → Reach lib web config first p
      → p.connections k ≡ http s
      → (responses : List Text) × (written : List Text) × IsInOrder s.pipeline responses written
  http-HasOrder k s r here =
      let (responses, written, handling, own, some) : IsHistory 0 (http s) =
        subst (IsHistory 0) here (Reach-AreHistories r k) in
      (responses, written, Reach-IsInOrder own)
