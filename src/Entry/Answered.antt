-- ===== src/Entry/Answered.antt =====
-- Every request of every connection of the program is answered once (src/entry/nano_pow_server.cpp,
-- src/workserver/webserver.hpp and work_handler.cpp together).
use pow_server.Prelude.{ℕ, ◌+◌, ◌≡◌, refl, List, ◌∷◌, sym, ap, subst, ◌<◌, ◌∙◌, Text, arith, length}
use pow_server.Config.{Config}
use pow_server.Entry.{work_endpoint, register_endpoints}
use pow_server.Entry.Accounts.{given, given_socket, deliver_all-given, on_sent-given, socket-given}
use pow_server.Entry.Balance.{self, perform-tally, IsBalanced, answer-IsBalanced}
use pow_server.Entry.Program.{
  Program, Connection, http, websocket, WebLibraries, update, perform, on_accepted_by,
  on_other_read, on_http, on_message,
}
use pow_server.Entry.Steps.{
  Step, connection, request, message, read_ends, write_ends, accepts, message_fails, sent,
  session_timer, timer, pinged, control_frame, runs_post, take, finish, signal, leaves, Reach,
  initial, later, IsNew,
}
use pow_server.Handler.{Libraries}
use pow_server.Handler.Accounting.{tally, tally-append, reply_client, task_client, running_client}
use pow_server.Handler.Answers.{Reach-IsSystem}
use pow_server.Handler.System.{on_take, on_finish}
use pow_server.Handler.Task.{take_task, finish_task}
use pow_server.Web.Pipeline.{begin_read}
use pow_server.Web.Session.{Session, begin_request}
use pow_server.Web.Socket.{Socket, on_message_read, on_read_failed}
use pow_server.Entry.Refines.{Reach-Reach}
use pow_server.Entry.Histories.{IsHistory, AreHistories, none_handled}
use pow_server.Entry.Sessions.{Reach-AreHistories}
use pow_server.Web.Listener.{Listener}
use pow_server.Web.Socket.History.{Reach-IsSound}
use pow_server.Entry.Given.{
  update-same, update-kept, read_end-given, write_end-given, session_timer-given, timer-given,
  ping-given, activity-given, message-given, accept-given,
}

module _ {Double Float Tree Regex : Type 0} (lib : Libraries Double Float Tree)
    (web : WebLibraries Regex) (config : Config) where
  -- A step that changes the connection `i` alone and gives it nothing keeps the balance.
  kept-IsBalanced :
      (i k : ℕ) (old new : Connection) (p : Program Double)
      → p.connections i ≡ old
      → given new ≡ given old
      → IsBalanced lib web config p k
      → IsBalanced lib web config (record p { connections = update i new p.connections }) k
  kept-IsBalanced i k old new p here same v =
      omega (arith, update-kept i k new p.connections (same ∙ ap given (sym here)))

  message-IsBalanced :
      (i k : ℕ) (s : Socket) (posts : List Text) (body : Text) (p : Program Double)
      → p.connections i ≡ websocket s posts
      → IsBalanced lib web config p k
      → IsBalanced lib web config (on_message lib web config i s posts body p) k
  unfolding on_message
  message-IsBalanced i k s posts body p here v =
      let received = update i (websocket (on_message_read s) posts) p.connections in
      let replies = (perform lib web config i body work_endpoint p.system).1 in
      omega (
        arith,
        deliver_all-given lib web config replies received k,
        update-kept i k (websocket (on_message_read s) posts) p.connections
            (message-given s posts ∙ ap given (sym here)),
        perform-tally lib web config i k body work_endpoint p.system,
      )

  -- A write under way has its message in the queue.
  has_front :
      (i : ℕ) (s : Socket) (posts : List Text) (connections : ℕ → Connection)
      → connections i ≡ websocket s posts
      → s.completed < length s.started
      → AreHistories none_handled connections
      → 0 < length s.send_queue
  has_front i s posts connections here busy all =
      let (past, own) : IsHistory 0 (websocket s posts) = subst (IsHistory 0) here (all i) in
      (Reach-IsSound own).queued.has_front busy

  Step-IsBalanced :
      {p q : Program Double} (k : ℕ)
      → Step lib web config p q
      → AreHistories none_handled p.connections
      → IsBalanced lib web config p k
      → IsBalanced lib web config q k
  unfolding on_http on_take on_finish on_accepted_by on_other_read
  Step-IsBalanced k (connection i a alive waits free new) all v = v
  Step-IsBalanced {p} k (request i s r alive is_http busy) all v =
      answer-IsBalanced lib web config i k r.body _ (begin_request r.version r.keepalive s)
        (update i (http (begin_request r.version r.keepalive s)) p.connections) p
        (update-same i _ p.connections)
        (update-kept i k (http (begin_request r.version r.keepalive s)) p.connections
          (unfold begin_request begin_read in ap given (sym is_http)))
        v
  Step-IsBalanced {p} k (message i s posts body alive is_socket busy) all v =
      message-IsBalanced i k s posts body p is_socket v
  Step-IsBalanced {p} k (read_ends i j s e alive is_http busy free new) all v =
      kept-IsBalanced i k (http s) _ p is_http
        (read_end-given web.re (register_endpoints web.re).websocket_handlers e s) v
  Step-IsBalanced {p} k (write_ends i s first rest e alive is_http items going) all v =
      kept-IsBalanced i k (http s) _ p is_http (write_end-given e s first rest items) v
  Step-IsBalanced {p} k (accepts i s posts refused alive is_socket shaking) all v =
      kept-IsBalanced i k (websocket s posts) _ p is_socket (accept-given refused s posts) v
  Step-IsBalanced {p} k (message_fails i s posts alive is_socket busy) all v =
      kept-IsBalanced i k (websocket s posts) _ p is_socket (unfold on_read_failed in refl) v
  Step-IsBalanced {p} k (sent i s posts fails alive is_socket busy) all v =
      kept-IsBalanced i k (websocket s posts) _ p is_socket
        (let same = on_sent-given fails s (has_front i s posts p.connections is_socket busy all) in
          omega (arith, same))
        v
  Step-IsBalanced {p} k (session_timer i s fails expired alive is_http) all v =
      kept-IsBalanced i k (http s) _ p is_http (session_timer-given fails expired s) v
  Step-IsBalanced {p} k (timer i s posts expired alive is_socket) all v =
      kept-IsBalanced i k (websocket s posts) _ p is_socket (timer-given expired s posts) v
  Step-IsBalanced {p} k (pinged i s posts alive is_socket) all v =
      kept-IsBalanced i k (websocket s posts) _ p is_socket (ping-given s posts) v
  Step-IsBalanced {p} k (control_frame i s posts alive is_socket) all v =
      kept-IsBalanced i k (websocket s posts) _ p is_socket (activity-given s posts) v
  Step-IsBalanced {p} k (runs_post i s text posts alive is_socket) all v =
      kept-IsBalanced i k (websocket s (text ∷ posts)) _ p is_socket
        (let one = socket-given text s in omega (arith, one)) v
  Step-IsBalanced {p} k (take now alive free) all v =
      let answers = (take_task lib config now p.system.handler).1 in
      omega (
        arith,
        deliver_all-given lib web config answers p.connections k,
        tally-append reply_client k answers p.system.replies,
      )
  Step-IsBalanced {p} k (finish now before r after alive split) all v =
      let answers = (finish_task lib config now r p.system.handler).1 in
      omega (
        arith,
        deliver_all-given lib web config answers p.connections k,
        tally-append reply_client k answers p.system.replies,
      )
  Step-IsBalanced k (signal alive) all v = v
  Step-IsBalanced k (leaves stops) all v = v

  new-given : (c : Connection) → IsNew lib web config c → given c ≡ 0
  new-given (http s) e = ap (λ (t : Session). given (http t)) e
  new-given (websocket s posts) (e, none_posted) =
      let idle = ap given_socket e in
      let none_left = ap length none_posted in omega (arith, idle, none_left)

  Reach-IsBalanced :
      {first : Listener} {p : Program Double} (k : ℕ)
      → Reach lib web config first p
      → IsBalanced lib web config p k
  Reach-IsBalanced k (initial connections fresh) =
      omega (arith, new-given (connections k) (fresh k))
  Reach-IsBalanced k (later r st) =
      Step-IsBalanced k st (Reach-AreHistories lib web config r) (Reach-IsBalanced k r)

  -- In every history of the whole program, whatever its connections ask for and however its threads
  -- and writes interleave: the requests and messages that a connection was read are as many as the
  -- responses that it was given, and the lambdas that wait or run for it.
  pub requests_answered :
      {first : Listener} {p : Program Double} (k : ℕ)
      → Reach lib web config first p
      → given (p.connections k)
          + tally task_client k p.system.handler.posted
          + tally running_client k p.system.running
        ≡ tally self k p.asked
  requests_answered k r =
      let v = Reach-IsSystem lib config (Reach-Reach lib web config r) in
      omega (arith, v.accounts k, Reach-IsBalanced k r)
