-- ===== src/Entry/Program.antt =====
-- The whole program: the connections of the web server (src/workserver/webserver.hpp), the handlers
-- of main (src/entry/nano_pow_server.cpp), and the work handler with its pool.
use pow_server.Prelude.{
  ℕ, Bool, false, List, [], ◌∷◌, ◌++◌, Option, none, some, Text, ok, err, if◌then◌else◌,
}
use pow_server.Config.{Config}
use pow_server.Entry.{
  Action, work_endpoint, work_queue_endpoint, work_queue_delete_endpoint, ping, stop, version,
  ping_body, stop_handler, version_body, register_endpoints, web_config,
}
use pow_server.Handler.{Libraries, Reply}
use pow_server.Handler.Request.{handle_request_async}
use pow_server.Handler.Reports.{handle_queue_request, handle_queue_delete_request}
use pow_server.Handler.System.{System, on_request, on_delete}
use pow_server.Web.Pages.{Response, handled, handle_request}
use pow_server.Web.Pipeline.{respond}
use pow_server.Web.Listener.{Accepted, accept_failed, peer_gone, connected, on_accepted}
use pow_server.Web.Session.{
  Session, write_json_response, begin_request, end_request, ReadEnd, on_read_end,
}
use pow_server.Web.Socket.{Socket, on_message_read}
pub use pow_server.Entry.State.{
  Phase, serving, stopped, left, exited, failed, Connection, http, websocket, WebLibraries, Request,
  Program, update,
}

-- Whether an accept that ends makes a session.
unfoldable pub welcome : ℕ → Accepted → List ℕ → List ℕ
welcome i accept_failed sessions = sessions
welcome i peer_gone sessions = sessions
welcome i connected sessions = i ∷ sessions

-- An async_accept of the listener ends; what it throws leaves the thread that serves, and ends the
-- process.
unfoldable pub on_accepted_by : {Double : Type 0} → ℕ → Accepted → Program Double → Program Double
unfolding welcome on_accepted
on_accepted_by i a p = record p {
  sessions = welcome i a p.sessions;
  listener = (on_accepted a p.listener).0;
  ended = a ∷ p.ended;
  phase = elim (on_accepted a p.listener).1 [ ok _ ↦ p.phase | err e ↦ failed ];
}

-- A session that finds a WebSocket endpoint hands its socket to a new websocket_session, on which
-- do_accept runs.
unfoldable pub hand_over : ℕ → Option Action → List ℕ → List ℕ
hand_over j none sessions = sessions
hand_over j (some action) sessions = j ∷ sessions

module _ {Double Float Tree Regex : Type 0} (lib : Libraries Double Float Tree)
    (web : WebLibraries Regex) (config : Config) where
  -- The response handlers that main makes: `session->write_json_response (response)`; and
  -- `session->write_response (response)`, which posts to the strand.
  unfoldable pub give : Text → Connection → Connection
  unfolding write_json_response
  give body (http s) = http (write_json_response web.json_message body s)
  give body (websocket s posts) = websocket s (posts ++ body ∷ [])

  unfoldable pub deliver : Reply → (ℕ → Connection) → ℕ → Connection
  unfolding give
  deliver r connections = update r.client (give r.body (connections r.client)) connections

  unfoldable pub deliver_all : List Reply → (ℕ → Connection) → ℕ → Connection
  unfolding deliver
  deliver_all [] connections = connections
  deliver_all (r ∷ rs) connections = deliver_all rs (deliver r connections)

  -- A handler of main for the connection `i`: the work handler's new state, and the responses.
  unfoldable pub perform : ℕ → Text → Action → System Double → System Double × List Reply
  perform i body work_endpoint s =
      (on_request lib config body i s, (handle_request_async lib config body i s.handler).1)
  perform i body work_queue_endpoint s = (s, handle_queue_request lib i s.handler)
  perform i body work_queue_delete_endpoint s =
      (on_delete lib config i s, (handle_queue_delete_request lib config i s.handler).1)
  perform i body ping s = (s, record { client = i; body = ping_body } ∷ [])
  perform i body stop s = (s, record { client = i; body = (stop_handler config).0 } ∷ [])
  perform i body version s = (s, record { client = i; body = version_body } ∷ [])

  -- Whether the handler calls exit.
  unfoldable pub exits : Action → Bool
  exits stop = (stop_handler config).1
  exits _ = false

  -- A response that the session sends itself.
  unfoldable pub send_to : Response Action → Connection → Connection
  send_to response (http s) = http (record s {
    pipeline = respond (web.page_message s.client_version s.client_keepalive response) s.pipeline;
  })
  send_to response (websocket s posts) = websocket s posts

  unfoldable pub send : ℕ → Response Action → (ℕ → Connection) → ℕ → Connection
  unfolding send_to
  send i response connections = update i (send_to response (connections i)) connections

  unfoldable pub after_request : Connection → Connection
  unfolding end_request
  after_request (http s) = http (end_request s)
  after_request (websocket s posts) = websocket s posts

  -- on_read behind the handler, for the connection `i`.
  unfoldable pub go_on : ℕ → (ℕ → Connection) → ℕ → Connection
  unfolding after_request
  go_on i connections = update i (after_request (connections i)) connections

  unfoldable pub send_own : ℕ → Response Action → (ℕ → Connection) → Program Double → Program Double
  unfolding send go_on
  send_own i response begun p = record p {
    connections = go_on i (send i response begun);
    asked = i ∷ p.asked;
  }

  -- What handle_request ends with, and on_read behind it: a handler of main runs, which may exit
  -- instead of returning, or the session sends the response.
  unfoldable pub answer :
      ℕ → Text → Response Action → (ℕ → Connection) → Program Double → Program Double
  unfolding perform exits deliver_all go_on send_own
  answer i body (handled action params) begun p =
      let (system, replies) = perform i body action p.system in
      let given_out = deliver_all replies begun in
      record p {
        system = system;
        connections = if exits action then given_out else go_on i given_out;
        asked = i ∷ p.asked;
        phase = if exits action then exited else p.phase;
      }
  answer i body other begun p = send_own i other begun p

  -- on_read for a request on the session `s` of the connection `i`.
  unfoldable pub on_http : ℕ → Session → Request → Program Double → Program Double
  unfolding answer
  on_http i s r p =
      answer i r.body
        (handle_request web.open_file config.admin.doc_root web.re
          (register_endpoints web.re).handlers (web_config config) r.loopback r.verb r.target)
        (update i (http (begin_request r.version r.keepalive s)) p.connections) p

  -- on_read for a message on the WebSocket of the connection `i`: the work endpoint's handler.
  unfoldable pub on_message : ℕ → Socket → List Text → Text → Program Double → Program Double
  unfolding perform deliver_all
  on_message i s posts body p =
      let (system, replies) = perform i body work_endpoint p.system in
      record p {
        system = system;
        connections =
            deliver_all replies (update i (websocket (on_message_read s) posts) p.connections);
        asked = i ∷ p.asked;
      }

  -- on_read of the session `s` of the connection `i` for what is no request; an upgrade that is not
  -- denied makes the session of `j` run.
  unfoldable pub on_other_read : ℕ → ℕ → Session → ReadEnd → Program Double → Program Double
  unfolding hand_over
  on_other_read i j s e p =
      let (after, found) = on_read_end web.re (register_endpoints web.re).websocket_handlers e s in
      record p {
        connections = update i (http after) p.connections;
        sessions = hand_over j found p.sessions;
      }
