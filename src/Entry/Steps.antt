-- ===== src/Entry/Steps.antt =====
-- The steps of the whole program (src/entry/nano_pow_server.cpp with src/workserver), and the
-- states that it reaches.
use pow_server.Prelude.{ℕ, ◌<◌, ◌≡◌, Bool, true, false, List, [], ◌∷◌, ◌++◌, Text, length}
use pow_server.Config.{Config}
use pow_server.Entry.State.{works, lives}
use pow_server.Web.Listener.{Listener, Accepted, run}
use pow_server.Handler.{Libraries}
use pow_server.Handler.Task.{Running, take_task, finish_task}
use pow_server.Handler.System.{System, on_request, on_take, on_finish, on_delete}
use pow_server.Handler.System as System
use pow_server.Web.Session.{
  on_timer as on_session_timer, Session, new_session, ReadEnd, WriteEnd, on_write_end,
}
use pow_server.Web.Socket.{
  Socket, new_socket, on_sent, on_accept, on_read_failed, on_timer, on_ping, activity,
  write_response,
}
use pow_server.Entry.Program.{
  Connection, http, websocket, serving, stopped, left, on_accepted_by, on_other_read, WebLibraries,
  Request, Program, update, deliver_all, on_http, on_message,
}

module _ {Double Float Tree Regex : Type 0} (lib : Libraries Double Float Tree)
    (web : WebLibraries Regex) (config : Config) where
  -- The server serves, and the session of the connection runs.
  abbrev pub IsLive : ℕ → Program Double → Type 0
  IsLive i p = (p.phase ≡ serving) × (lives i p ≡ true)

  -- An http_session on which run is called, or a websocket_session on which do_accept is.
  abbrev pub IsNew : Connection → Type 0
  IsNew (http s) = s ≡ new_session
  IsNew (websocket s posts) = (s ≡ new_socket) × (posts ≡ [])

  -- An accept ends; a request or a message is read, a read or a write ends otherwise, a timer or a
  -- ping ends, a control frame comes; a strand runs what was posted to it first; a thread of the pool
  -- takes or finishes a lambda; a signal stops the server, and start returns.
  pub data Step (p : Program Double) : Program Double → Type 0 where
    connection :
        (i : ℕ) (a : Accepted)
        → p.phase ≡ serving
        → 0 < p.listener.accepts
        → lives i p ≡ false
        → p.connections i ≡ http new_session
        → Step p (on_accepted_by i a p)
    request :
        (i : ℕ) (s : Session) (r : Request)
        → IsLive i p
        → p.connections i ≡ http s
        → 0 < s.pipeline.reads
        → Step p (on_http lib web config i s r p)
    message :
        (i : ℕ) (s : Socket) (posts : List Text) (body : Text)
        → IsLive i p
        → p.connections i ≡ websocket s posts
        → 0 < s.reads
        → Step p (on_message lib web config i s posts body p)
    read_ends :
        (i j : ℕ) (s : Session) (e : ReadEnd)
        → IsLive i p
        → p.connections i ≡ http s
        → 0 < s.pipeline.reads
        → lives j p ≡ false
        → p.connections j ≡ websocket new_socket []
        → Step p (on_other_read lib web config i j s e p)
    write_ends :
        (i : ℕ) (s : Session) (first : Text) (rest : List Text) (e : WriteEnd)
        → IsLive i p
        → p.connections i ≡ http s
        → s.pipeline.items ≡ first ∷ rest
        → s.stalled ≡ false
        → Step p (record p { connections = update i (http (on_write_end e s)) p.connections })
    accepts :
        (i : ℕ) (s : Socket) (posts : List Text) (refused : Bool)
        → IsLive i p
        → p.connections i ≡ websocket s posts
        → s.accepting ≡ true
        → Step p (record p {
          connections = update i (websocket (on_accept refused s) posts) p.connections;
        })
    message_fails :
        (i : ℕ) (s : Socket) (posts : List Text)
        → IsLive i p
        → p.connections i ≡ websocket s posts
        → 0 < s.reads
        → Step p
            (record p { connections = update i (websocket (on_read_failed s) posts) p.connections })
    sent :
        (i : ℕ) (s : Socket) (posts : List Text) (fails : Bool)
        → IsLive i p
        → p.connections i ≡ websocket s posts
        → s.completed < length s.started
        → Step p
            (record p { connections = update i (websocket (on_sent fails s) posts) p.connections })
    session_timer :
        (i : ℕ) (s : Session) (fails expired : Bool)
        → IsLive i p
        → p.connections i ≡ http s
        → Step p (record p {
          connections = update i (http (on_session_timer fails expired s).0) p.connections;
        })
    timer :
        (i : ℕ) (s : Socket) (posts : List Text) (expired : Bool)
        → IsLive i p
        → p.connections i ≡ websocket s posts
        → Step p (record p {
          connections = update i (websocket (on_timer expired s) posts) p.connections;
        })
    pinged :
        (i : ℕ) (s : Socket) (posts : List Text)
        → IsLive i p
        → p.connections i ≡ websocket s posts
        → Step p (record p { connections = update i (websocket (on_ping s) posts) p.connections })
    control_frame :
        (i : ℕ) (s : Socket) (posts : List Text)
        → IsLive i p
        → p.connections i ≡ websocket s posts
        → Step p (record p { connections = update i (websocket (activity s) posts) p.connections })
    runs_post :
        (i : ℕ) (s : Socket) (message : Text) (posts : List Text)
        → IsLive i p
        → p.connections i ≡ websocket s (message ∷ posts)
        → Step p (record p {
          connections = update i (websocket (write_response message s) posts) p.connections;
        })
    take :
        (now : ℕ)
        → works p.phase ≡ true
        → length p.system.running < length config.devices
        → Step p (record p {
          system = on_take lib config now p.system;
          connections =
              deliver_all lib web config
                (take_task lib config now p.system.handler).1
                p.connections;
        })
    finish :
        (now : ℕ) (before : List (Running Double)) (r : Running Double)
        (after : List (Running Double))
        → works p.phase ≡ true
        → p.system.running ≡ before ++ r ∷ after
        → Step p (record p {
          system = on_finish lib config now before r after p.system;
          connections =
              deliver_all lib web config
                (finish_task lib config now r p.system.handler).1
                p.connections;
        })
    signal : p.phase ≡ serving → Step p (record p { phase = stopped })
    leaves : p.phase ≡ stopped → Step p (record p { phase = left })

  -- The program from when main starts the server, with the listener that run was called on.
  pub data Reach (first : Listener) : Program Double → Type 0 where
    initial :
        (connections : ℕ → Connection)
        → ((i : ℕ) → IsNew (connections i))
        → Reach first (record {
          system = System.init lib config;
          connections = connections;
          sessions = [];
          listener = run first;
          asked = [];
          ended = [];
          phase = serving;
        })
    later : {p q : Program Double} → Reach first p → Step p q → Reach first q
