-- ===== src/Entry/State.antt =====
-- The state of the whole program: main (src/entry/nano_pow_server.cpp) with the work handler, the
-- listener and the sessions (src/workserver/webserver.hpp).
use pow_server.Prelude.{ℕ, Bool, true, false, List, Text, any, ◌==◌, if◌then◌else◌}
use pow_server.Entry.{Action}
use pow_server.Handler.System.{System}
use pow_server.Web.Endpoints.{Regexes, Verb}
use pow_server.Web.Listener.{Listener, Accepted}
use pow_server.Web.Pages.{Response, Opened}
use pow_server.Web.Session.{Session, Serializer}
use pow_server.Web.Socket.{Socket}

-- How far main is. The server serves; a signal has stopped its io_context, which runs no completion
-- any more, while the pool goes on; start has returned, and main destroys the server and the work
-- handler, which is not modelled. Or a handler has called exit, or an exception has left a thread
-- that serves.
pub data Phase : Type 0 where
  serving stopped left exited failed : Phase

-- Whether the pool's threads go on.
abbrev pub works : Phase → Bool
works serving = true
works stopped = true
works _ = false

-- What a client is to the server: an http_session; or a websocket_session behind an upgrade, with the
-- messages that write_response has posted to its strand and that it has not run on, oldest first.
pub data Connection : Type 0 where
  http : Session → Connection
  websocket : Socket → List Text → Connection

-- What beast and std::regex do, and what opening a file gives.
pub record WebLibraries (Regex : Type 0) : Type 0 where
  pub re : Regexes Regex
  -- the message of a JSON response, and that of any other response
  pub json_message : Serializer
  pub page_message : ℕ → Bool → Response Action → Text
  pub open_file : Text → Opened

-- A request as it is read.
pub record Request : Type 0 where
  pub verb : Verb
  pub target : Text
  pub body : Text
  pub version : ℕ
  pub keepalive : Bool
  pub loopback : Bool

-- The connections by number: each number stands for one session from the start, which is new, and
-- does nothing until it is among the `sessions` that run. `asked` are the connections of the requests
-- and messages that were read, and `ended` says how each async_accept of the listener has ended, the
-- latest first.
pub record Program (Double : Type 0) : Type 0 where
  pub system : System Double
  pub connections : ℕ → Connection
  pub sessions : List ℕ
  pub listener : Listener
  pub asked : List ℕ
  pub ended : List Accepted
  pub phase : Phase

abbrev pub update : ℕ → Connection → (ℕ → Connection) → ℕ → Connection
update i c connections k = if k == i then c else connections k

-- Whether the session of the connection runs.
abbrev pub lives : {Double : Type 0} → ℕ → Program Double → Bool
lives i p = any (λ j. j == i) p.sessions
