-- ===== src/Web/Session.antt =====
-- src/workserver/webserver.hpp: an http_session around its pipeline: what a completed read or write
-- and the timer make of it, and the upgrade to a WebSocket.
use pow_server.Prelude.{ℕ, Bool, true, false, List, Option, none, some, Text, if◌then◌else◌}
use pow_server.Web.Endpoints.{Regexes, WebsocketEndpoint, find_websocket}
use pow_server.Web.Pipeline.{Pipeline, respond, begin_read, read_next, on_write, accepted}
use pow_server.Web.Url.{parse_url}

-- The pipeline with the members that a request may change, whether the socket was moved to a
-- websocket_session, whether the timer has closed it, and whether a write ended without the next
-- one's start, which leaves its item in the queue.
pub record Session : Type 0 where
  pub pipeline : Pipeline
  pub client_version : ℕ
  pub client_keepalive : Bool
  pub is_moved : Bool
  pub timed_out : Bool
  pub stalled : Bool

-- boost::beast: the message that a JSON response makes, by its version and keep-alive.
abbrev pub Serializer : Type 0
Serializer = ℕ → Bool → Text → Text

-- A new session, behind run.
abbrev pub new_session : Session
new_session = record {
  pipeline = accepted;
  client_version = 11;
  client_keepalive = true;
  is_moved = false;
  timed_out = false;
  stalled = false;
}

-- write_json_response: the version and keep-alive are those of the last request.
unfoldable pub write_json_response : Serializer → Text → Session → Session
write_json_response message body s = record s {
  pipeline = respond (message s.client_version s.client_keepalive body) s.pipeline;
}

-- What a read completes with, but for a request that is no upgrade.
pub data ReadEnd : Type 0 where
  read_aborted end_of_stream : ReadEnd
  read_failed : Text → ReadEnd
  upgrade : Text → ReadEnd

-- on_read without a request to handle: the session shuts down, does nothing more, or hands its
-- socket to the WebSocket handler of the path, if there is one.
unfoldable pub on_read_end :
    {Regex Action : Type 0} (re : Regexes Regex) (endpoints : List (WebsocketEndpoint Regex Action))
    → ReadEnd
    → Session
    → Session × Option Action
on_read_end re endpoints read_aborted s = (record s { pipeline = begin_read s.pipeline }, none)
on_read_end re endpoints end_of_stream s =
    (record s { pipeline = record (begin_read s.pipeline) { closed = true } }, none)
on_read_end re endpoints (read_failed what) s =
    (record s { pipeline = begin_read s.pipeline }, none)
on_read_end re endpoints (upgrade target) s =
    let found = find_websocket re endpoints (parse_url target).path in
    (
      record s {
        pipeline = begin_read s.pipeline;
        is_moved = elim found [ none ↦ s.is_moved | some action ↦ true ];
      },
      found,
    )

-- on_read for a request, up to its handler: the members that handle_request sets.
unfoldable pub begin_request : ℕ → Bool → Session → Session
begin_request version keepalive s = record s {
  pipeline = begin_read s.pipeline;
  client_version = version;
  client_keepalive = keepalive;
}

-- on_read behind handle_request
unfoldable pub end_request : Session → Session
end_request s = record s { pipeline = read_next s.pipeline }

-- What a write completes with.
pub data WriteEnd : Type 0 where
  write_aborted : WriteEnd
  write_failed : Text → WriteEnd
  -- need_eof of the message
  write_done : Bool → WriteEnd

-- on_write
unfoldable pub on_write_end : WriteEnd → Session → Session
on_write_end write_aborted s = record s { stalled = true }
on_write_end (write_failed what) s = record s { stalled = true }
on_write_end (write_done close) s = record s {
  pipeline = on_write close s.pipeline;
  stalled = close;
}

-- on_timer: `failed` is an error other than an aborted wait, `expired` the test of the deadline.
-- It says whether it waits again.
unfoldable pub on_timer : Bool → Bool → Session → Session × Bool
on_timer failed expired s =
    if failed
    then (s, false)
    else if expired
    then (record s { timed_out = true }, false)
    else (s, true)
