-- ===== src/Entry/Given.antt =====
-- What the steps of a session give to its connection (src/workserver/webserver.hpp).
use pow_server.Prelude.{ℕ, ◌≡◌, refl, ap, Bool, true, false, List, ◌∷◌, Text, arith, length, ==_iff}
use pow_server.Web.Endpoints.{Regexes, WebsocketEndpoint}
use pow_server.Entry.Accounts.{given, update-given, on_write-given}
use pow_server.Entry.Program.{Connection, http, websocket, update}
use pow_server.Web.Pipeline.{begin_read}
use pow_server.Web.Session.{
  on_timer as on_session_timer, Session, ReadEnd, read_aborted, end_of_stream, read_failed, upgrade,
  WriteEnd, write_aborted, write_failed, write_done, on_read_end, on_write_end,
}
use pow_server.Web.Socket.{
  Socket, begin_message, end_message, on_message_read, activity, on_accept, on_timer, on_ping,
}

pub update-same :
    (i : ℕ) (c : Connection) (connections : ℕ → Connection) → update i c connections i ≡ c
update-same i c connections = rw ((==_iff i i).1 refl) refl

-- A step that gives the connection nothing.
pub update-kept :
    (i k : ℕ) (c : Connection) (connections : ℕ → Connection)
    → given c ≡ given (connections i)
    → given (update i c connections k) ≡ given (connections k)
update-kept i k c connections same =
    ground (arith, update-given i k 0 c connections (omega (arith, same)))

pub read_end-given :
    {Regex Action : Type 0} (re : Regexes Regex) (endpoints : List (WebsocketEndpoint Regex Action))
    (e : ReadEnd) (s : Session)
    → given (http (on_read_end re endpoints e s).0) ≡ given (http s)
unfolding on_read_end begin_read
read_end-given re endpoints read_aborted s = refl
read_end-given re endpoints end_of_stream s = refl
read_end-given re endpoints (read_failed what) s = refl
read_end-given re endpoints (upgrade target) s = refl

pub write_end-given :
    (e : WriteEnd) (s : Session) (first : Text) (rest : List Text)
    → s.pipeline.items ≡ first ∷ rest
    → given (http (on_write_end e s)) ≡ given (http s)
unfolding on_write_end
write_end-given write_aborted s first rest items = refl
write_end-given (write_failed what) s first rest items = refl
write_end-given (write_done close) s first rest items =
    on_write-given close s.pipeline (omega (arith, ap length items))

pub session_timer-given :
    (fails expired : Bool) (s : Session)
    → given (http (on_session_timer fails expired s).0) ≡ given (http s)
unfolding on_session_timer
session_timer-given true expired s = refl
session_timer-given false true s = refl
session_timer-given false false s = refl

pub timer-given :
    (expired : Bool) (s : Socket) (posts : List Text)
    → given (websocket (on_timer expired s) posts) ≡ given (websocket s posts)
unfolding on_timer
timer-given expired s posts = ground arith

pub ping-given :
    (s : Socket) (posts : List Text)
    → given (websocket (on_ping s) posts) ≡ given (websocket s posts)
unfolding on_ping
ping-given s posts = ground arith

pub activity-given :
    (s : Socket) (posts : List Text)
    → given (websocket (activity s) posts) ≡ given (websocket s posts)
unfolding activity
activity-given s posts = refl

pub message-given :
    (s : Socket) (posts : List Text)
    → given (websocket (on_message_read s) posts) ≡ given (websocket s posts)
unfolding on_message_read begin_message end_message activity
message-given s posts = refl

pub accept-given :
    (failed : Bool) (s : Socket) (posts : List Text)
    → given (websocket (on_accept failed s) posts) ≡ given (websocket s posts)
unfolding on_accept
accept-given failed s posts = ground arith
