-- ===== src/Entry/Accepting.antt =====
-- The listener inside the whole program (src/entry/nano_pow_server.cpp) is the listener of
-- src/workserver/webserver.hpp on its own.
use pow_server.Prelude.{ℕ, ◌+◌, ◌≡◌, false, Text, ok}
use pow_server.Config.{Config}
use pow_server.Entry.{Action}
use pow_server.Entry.Program.{
  Program, Connection, WebLibraries, answer, send_own, on_http, on_message, on_accepted_by,
  on_other_read,
}
use pow_server.Entry.Steps.{
  Step, connection, request, message, read_ends, write_ends, accepts, message_fails, sent,
  session_timer, timer, pinged, control_frame, runs_post, take, finish, signal, leaves, Reach,
  initial, later,
}
use pow_server.Handler.{Libraries}
use pow_server.Web.Listener.{
  Listener, SetUp, new_listener, Accepted, on_accepted, count, is_gone, is_connected, accepting_lem,
}
use pow_server.Web.Listener as Listener
use pow_server.Web.Pages.{Response, handled, bad_request, not_found, server_error, head_of, page}

-- The listener of a program, with how its accepts have ended.
abbrev IsListening : {Double : Type 0} → Listener → Program Double → Type 0
IsListening first p = Listener.Reach first p.ended p.listener

module _ {Double Float Tree Regex : Type 0} (lib : Libraries Double Float Tree)
    (web : WebLibraries Regex) (config : Config) where
  answer-IsListening :
      (first : Listener) (i : ℕ) (body : Text) (response : Response Action) (begun : ℕ → Connection)
      (p : Program Double)
      → IsListening first p
      → IsListening first (answer lib web config i body response begun p)
  unfolding answer send_own
  answer-IsListening first i body (handled action params) begun p l = l
  answer-IsListening first i body (bad_request why) begun p l = l
  answer-IsListening first i body (not_found target) begun p l = l
  answer-IsListening first i body (server_error what) begun p l = l
  answer-IsListening first i body (head_of path mime size) begun p l = l
  answer-IsListening first i body (page path mime size) begun p l = l

  Step-IsListening :
      {p q : Program Double} (first : Listener)
      → Step lib web config p q
      → IsListening first p
      → IsListening first q
  unfolding on_accepted_by on_other_read on_message on_http
  Step-IsListening first (connection i a on waits free new) l = Listener.later a l waits
  Step-IsListening {p} first (request i s r on is_http busy) l =
      answer-IsListening first i r.body _ _ p l
  Step-IsListening first (message i s posts body on is_socket busy) l = l
  Step-IsListening first (read_ends i j s e on is_http busy free new) l = l
  Step-IsListening first (write_ends i s item rest e on is_http items going) l = l
  Step-IsListening first (accepts i s posts refused on is_socket shaking) l = l
  Step-IsListening first (message_fails i s posts on is_socket busy) l = l
  Step-IsListening first (sent i s posts fails on is_socket busy) l = l
  Step-IsListening first (session_timer i s fails expired on is_http) l = l
  Step-IsListening first (timer i s posts expired on is_socket) l = l
  Step-IsListening first (pinged i s posts on is_socket) l = l
  Step-IsListening first (control_frame i s posts on is_socket) l = l
  Step-IsListening first (runs_post i s text posts on is_socket) l = l
  Step-IsListening first (take now on free) l = l
  Step-IsListening first (finish now before r after on split) l = l
  Step-IsListening first (signal on) l = l
  Step-IsListening first (leaves on) l = l

  Reach-IsListening :
      {first : Listener} {p : Program Double} → Reach lib web config first p → IsListening first p
  Reach-IsListening (initial connections fresh) = Listener.initial
  Reach-IsListening {first} (later r st) = Step-IsListening first st (Reach-IsListening r)

  -- In every history of the whole program whose listener could open its acceptor and set its option,
  -- whether or not its bind and listen came out well: one accept is under way until the address of a
  -- peer that is gone is asked for, and there is one session for each connection that was accepted.
  pub one_accept :
      (s : SetUp) {first : Listener} {p : Program Double}
      → s.open_fails ≡ false
      → new_listener s ≡ ok first
      → Reach lib web config first p
      → (p.listener.accepts + count is_gone p.ended ≡ 1)
        × (p.listener.sessions ≡ count is_connected p.ended)
  one_accept s {first} {p} opens made r =
      accepting_lem s first p.listener p.ended opens made (Reach-IsListening r)
