-- ===== src/Entry/Refines.antt =====
-- The work handler inside the whole program (src/entry/nano_pow_server.cpp) is the handler on its own.
use pow_server.Prelude.{ℕ, Text}
use pow_server.Config.{Config}
use pow_server.Entry.{Action, work_endpoint}
use pow_server.Entry.Balance.{perform-Reach}
use pow_server.Entry.Program.{
  Program, Connection, WebLibraries, answer, send_own, on_http, on_message, on_accepted_by,
  on_other_read,
}
use pow_server.Entry.Steps.{
  Step, connection, request, message, read_ends, write_ends, accepts, message_fails, sent,
  session_timer, timer, pinged, control_frame, runs_post, take, finish, signal, leaves, Reach,
  initial, later,
}
use pow_server.Handler.{Libraries}
use pow_server.Web.Listener.{Listener}
use pow_server.Handler.System.{System, on_take, on_finish}
use pow_server.Handler.System as HandlerSystem
use pow_server.Web.Pages.{Response, handled, bad_request, not_found, server_error, head_of, page}

module _ {Double Float Tree Regex : Type 0} (lib : Libraries Double Float Tree)
    (web : WebLibraries Regex) (config : Config) where
  -- The program's handler goes through states that it reaches on its own.
  answer-Reach :
      (i : ℕ) (body : Text) (response : Response Action) (begun : ℕ → Connection)
      (p : Program Double)
      → HandlerSystem.Reach lib config p.system
      → HandlerSystem.Reach lib config (answer lib web config i body response begun p).system
  unfolding answer send_own
  answer-Reach i body (handled action params) begun p r =
      perform-Reach lib web config i body action p.system r
  answer-Reach i body (bad_request why) begun p r = r
  answer-Reach i body (not_found target) begun p r = r
  answer-Reach i body (server_error what) begun p r = r
  answer-Reach i body (head_of path mime size) begun p r = r
  answer-Reach i body (page path mime size) begun p r = r

  Step-Reach :
      {p q : Program Double}
      → Step lib web config p q
      → HandlerSystem.Reach lib config p.system
      → HandlerSystem.Reach lib config q.system
  unfolding on_http on_message on_accepted_by on_other_read
  Step-Reach (connection i a alive waits free new) h = h
  Step-Reach {p} (request i s r alive is_http busy) h = answer-Reach i r.body _ _ p h
  Step-Reach {p} (message i s posts body alive is_socket busy) h =
      perform-Reach lib web config i body work_endpoint p.system h
  Step-Reach (read_ends i j s e alive is_http busy free new) h = h
  Step-Reach (write_ends i s first rest e alive is_http items going) h = h
  Step-Reach (accepts i s posts refused alive is_socket shaking) h = h
  Step-Reach (message_fails i s posts alive is_socket busy) h = h
  Step-Reach (sent i s posts fails alive is_socket busy) h = h
  Step-Reach (session_timer i s fails expired alive is_http) h = h
  Step-Reach (timer i s posts expired alive is_socket) h = h
  Step-Reach (pinged i s posts alive is_socket) h = h
  Step-Reach (control_frame i s posts alive is_socket) h = h
  Step-Reach (runs_post i s text posts alive is_socket) h = h
  Step-Reach (take now alive free) h = HandlerSystem.later h (HandlerSystem.take now free)
  Step-Reach (finish now before r after alive split) h =
      HandlerSystem.later h (HandlerSystem.finish now before r after split)
  Step-Reach (signal alive) h = h
  Step-Reach (leaves stops) h = h

  -- The work handler inside the program goes only through states that it reaches on its own, so all
  -- that holds of those holds in the program.
  pub Reach-Reach :
      {first : Listener} {p : Program Double}
      → Reach lib web config first p
      → HandlerSystem.Reach lib config p.system
  Reach-Reach (initial connections fresh) = HandlerSystem.initial
  Reach-Reach (later r st) = Step-Reach st (Reach-Reach r)
