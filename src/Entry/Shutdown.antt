-- ===== src/Entry/Shutdown.antt =====
-- How the whole program comes to its end: a signal and the joins, exit, and an exception
-- (src/entry/nano_pow_server.cpp and webserver::start in src/workserver/webserver.hpp).
use pow_server.Prelude.{
  ℕ, ◌<◌, ◌≡◌, ◌≢◌, ◌⊎◌, refl, sym, ap, subst, ◌∙◌, inl, inr, true, false, List, Option, none, some,
  Text, arith,
}
use pow_server.Config.{Config}
use pow_server.Entry.{Action, register_endpoints, web_config}
use pow_server.Entry.Control.{phase_by, answer-phase, on_http-exits}
use pow_server.Entry.Program.{
  Phase, serving, stopped, left, exited, failed, Program, WebLibraries, Request, on_http,
  on_message, on_accepted_by, on_other_read,
}
use pow_server.Entry.State.{works}
use pow_server.Entry.Steps.{
  Step, connection, request, message, read_ends, write_ends, accepts, message_fails, sent,
  session_timer, timer, pinged, control_frame, runs_post, take, finish, signal, leaves, Reach,
  initial, later,
}
use pow_server.Handler.{Libraries}
use pow_server.Web.Handled.{handled_by}
use pow_server.Web.Listener.{
  Listener, Accepted, accept_failed, peer_gone, connected, on_accepted, count, is_gone,
}
use pow_server.Web.Pages.{handle_request}
use pow_server.Web.Session.{Session}

module _ {Double Float Tree Regex : Type 0} (lib : Libraries Double Float Tree)
    (web : WebLibraries Regex) (config : Config) where
  -- What a step makes of the phase.
  data Moves (p q : Program Double) : Type 0 where
    goes_on : works p.phase ≡ true → q.phase ≡ p.phase → Moves p q
    calls_exit : config.server.allow_control ≡ true → q.phase ≡ exited → Moves p q
    throws : 0 < count is_gone q.ended → q.phase ≡ failed → Moves p q
    is_stopped : q.phase ≡ stopped → Moves p q
    is_left : q.phase ≡ left → Moves p q

  phase_by-serving :
      (found : Option (Action × List Text))
      → (phase_by lib web config found serving ≡ serving)
        ⊎ (phase_by lib web config found serving ≡ exited)
  phase_by-serving none = inl refl
  phase_by-serving (some (action, params)) = ground arith

  serves-Moves : (p q : Program Double) → p.phase ≡ serving → q.phase ≡ p.phase → Moves p q
  serves-Moves p q runs same = goes_on (subst (λ h. works h ≡ true) (sym runs) refl) same

  request-Moves :
      (i : ℕ) (s : Session) (r : Request) (p : Program Double)
      → p.phase ≡ serving
      → Moves p (on_http lib web config i s r p)
  unfolding on_http
  request-Moves i s r p runs =
      let response =
        handle_request web.open_file config.admin.doc_root web.re
          (register_endpoints web.re).handlers (web_config config) r.loopback r.verb r.target in
      let found = handled_by response in
      let phase : (on_http lib web config i s r p).phase ≡ phase_by lib web config found serving =
        answer-phase lib web config i r.body response _ p
        ∙ ap (phase_by lib web config found) runs in
      elim (phase_by-serving found) [
        | inl same ↦ serves-Moves p _ runs (phase ∙ same ∙ sym runs)
        | inr gone ↦
            calls_exit ((on_http-exits lib web config i s r p runs).0 (phase ∙ gone)).1
              (phase ∙ gone)
      ]

  accepted-Moves :
      (i : ℕ) (a : Accepted) (p : Program Double)
      → p.phase ≡ serving
      → Moves p (on_accepted_by i a p)
  unfolding on_accepted_by on_accepted
  accepted-Moves i accept_failed p runs = serves-Moves p _ runs refl
  accepted-Moves i peer_gone p runs = throws (omega arith) refl
  accepted-Moves i connected p runs = serves-Moves p _ runs refl

  Step-Moves : {p q : Program Double} → Step lib web config p q → Moves p q
  unfolding on_message on_other_read
  Step-Moves {p} (connection i a on waits free new) = accepted-Moves i a p on
  Step-Moves {p} (request i s r on is_http busy) = request-Moves i s r p on.0
  Step-Moves {p} (message i s posts body on is_socket busy) = serves-Moves p _ on.0 refl
  Step-Moves {p} (read_ends i j s e on is_http busy free new) = serves-Moves p _ on.0 refl
  Step-Moves {p} (write_ends i s first rest e on is_http items going) = serves-Moves p _ on.0 refl
  Step-Moves {p} (accepts i s posts refused on is_socket shaking) = serves-Moves p _ on.0 refl
  Step-Moves {p} (message_fails i s posts on is_socket busy) = serves-Moves p _ on.0 refl
  Step-Moves {p} (sent i s posts fails on is_socket busy) = serves-Moves p _ on.0 refl
  Step-Moves {p} (session_timer i s fails expired on is_http) = serves-Moves p _ on.0 refl
  Step-Moves {p} (timer i s posts expired on is_socket) = serves-Moves p _ on.0 refl
  Step-Moves {p} (pinged i s posts on is_socket) = serves-Moves p _ on.0 refl
  Step-Moves {p} (control_frame i s posts on is_socket) = serves-Moves p _ on.0 refl
  Step-Moves {p} (runs_post i s text posts on is_socket) = serves-Moves p _ on.0 refl
  Step-Moves (take now on free) = goes_on on refl
  Step-Moves (finish now before r after on split) = goes_on on refl
  Step-Moves (signal on) = is_stopped refl
  Step-Moves (leaves on) = is_left refl

  -- A phase in which nothing goes on is not that of a step that goes on.
  goes_on-ne :
      (h : Phase) (p q : Program Double)
      → works h ≡ false
      → works p.phase ≡ true
      → q.phase ≡ p.phase
      → q.phase ≢ h
  goes_on-ne h p q ends on same e =
      let off : works p.phase ≡ false = subst (λ g. works g ≡ false) (sym e ∙ same) ends in cc

  -- While control requests are not allowed, no history makes a handler call exit, and an exception
  -- ends the process only if the peer of an accepted connection was gone.
  pub Reach-runs :
      {first : Listener} {p : Program Double}
      → config.server.allow_control ≡ false
      → Reach lib web config first p
      → (p.phase ≢ exited) × (count is_gone p.ended ≡ 0 → p.phase ≢ failed)
  Reach-runs off (initial connections fresh) = (λ e. cc, λ none_gone e. cc)
  Reach-runs off (later {p} {q} r st) = elim (Step-Moves st) [
    | goes_on on same ↦
        (goes_on-ne exited p q refl on same, λ none_gone. goes_on-ne failed p q refl on same)
    | calls_exit allowed to ↦ absurd cc
    | throws gone to ↦ (λ e. cc, λ none_gone e. omega arith)
    | is_stopped to ↦ (λ e. cc, λ none_gone e. cc)
    | is_left to ↦ (λ e. cc, λ none_gone e. cc)
  ]
