-- ===== src/Entry/Control.antt =====
-- Which requests make the process exit (src/entry/nano_pow_server.cpp, with the session's
-- handle_request of src/workserver/webserver.hpp).
use pow_server.Prelude.{
  ℕ, ◌≡◌, refl, sym, ap, subst, ◌∙◌, ◌↔◌, inl, inr, Bool, true, false, not, ◌||◌, List, Option,
  none, some, Text, codes, if◌then◌else◌, arith, Bool-cases, Option-cases,
}
use pow_server.Config.{Config}
use pow_server.Entry.{
  Action, work_endpoint, work_queue_endpoint, work_queue_delete_endpoint, ping, stop, version,
  register_endpoints, stop_handler, web_config,
}
use pow_server.Entry.Program.{
  Phase, serving, exited, Program, Connection, WebLibraries, Request, answer, send_own, on_http,
  exits,
}
use pow_server.Entry.Routes.{IsRoute, action_of, register_endpoints-IsRoute}
use pow_server.Handler.{Libraries}
use pow_server.Web.Endpoints.{Verb, get_verb, find_endpoint}
use pow_server.Web.Pages.{
  Response, bad_request, not_found, server_error, handled, head_of, page, is_absolute, has_dots,
}
use pow_server.Web.Handled.{handled_by, handle_request-handled_by}
use pow_server.Web.Session.{Session}

module _ {Double Float Tree Regex : Type 0} (lib : Libraries Double Float Tree)
    (web : WebLibraries Regex) (config : Config) where
  -- What the response of a session makes of the phase.
  abbrev pub phase_by : Option (Action × List Text) → Phase → Phase
  phase_by none before = before
  phase_by (some (action, params)) before = if exits lib web config action then exited else before

  pub answer-phase :
      (i : ℕ) (body : Text) (response : Response Action) (begun : ℕ → Connection)
      (p : Program Double)
      → (answer lib web config i body response begun p).phase
        ≡ phase_by (handled_by response) p.phase
  unfolding answer send_own
  answer-phase i body (handled action params) begun p = refl
  answer-phase i body (bad_request why) begun p = refl
  answer-phase i body (not_found target) begun p = refl
  answer-phase i body (server_error what) begun p = refl
  answer-phase i body (head_of path mime size) begun p = refl
  answer-phase i body (page path mime size) begun p = refl

  either-exited : (b : Bool) → ((if b then exited else serving) ≡ exited) ↔ (b ≡ true)
  either-exited true = (λ e. refl, λ e. refl)
  either-exited false = (λ e. absurd cc, λ e. absurd cc)

  exits-stop :
      (action : Action)
      → exits lib web config action ≡ true
      → (action ≡ stop) × (config.server.allow_control ≡ true)
  unfolding exits stop_handler
  exits-stop work_endpoint e = absurd cc
  exits-stop work_queue_endpoint e = absurd cc
  exits-stop work_queue_delete_endpoint e = absurd cc
  exits-stop ping e = absurd cc
  exits-stop stop e = (refl, e)
  exits-stop version e = absurd cc

  module _ (verb : Verb) (target : Text) where
    reached : Option (Action × List Text)
    reached =
        if not (is_absolute target) || has_dots target
        then none
        else find_endpoint web.re (register_endpoints web.re).handlers verb target

    reached-found :
        (found : Action × List Text)
        → reached ≡ some found
        → find_endpoint web.re (register_endpoints web.re).handlers verb target ≡ some found
    unfolding reached
    reached-found found e = elim (Bool-cases (not (is_absolute target) || has_dots target)) [
      | inl bad ↦ absurd (ground arith)
      | inr good ↦ ground arith
    ]

    found-reached :
        (found : Action × List Text)
        → not (is_absolute target) || has_dots target ≡ false
        → find_endpoint web.re (register_endpoints web.re).handlers verb target ≡ some found
        → reached ≡ some found
    unfolding reached
    found-reached found good e = rw good e

    stop-reached :
        target ≡ codes "/api/v1/stop" → not (is_absolute target) || has_dots target ≡ false
    unfolding is_absolute has_dots
    stop-reached e = rw e refl

    stop-found :
        verb ≡ get_verb
        → target ≡ codes "/api/v1/stop"
        → (params : List Text) × (find_endpoint web.re
              (register_endpoints web.re).handlers
              verb
              target
            ≡ some (stop, params))
    stop-found is_get is_target =
        let found = find_endpoint web.re (register_endpoints web.re).handlers verb target in
        let routed : action_of found ≡ some stop =
          (register_endpoints-IsRoute web.re stop verb target).1 (is_get, is_target) in
        elim (Option-cases found) [
          | inl missing ↦
              let gone : none ≡ some stop = subst (λ o. action_of o ≡ some stop) missing routed in
              absurd cc
          | inr ((action, params), same) ↦
              let is_stop : some action ≡ some stop =
                subst (λ o. action_of o ≡ some stop) same routed in
              let stops : action ≡ stop = cc in (params, same ∙ ap (λ a. some (a, params)) stops)
        ]

    reached-exited :
        (phase_by reached serving ≡ exited)
        ↔ (IsRoute stop verb target × (config.server.allow_control ≡ true))
    unfolding exits stop_handler
    reached-exited = (
      λ ends. elim (Option-cases reached) [
        | inl missing ↦
            (let gone : serving ≡ exited = subst (λ o. phase_by o serving ≡ exited) missing ends in
              absurd cc)
        | inr ((action, params), found) ↦
            let (is_stop, allowed) = exits-stop action (
              (either-exited (exits lib web config action)).0
                (subst (λ o. phase_by o serving ≡ exited) found ends)) in
            (
              (register_endpoints-IsRoute web.re stop verb target).0
                  (ap action_of (reached-found (action, params) found) ∙ ap some is_stop),
              allowed,
            )
      ],
      λ ((is_get, is_target), allowed).
          let (params, found) = stop-found is_get is_target in
          subst (λ o. phase_by o serving ≡ exited)
            (sym (found-reached (stop, params) (stop-reached is_target) found))
            ((either-exited config.server.allow_control).1 allowed),
    )

  -- A request that a session of the program reads while it serves makes it exit exactly if it is a GET
  -- of the target of stop and control requests are allowed.
  pub on_http-exits :
      (i : ℕ) (s : Session) (r : Request) (p : Program Double)
      → p.phase ≡ serving
      → ((on_http lib web config i s r p).phase ≡ exited)
        ↔ (IsRoute stop r.verb r.target × (config.server.allow_control ≡ true))
  unfolding on_http reached
  on_http-exits i s r p runs =
      subst
        (λ h. (h ≡ exited) ↔ (IsRoute stop r.verb r.target × (config.server.allow_control ≡ true)))
        (sym (
          answer-phase i r.body _ _ p
          ∙ ap (λ o. phase_by o p.phase)
              (handle_request-handled_by web.open_file config.admin.doc_root web.re
                (register_endpoints web.re).handlers (web_config config) r.loopback r.verb r.target)
          ∙ ap (phase_by (reached r.verb r.target)) runs))
        (reached-exited r.verb r.target)
