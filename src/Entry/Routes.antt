-- ===== src/Entry/Routes.antt =====
-- Which requests reach which handler of main (src/entry/nano_pow_server.cpp).
use pow_server.Prelude.{
  ◌≡◌, refl, ◌∙◌, ap, sym, subst, map, ◌↔◌, ◌⊎◌, inl, inr, true, false, ◌&&◌, List, [], ◌∷◌, ◌++◌,
  Option, none, some, Text, codes, text_eq, text_eq_iff, if◌then◌else◌, All, arith, Bool-cases,
  ◌==◌,
}
use pow_server.Web.Endpoints.{
  Verb, get_verb, post_verb, delete_verb, Regexes, RestEndpoint, add_endpoint, add_get_endpoint,
  add_post_endpoint, add_delete_endpoint, add_websocket_endpoint, find_endpoint, find_websocket,
  regex_final, is_plain, same_verb,
}
use pow_server.Entry.{
  Action, work_endpoint, work_queue_endpoint, work_queue_delete_endpoint, ping, stop, version,
  register_endpoints,
}

-- The methods and targets that each handler serves, as the interface of the server is documented.
abbrev pub IsRoute : Action → Verb → Text → Type 0
IsRoute work_endpoint verb target =
    (verb ≡ post_verb) × ((target ≡ codes "/") ⊎ (target ≡ codes "/api/v1/work"))
IsRoute work_queue_endpoint verb target = (verb ≡ get_verb) × (target ≡ codes "/api/v1/work/queue")
IsRoute work_queue_delete_endpoint verb target =
    (verb ≡ delete_verb) × (target ≡ codes "/api/v1/work/queue")
IsRoute ping verb target = (verb ≡ get_verb) × (target ≡ codes "/api/v1/ping")
IsRoute stop verb target = (verb ≡ get_verb) × (target ≡ codes "/api/v1/stop")
IsRoute version verb target = (verb ≡ get_verb) × (target ≡ codes "/api/v1/version")

same_verb_iff : (v w : Verb) → (same_verb v w ≡ true) ↔ (v ≡ w)
unfolding same_verb
same_verb_iff v w = ground arith

-- What main registers, in its order.
abbrev routes : List (Verb × Text × Action)
routes =
    (post_verb, codes "/", work_endpoint)
    ∷ (post_verb, codes "/api/v1/work", work_endpoint)
    ∷ (get_verb, codes "/api/v1/work/queue", work_queue_endpoint)
    ∷ (delete_verb, codes "/api/v1/work/queue", work_queue_delete_endpoint)
    ∷ (get_verb, codes "/api/v1/ping", ping)
    ∷ (get_verb, codes "/api/v1/stop", stop)
    ∷ (get_verb, codes "/api/v1/version", version)
    ∷ []

-- The first of the routes with the verb and the text of a target.
abbrev first : List (Verb × Text × Action) → Verb → Text → Option Action
first [] verb target = none
first ((v, path, a) ∷ rest) verb target =
    if text_eq target path && same_verb v verb then some a else first rest verb target

abbrev IsLiteral : (Verb × Text × Action) → Type 0
IsLiteral (v, path, a) = All (λ c. (c == b'?') ≡ false) path × All (λ c. is_plain c ≡ true) path

first-IsRoute :
    (a : Action) (verb : Verb) (target : Text)
    → (first routes verb target ≡ some a) ↔ IsRoute a verb target
first-IsRoute a verb target = ground (
  arith,
  text_eq_iff target (codes "/"),
  text_eq_iff target (codes "/api/v1/work"),
  text_eq_iff target (codes "/api/v1/work/queue"),
  text_eq_iff target (codes "/api/v1/ping"),
  text_eq_iff target (codes "/api/v1/stop"),
  text_eq_iff target (codes "/api/v1/version"),
  same_verb_iff post_verb verb,
  same_verb_iff get_verb verb,
  same_verb_iff delete_verb verb,
)

websocket-IsLiteral : IsLiteral (get_verb, codes "/websocket", work_endpoint)
unfolding is_plain
websocket-IsLiteral = ground arith

-- The handler alone, without the parameters.
abbrev pub action_of : Option (Action × List Text) → Option Action
action_of none = none
action_of (some (a, params)) = some a

module _ {Regex : Type 0} (re : Regexes Regex) where
  -- A path of plain characters matches exactly its own text.
  matches_plain :
      (target path : Text)
      → All (λ c. (c == b'?') ≡ false) path
      → All (λ c. is_plain c ≡ true) path
      → re.regex_match target (re.regex (regex_final re path)) ≡ text_eq target path
  unfolding regex_final
  matches_plain target path no_mark plain =
      ap (λ p. re.regex_match target (re.regex (b'^' ∷ (p ++ b'$' ∷ []))))
        (re.replace_marks_none path (codes "([^\\?]+)") no_mark)
      ∙ re.regex_match_plain target path plain

  abbrev endpoint : (Verb × Text × Action) → RestEndpoint Regex Action
  endpoint (v, path, a) = record {
    verb = v;
    path_verbatim = path;
    path = re.regex (regex_final re path);
    handler = a;
  }

  find_endpoint-first :
      (table : List (Verb × Text × Action)) (verb : Verb) (target : Text)
      → All IsLiteral table
      → action_of (find_endpoint re (map endpoint table) verb target) ≡ first table verb target
  unfolding find_endpoint
  find_endpoint-first [] verb target h = refl
  find_endpoint-first ((v, path, a) ∷ rest) verb target h =
      rw (matches_plain target path h.0.0 h.0.1)
        (elim (Bool-cases (text_eq target path && same_verb v verb)) [
          | inl hit ↦ rw hit refl
          | inr miss ↦ rw miss (find_endpoint-first rest verb target h.1)
        ])

  routes-IsLiteral : All IsLiteral routes
  unfolding is_plain
  routes-IsLiteral = ground arith

  register_endpoints-handlers : (register_endpoints re).handlers ≡ map endpoint routes
  unfolding register_endpoints add_get_endpoint add_post_endpoint add_delete_endpoint
      add_websocket_endpoint add_endpoint
  register_endpoints-handlers = refl

  -- A request reaches a handler of main exactly if its method and its whole target, query
  -- included, are a route of that handler.
  pub register_endpoints-IsRoute :
      (a : Action) (verb : Verb) (target : Text)
      → (action_of (find_endpoint re (register_endpoints re).handlers verb target) ≡ some a)
        ↔ IsRoute a verb target
  register_endpoints-IsRoute a verb target =
      subst (λ o. (o ≡ some a) ↔ IsRoute a verb target)
        (sym (
          ap (λ es. action_of (find_endpoint re es verb target)) register_endpoints-handlers
          ∙ find_endpoint-first routes verb target routes-IsLiteral))
        (first-IsRoute a verb target)

  -- The target of an upgrade reaches the work handler exactly if it is /websocket.
  pub register_endpoints-websocket :
      (path : Text)
      → (find_websocket re (register_endpoints re).websocket_handlers path ≡ some work_endpoint)
        ↔ (path ≡ codes "/websocket")
  unfolding register_endpoints add_get_endpoint add_post_endpoint add_delete_endpoint
      add_websocket_endpoint add_endpoint find_websocket
  register_endpoints-websocket path =
      rw (matches_plain path (codes "/websocket") websocket-IsLiteral.0 websocket-IsLiteral.1)
        (ground (arith, text_eq_iff path (codes "/websocket")))
