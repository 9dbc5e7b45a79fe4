-- ===== src/Web/Endpoints.antt =====
-- src/workserver/webserver.hpp: the endpoints, how a webserver registers them, and how a session
-- finds the one for a target. std::regex is a parameter.
use pow_server.Prelude.{
  ℕ, ◌+◌, ◌≡◌, Bool, true, false, ◌&&◌, ◌||◌, List, [], ◌∷◌, ◌++◌, Option, none, some, Text, codes,
  ◌==◌, leb, if◌then◌else◌, text_eq, All,
}

-- http::verb: the methods that the program names, and the others by a number of their own.
pub data Verb : Type 0 where
  get_verb post_verb delete_verb head_verb : Verb
  other_verb : ℕ → Verb

abbrev verb_number : Verb → ℕ
verb_number get_verb = 0
verb_number post_verb = 1
verb_number delete_verb = 2
verb_number head_verb = 3
verb_number (other_verb n) = n + 4

unfoldable pub same_verb : Verb → Verb → Bool
same_verb v w = verb_number v == verb_number w

-- A character that stands for itself in a regular expression.
unfoldable pub is_plain : ℕ → Bool
is_plain c =
    c == b'/'
    || (leb b'0' c && leb c b'9')
    || (leb b'A' c && leb c b'Z')
    || (leb b'a' c && leb c b'z')

-- std::regex with its default grammar: `^` and `$` stand for the ends of the text.
pub record Regexes (Regex : Type 0) : Type 0 where
  pub regex : Text → Regex
  pub regex_match : Text → Regex → Bool
  -- the groups that regex_search finds, behind the whole match
  pub groups : Text → Regex → List Text
  -- regex_replace (s, std::regex ("\\?"), by)
  pub replace_marks : Text → Text → Text
  pub replace_marks_none : (s by : Text) → All (λ c. (c == b'?') ≡ false) s → replace_marks s by ≡ s
  pub regex_match_plain :
      (target s : Text)
      → All (λ c. is_plain c ≡ true) s
      → regex_match target (regex (b'^' ∷ (s ++ b'$' ∷ []))) ≡ text_eq target s

-- rest_endpoint and websocket_endpoint; `Action` is the type of the handlers.
pub record RestEndpoint (Regex Action : Type 0) : Type 0 where
  pub verb : Verb
  pub path_verbatim : Text
  pub path : Regex
  pub handler : Action

pub record WebsocketEndpoint (Regex Action : Type 0) : Type 0 where
  pub path_verbatim : Text
  pub path : Regex
  pub handler : Action

-- The members of webserver that its clients fill.
pub record Webserver (Regex Action : Type 0) : Type 0 where
  pub handlers : List (RestEndpoint Regex Action)
  pub websocket_handlers : List (WebsocketEndpoint Regex Action)

-- regex_final
unfoldable pub regex_final : {Regex : Type 0} → Regexes Regex → Text → Text
regex_final re path = b'^' ∷ (re.replace_marks path (codes "([^\\?]+)") ++ b'$' ∷ [])

module _ {Regex Action : Type 0} (re : Regexes Regex) where
  unfoldable pub add_endpoint :
      Verb → Text → Action → Webserver Regex Action → Webserver Regex Action
  unfolding regex_final
  add_endpoint verb path handler ws = record ws {
    handlers =
        ws.handlers
        ++ record {
          verb = verb;
          path_verbatim = path;
          path = re.regex (regex_final re path);
          handler = handler;
        }
          ∷ [];
  }

  unfoldable pub add_get_endpoint : Text → Action → Webserver Regex Action → Webserver Regex Action
  unfolding add_endpoint
  add_get_endpoint path handler ws = add_endpoint get_verb path handler ws

  unfoldable pub add_post_endpoint : Text → Action → Webserver Regex Action → Webserver Regex Action
  unfolding add_endpoint
  add_post_endpoint path handler ws = add_endpoint post_verb path handler ws

  unfoldable pub add_delete_endpoint :
      Text → Action → Webserver Regex Action → Webserver Regex Action
  unfolding add_endpoint
  add_delete_endpoint path handler ws = add_endpoint delete_verb path handler ws

  unfoldable pub add_websocket_endpoint :
      Text → Action → Webserver Regex Action → Webserver Regex Action
  unfolding regex_final
  add_websocket_endpoint path handler ws = record ws {
    websocket_handlers =
        ws.websocket_handlers
        ++ record { path_verbatim = path; path = re.regex (regex_final re path); handler = handler }
          ∷ [];
  }

  -- The loop over the handlers in http_session::handle_request: the handler, and its parameters.
  unfoldable pub find_endpoint :
      List (RestEndpoint Regex Action) → Verb → Text → Option (Action × List Text)
  unfolding same_verb
  find_endpoint [] verb target = none
  find_endpoint (e ∷ es) verb target =
      if re.regex_match target e.path && same_verb e.verb verb
      then some (e.handler, re.groups target e.path)
      else find_endpoint es verb target

  -- The loop over the WebSocket handlers in http_session::on_read.
  unfoldable pub find_websocket : List (WebsocketEndpoint Regex Action) → Text → Option Action
  find_websocket [] target = none
  find_websocket (e ∷ es) target =
      if re.regex_match target e.path then some e.handler else find_websocket es target
