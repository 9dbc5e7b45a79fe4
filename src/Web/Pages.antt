-- ===== src/Web/Pages.antt =====
-- src/workserver/webserver.hpp: http_session::handle_request, from the target to the response. The
-- regular expressions and the files are parameters.
use pow_server.Prelude.{
  ℕ, Bool, false, not, ◌&&◌, ◌||◌, List, [], ◌∷◌, ◌++◌, none, some, Text, codes, ◌==◌,
  if◌then◌else◌, is_nil,
}
use pow_server.Web.Endpoints.{Regexes, RestEndpoint, Verb, head_verb, same_verb, find_endpoint}
use pow_server.Web.Mime.{mime_type}

-- path_cat, as it is compiled outside of Windows: one slash at the end of the base is dropped.
unfoldable pub trim : Text → Text
trim [] = []
trim (c ∷ []) = if c == b'/' then [] else c ∷ []
trim (c ∷ d ∷ s) = c ∷ trim (d ∷ s)

unfoldable pub path_cat : Text → Text → Text
unfolding trim
path_cat base path = if is_nil base then path else trim base ++ path

-- req.target ().find ("..") != npos
unfoldable pub has_dots : Text → Bool
has_dots [] = false
has_dots (c ∷ []) = false
has_dots (c ∷ d ∷ s) = let rest = has_dots (d ∷ s) in c == b'.' && d == b'.' || rest

-- req.target ().back () == '/'
unfoldable pub ends_in_slash : Text → Bool
ends_in_slash [] = false
ends_in_slash (c ∷ []) = c == b'/'
ends_in_slash (c ∷ d ∷ s) = ends_in_slash (d ∷ s)

unfoldable pub is_absolute : Text → Bool
is_absolute [] = false
is_absolute (c ∷ s) = c == b'/'

-- What opening a file gives: its size, that there is none, or the message of another error.
pub data Opened : Type 0 where
  opened : ℕ → Opened
  no_such_file : Opened
  failed : Text → Opened

-- The settings for static files: static_pages_allow and static_pages_allow_remote.
pub record StaticPages : Type 0 where
  pub allow : Bool
  pub allow_remote : Bool

-- The responses; `handled` is the call of an endpoint's handler with its parameters.
pub data Response (Action : Type 0) : Type 0 where
  bad_request : Text → Response Action
  not_found : Text → Response Action
  server_error : Text → Response Action
  handled : Action → List Text → Response Action
  head_of : Text → Text → ℕ → Response Action
  page : Text → Text → ℕ → Response Action

module _ (open_file : Text → Opened) (doc_root : Text) where
  -- The path of the requested file.
  unfoldable pub requested_path : Text → Text
  unfolding path_cat ends_in_slash
  requested_path target =
      let path = path_cat doc_root target in
      if ends_in_slash target then path ++ codes "index.html" else path

  -- The answer once the file is open.
  unfoldable pub send_file : {Action : Type 0} → Bool → Text → ℕ → Response Action
  send_file is_head path size =
      if is_head then head_of path (mime_type path) size else page path (mime_type path) size

  -- A file that does not exist is replaced by the root's index.html.
  unfoldable pub send_index : {Action : Type 0} → Bool → Text → Response Action
  unfolding send_file path_cat
  send_index is_head target =
      let path = path_cat doc_root (codes "/index.html") in
      elim (open_file path) [
        | opened size ↦ send_file is_head path size
        | no_such_file ↦ not_found target
        | failed message ↦ server_error message
      ]

  unfoldable pub send_page : {Action : Type 0} → Bool → Text → Response Action
  unfolding send_index send_file requested_path
  send_page is_head target =
      let path = requested_path target in
      elim (open_file path) [
        | opened size ↦ send_file is_head path size
        | no_such_file ↦ send_index is_head target
        | failed message ↦ server_error message
      ]

  -- handle_request: `loopback` says whether the peer's address is one.
  unfoldable pub handle_request :
      {Regex Action : Type 0} (re : Regexes Regex) (handlers : List (RestEndpoint Regex Action))
      (pages : StaticPages) (loopback : Bool)
      → Verb
      → Text
      → Response Action
  unfolding send_page same_verb
  handle_request re handlers pages loopback verb target =
      if not (is_absolute target) || has_dots target
      then bad_request (codes "Illegal request-target")
      else elim (find_endpoint re handlers verb target) [
        | some (action, params) ↦ handled action params
        | none ↦
            if not pages.allow || (not pages.allow_remote && not loopback)
            then bad_request (codes "Access denied")
            else send_page (same_verb verb head_verb) target
      ]
