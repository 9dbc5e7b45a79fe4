-- ===== src/Web/Handled.antt =====
-- src/workserver/webserver.hpp: which requests reach the handler of an endpoint.
use pow_server.Prelude.{
  ℕ, codes, ◌≡◌, refl, inl, inr, Bool, true, false, not, ◌&&◌, ◌||◌, List, Option, none, some, Text,
  if◌then◌else◌, Bool-cases, Option-cases,
}
use pow_server.Web.Endpoints.{Regexes, RestEndpoint, Verb, find_endpoint, same_verb, head_verb}
use pow_server.Web.Pages.{
  Opened, StaticPages, Response, handled, handle_request, is_absolute, has_dots, send_page,
  send_index, send_file, requested_path, path_cat,
}
use pow_server.Web.Served.{Opened-cases}

-- What an endpoint's handler is called with, if one is.
abbrev pub handled_by : {A : Type 0} → Response A → Option (A × List Text)
handled_by (handled action params) = some (action, params)
handled_by _ = none

module _ {A : Type 0} (open_file : Text → Opened) (doc_root : Text) where
  send_file-handled_by :
      (is_head : Bool) (path : Text) (size : ℕ)
      → handled_by {A = A} (send_file open_file doc_root is_head path size) ≡ none
  unfolding send_file
  send_file-handled_by true path size = refl
  send_file-handled_by false path size = refl

  send_index-handled_by :
      (is_head : Bool) (target : Text)
      → handled_by {A = A} (send_index open_file doc_root is_head target) ≡ none
  unfolding send_index
  send_index-handled_by is_head target =
      elim (Opened-cases (open_file (path_cat doc_root (codes "/index.html")))) [
        | inl (size, there) ↦ rw (handled_by, there) (send_file-handled_by is_head _ size)
        | inr (inl missing) ↦ rw (handled_by, missing) refl
        | inr (inr (message, bad)) ↦ rw (handled_by, bad) refl
      ]

  send_page-handled_by :
      (is_head : Bool) (target : Text)
      → handled_by {A = A} (send_page open_file doc_root is_head target) ≡ none
  unfolding send_page
  send_page-handled_by is_head target =
      elim (Opened-cases (open_file (requested_path open_file doc_root target))) [
        | inl (size, there) ↦ rw (handled_by, there) (send_file-handled_by is_head _ size)
        | inr (inl missing) ↦ rw (handled_by, missing) (send_index-handled_by is_head target)
        | inr (inr (message, bad)) ↦ rw (handled_by, bad) refl
      ]

  -- The endpoints get exactly the targets that are absolute and have no two dots in a row.
  pub handle_request-handled_by :
      {Regex : Type 0} (re : Regexes Regex) (handlers : List (RestEndpoint Regex A))
      (pages : StaticPages) (loopback : Bool) (verb : Verb) (target : Text)
      → handled_by (handle_request open_file doc_root re handlers pages loopback verb target) ≡ (
          if not (is_absolute target) || has_dots target
          then none
          else find_endpoint re handlers verb target)
  unfolding handle_request
  handle_request-handled_by re handlers pages loopback verb target =
      elim (Bool-cases (not (is_absolute target) || has_dots target)) [
        | inl bad ↦ rw bad refl
        | inr good ↦ elim (Option-cases (find_endpoint re handlers verb target)) [
          | inr (found, is_found) ↦ rw (good, is_found) refl
          | inl missing ↦
              elim (Bool-cases (not pages.allow || (not pages.allow_remote && not loopback))) [
                | inl denied ↦ rw (good, missing, denied) refl
                | inr allowed ↦
                    rw (good, missing, allowed)
                      (send_page-handled_by (same_verb verb head_verb) target)
              ]
        ]
      ]
