-- ===== src/Web/Served.antt =====
-- Which files handle_request gives out (src/workserver/webserver.hpp).
use pow_server.Prelude.{
  ℕ, ◌≡◌, refl, ◌⊎◌, inl, inr, Bool, true, false, List, none, Text, codes, arith,
}
use pow_server.Web.Endpoints.{Regexes, RestEndpoint, Verb, head_verb, same_verb, find_endpoint}
use pow_server.Web.Mime.{mime_type}
use pow_server.Web.Pages.{
  Opened, opened, no_such_file, failed, StaticPages, Response, page, handle_request, send_page,
  send_index, send_file, requested_path, path_cat, has_dots, is_absolute,
}

-- What holds if a file is given out: the target is absolute and has no two dots in a row, no
-- endpoint takes it, the peer may see static pages, and the file is the requested one or, if that
-- does not exist, the index of the root.
pub record IsServed {Regex Action : Type 0} (open_file : Text → Opened) (doc_root : Text)
    (re : Regexes Regex) (handlers : List (RestEndpoint Regex Action)) (pages : StaticPages)
    (loopback : Bool) (verb : Verb) (target path mime : Text) (size : ℕ) : Type 0 where
  pub absolute : is_absolute target ≡ true
  pub inside : has_dots target ≡ false
  pub no_endpoint : find_endpoint re handlers verb target ≡ none
  pub no_head : same_verb verb head_verb ≡ false
  pub allowed : pages.allow ≡ true
  pub near : (pages.allow_remote ≡ true) ⊎ (loopback ≡ true)
  pub file_there : open_file path ≡ opened size
  pub type_shown : mime ≡ mime_type path
  pub located :
      (path ≡ requested_path open_file doc_root target)
      ⊎ ((open_file (requested_path open_file doc_root target) ≡ no_such_file)
          × (path ≡ path_cat doc_root (codes "/index.html")))

pub Opened-cases :
    (o : Opened)
    → ((size : ℕ) × (o ≡ opened size)) ⊎ (o ≡ no_such_file) ⊎ ((m : Text) × (o ≡ failed m))
Opened-cases (opened size) = inl (size, refl)
Opened-cases no_such_file = inr (inl refl)
Opened-cases (failed m) = inr (inr (m, refl))

module _ (open_file : Text → Opened) (doc_root : Text) where
  send_page_lem :
      {Action : Type 0} (is_head : Bool) (target path mime : Text) (size : ℕ)
      → ◌≡◌ {A = Response Action}
          (send_page open_file doc_root is_head target)
          (page path mime size)
      → (is_head ≡ false)
        × (open_file path ≡ opened size)
        × (mime ≡ mime_type path)
        × ((path ≡ requested_path open_file doc_root target)
            ⊎ ((open_file (requested_path open_file doc_root target) ≡ no_such_file)
                × (path ≡ path_cat doc_root (codes "/index.html"))))
  unfolding send_page send_index send_file
  send_page_lem is_head target path mime size e =
      elim (Opened-cases (open_file (requested_path open_file doc_root target))) [
        | inl (there, first) ↦ ground arith
        | inr (inr (message, first)) ↦ absurd (ground arith)
        | inr (inl first) ↦
            elim (Opened-cases (open_file (path_cat doc_root (codes "/index.html")))) [
              | inl (there, second) ↦ ground arith
              | inr (inl second) ↦ absurd (ground arith)
              | inr (inr (message, second)) ↦ absurd (ground arith)
            ]
      ]

  -- A page is given out only for an absolute target without two dots in a row that no endpoint
  -- takes and for a method other than HEAD, to a peer that may see static pages; it is the requested
  -- file, or the index of the root if that does not exist, with the type of its own path.
  pub handle_request-IsServed :
      {Regex Action : Type 0} (re : Regexes Regex) (handlers : List (RestEndpoint Regex Action))
      (pages : StaticPages) (loopback : Bool) (verb : Verb) (target path mime : Text) (size : ℕ)
      → handle_request open_file doc_root re handlers pages loopback verb target
        ≡ page path mime size
      → IsServed open_file doc_root re handlers pages loopback verb target path mime size
  unfolding handle_request
  handle_request-IsServed re handlers pages loopback verb target path mime size e =
      ground (arith, send_page_lem (same_verb verb head_verb) target path mime size)
