-- ===== src/Web/Url.antt =====
-- src/workserver/webserver.hpp: the class `url`, which splits a target into path and query.
use pow_server.Prelude.{
  ℕ, ◌≡◌, refl, false, [], ◌∷◌, ◌++◌, Text, ◌==◌, if◌then◌else◌, All, arith, ap, ◌∙◌,
}

pub record Url : Type 0 where
  pub path : Text
  pub query : Text

-- std::find: the text from the first `c` on, which is empty if there is none
unfoldable pub find : ℕ → Text → Text
find c [] = []
find c (d ∷ s) = if d == c then d ∷ s else find c s

-- path.assign (path_i, query_i): the text before the first `c`
unfoldable pub before : ℕ → Text → Text
before c [] = []
before c (d ∷ s) = if d == c then [] else d ∷ before c s

-- `if (query_i != url_a.end ()) ++query_i;`
unfoldable pub tail : Text → Text
tail [] = []
tail (d ∷ s) = s

-- url::url
unfoldable pub parse_url : Text → Url
unfolding find before tail
parse_url url_a =
    let from_path = find b'/' url_a in
    record { path = before b'?' from_path; query = tail (find b'?' from_path) }

abbrev pub IsFree : ℕ → Text → Type 0
IsFree c = All (λ d. (d == c) ≡ false)

before-append : (c : ℕ) (p s : Text) → IsFree c p → before c (p ++ c ∷ s) ≡ p
unfolding before
before-append c [] s h = ground arith
before-append c (d ∷ p) s h = rw (h.0, before) (ap (◌∷◌ d) (before-append c p s h.1))

find-append : (c : ℕ) (p s : Text) → IsFree c p → find c (p ++ s) ≡ find c s
unfolding find
find-append c [] s h = refl
find-append c (d ∷ p) s h = rw (h.0, find) (find-append c p s h.1)

find_here : (c : ℕ) (s : Text) → find c (c ∷ s) ≡ c ∷ s
unfolding find
find_here c s = ground arith

tail_lem : (d : ℕ) (s : Text) → tail (d ∷ s) ≡ s
unfolding tail
tail_lem d s = refl

-- A target is split at the first slash and at the first question mark behind it: what stands before
-- the slash is dropped, the path is free of question marks, and the query is all the rest.
pub parse_url-append :
    (host path query : Text)
    → IsFree b'/' host
    → IsFree b'?' path
    → parse_url (host ++ b'/' ∷ (path ++ b'?' ∷ query))
      ≡ record { path = b'/' ∷ path; query = query }
unfolding parse_url
parse_url-append host path query no_slash no_mark =
    let rest = b'/' ∷ (path ++ b'?' ∷ query) in
    let split : Text → Url = λ t. record { path = before b'?' t; query = tail (find b'?' t) } in
    let from_path = find-append b'/' host rest no_slash ∙ find_here b'/' (path ++ b'?' ∷ query) in
    let path_there = before-append b'?' (b'/' ∷ path) query (refl, no_mark) in
    let query_there =
      ap tail
        (find-append b'?' (b'/' ∷ path) (b'?' ∷ query) (refl, no_mark) ∙ find_here b'?' query) in
    ap split from_path ∙ cc (path_there, query_there ∙ tail_lem b'?' query)
