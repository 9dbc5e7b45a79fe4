-- ===== src/Web/Reference.antt =====
-- An implementation of what `Regexes` asks of std::regex, on expressions without special characters.
use pow_server.Prelude.{
  ℕ, ◌≡◌, refl, ap, false, [], ◌∷◌, ◌++◌, Text, ◌==◌, if◌then◌else◌, text_eq, All, drop,
}
use pow_server.Web.Endpoints.{Regexes}

-- The text without its last character.
unfoldable pub init : Text → Text
init [] = []
init (c ∷ []) = []
init (c ∷ d ∷ s) = c ∷ init (d ∷ s)

unfoldable pub replaced : Text → Text → Text
replaced [] by = []
replaced (c ∷ s) by = if c == b'?' then by ++ replaced s by else c ∷ replaced s by

init-append : (s : Text) (c : ℕ) → init (s ++ c ∷ []) ≡ s
unfolding init
init-append [] c = refl
init-append (d ∷ []) c = refl
init-append (d ∷ e ∷ s) c = ap (◌∷◌ d) (init-append (e ∷ s) c)

pub replaced_none : (s by : Text) → All (λ c. (c == b'?') ≡ false) s → replaced s by ≡ s
unfolding replaced
replaced_none [] by h = refl
replaced_none (c ∷ s) by h = rw (h.0, replaced) (ap (◌∷◌ c) (replaced_none s by h.1))

pub match_plain : (target s : Text) → text_eq target (init (s ++ b'$' ∷ [])) ≡ text_eq target s
match_plain target s = ap (text_eq target) (init-append s b'$')

abbrev pub plain_regexes : Regexes Text
plain_regexes = record {
  regex = λ s. drop 1 s;
  regex_match = λ target r. text_eq target (init r);
  groups = λ target r. [];
  replace_marks = replaced;
  replace_marks_none = replaced_none;
  regex_match_plain = λ target s h. match_plain target s;
}
