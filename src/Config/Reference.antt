-- ===== src/Config/Reference.antt =====
-- An implementation of what `Toml` asks of cpptoml, on the sections that export_documented writes
-- (src/workserver/config.hpp): a tree is the list of its sections, a table the list of one.
use pow_server.Prelude.{
  ℕ, ◌^◌, ◌<◌, ◌≡◌, refl, Bool, true, false, ◌||◌, List, [], ◌∷◌, ◌++◌, String, Text, codes, Option,
  none, some, Result, Error, ok, err, ltb, if◌then◌else◌, text_eq, append-nil, All, arith,
}
use pow_server.Bigint.{Multiprecision}
use pow_server.Config.{Toml, Config}
use pow_server.Config.Export.{Setting, text, number, flag, Entry, Section, documented}
use pow_server.Config.RoundTrip.{Holds, HasSection, HasSections}

abbrev pub Sections : Type 0
Sections = List Section

unfoldable pub find : List Entry → String → Option Setting
find [] key = none
find (e ∷ es) key = if text_eq (codes e.key) (codes key) then some e.value else find es key

unfoldable pub entries_of : Sections → List Entry
entries_of [] = []
entries_of (s ∷ ss) = s.entries ++ entries_of ss

unfoldable pub has_section : Sections → String → Bool
has_section [] key = false
has_section (s ∷ ss) key = text_eq (codes s.name) (codes key) || has_section ss key

unfoldable pub section : Sections → String → Sections
section [] key = []
section (s ∷ ss) key = if text_eq (codes s.name) (codes key) then s ∷ [] else section ss key

unfoldable pub text_of : Option Setting → Option Text
text_of (some (text s)) = some s
text_of _ = none

unfoldable pub bool_of : Option Setting → Option Bool
bool_of (some (flag b)) = some b
bool_of _ = none

unfoldable pub unsigned_of : ℕ → Option Setting → Result (Option ℕ)
unsigned_of bits (some (number n)) =
    if ltb n (2 ^ bits) then ok (some n) else err (Error.library (codes "overflow"))
unsigned_of bits _ = ok none

unsigned_of-fits : (n bits : ℕ) → n < 2 ^ bits → unsigned_of bits (some (number n)) ≡ ok (some n)
unfolding unsigned_of
unsigned_of-fits n bits h = ground arith

find-none :
    (es : List Entry) (key : String)
    → All (λ e. text_eq (codes e.key) (codes key) ≡ false) es
    → find es key ≡ none
unfolding find
find-none [] key h = refl
find-none (e ∷ es) key h = rw (h.0, find) (find-none es key h.1)

unfoldable pub sectioned : Toml Sections Sections
sectioned = record {
  parse_base_and_override = λ base override. ok [];
  contains = has_section;
  get_table = section;
  get = section;
  get_text = λ t key. text_of (find (entries_of t) key);
  get_bool = λ t key. bool_of (find (entries_of t) key);
  get_unsigned = λ bits t key. unsigned_of bits (find (entries_of t) key);
  is_table = λ n. true;
  is_table_array = λ n. false;
  as_table = λ n. n;
  as_table_array = λ n. [];
}

-- The first section with a name that the tree has.
section-HasSection :
    (tree : Sections) (s : Section)
    → has_section tree s.name ≡ true
    → section tree s.name ≡ s ∷ []
    → All (λ e. Holds sectioned (s ∷ []) e.key e.value) s.entries
    → HasSection sectioned tree s
unfolding sectioned entries_of unsigned_of
section-HasSection tree s present found held = record {
  present = present;
  table_node = refl;
  same_table = refl;
  entries = rw found held;
  others =
      λ bits key absent. rw (found, entries_of, append-nil, find-none s.entries key absent) refl;
}

-- The sections that are written are those that the tree has.
pub documented-HasSections :
    (mp : Multiprecision) (c : Config) → HasSections sectioned (documented mp c) (documented mp c)
unfolding documented sectioned entries_of has_section section find text_of bool_of text_eq
documented-HasSections mp c =
    let tree = documented mp c in
    let number_fits = unsigned_of-fits in
    (
      section-HasSection tree _ refl refl (
        refl,
        (
          number_fits c.server.port,
          (
            number_fits c.server.threads,
            (refl, (refl, (number_fits c.server.request_limit, (refl, tt)))),
          ),
        ),
      ),
      (
        section-HasSection tree _ refl refl
            (refl, (number_fits c.work.mock_work_generation_delay, tt)),
        (
          section-HasSection tree _ refl refl
              (refl, (number_fits 0, (number_fits 0, (number_fits 0, (number_fits 0, tt))))),
          (section-HasSection tree _ refl refl (refl, (refl, (refl, tt))), tt),
        ),
      ),
    )
