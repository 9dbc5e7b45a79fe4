-- ===== src/Json/Reference.antt =====
-- An implementation of what `PropertyTree` asks of boost, on flat JSON objects of texts: the
-- strings between the quotes are keys and values in turn.
use pow_server.Prelude.{
  ℕ, ◌^◌, ◌≡◌, ◌≢◌, refl, sym, List, [], ◌∷◌, ◌++◌, Option, none, some, Text, codes, ok, ltb, ◌==◌,
  if◌then◌else◌, text_eq,
}
use pow_server.Json.{PropertyTree, Key, Key-discrete, Value, text, number, real}

abbrev pub Object : Type 0
Object = List (Key × Value ℕ)

unfoldable pub choose :
    {k j : Key} → Dec (k ≡ j) → Option (Value ℕ) → Option (Value ℕ) → Option (Value ℕ)
choose (yes _) here there = here
choose (no _) here there = there

unfoldable pub find : Key → Object → Option (Value ℕ)
unfolding choose
find k [] = none
find k ((j, v) ∷ t) = choose (Key-discrete k j) (some v) (find k t)

unfoldable pub text_of : Option (Value ℕ) → Option Text
text_of (some (text s)) = some s
text_of _ = none

unfoldable pub unsigned_of : Option (Value ℕ) → Option ℕ
unsigned_of (some (number n)) = if ltb n (2 ^ 32) then some n else none
unsigned_of _ = none

unfoldable pub double_of : Option (Value ℕ) → Option ℕ
double_of (some (real d)) = some d
double_of _ = none

-- The strings between quotes: `inside` is the string that is being read, if one is.
unfoldable pub strings : Option Text → Text → List Text
strings inside [] = []
strings none (c ∷ s) = if c == b'"' then strings (some []) s else strings none s
strings (some word) (c ∷ s) =
    if c == b'"' then word ∷ strings none s else strings (some (word ++ c ∷ [])) s

-- The keys of a request; what has no name here is kept as a status.
unfoldable pub key_of : Text → Key
key_of s =
    if text_eq s (codes "id")
    then Key.id
    else if text_eq s (codes "action")
    then Key.action
    else if text_eq s (codes "hash")
    then Key.hash
    else if text_eq s (codes "work")
    then Key.work
    else Key.status

unfoldable pub pairs : List Text → Object
pairs (k ∷ v ∷ rest) = (key_of k, text v) ∷ pairs rest
pairs _ = []

-- The texts of an object, in quotes.
unfoldable pub print : Object → Text
print [] = []
print ((k, text s) ∷ t) = b'"' ∷ (s ++ b'"' ∷ print t)
print ((k, _) ∷ t) = print t

choose_self :
    {k : Key} (d : Dec (k ≡ k)) (here there : Option (Value ℕ)) → choose d here there ≡ here
unfolding choose
choose_self (yes _) here there = refl
choose_self (no differ) here there = absurd (differ refl)

choose_ne :
    {k j : Key} (d : Dec (k ≡ j)) (here there : Option (Value ℕ))
    → (k ≡ j → ⊥)
    → choose d here there ≡ there
unfolding choose
choose_ne (yes same) here there apart = absurd (apart same)
choose_ne (no _) here there apart = refl

pub get-put_self : (k : Key) (s : Text) (t : Object) → text_of (find k ((k, text s) ∷ t)) ≡ some s
unfolding text_of find
get-put_self k s t = rw (choose_self (Key-discrete k k) (some (text s)) (find k t)) refl

pub get-put_ne :
    (k j : Key) (v : Value ℕ) (t : Object)
    → k ≢ j
    → text_of (find j ((k, v) ∷ t)) ≡ text_of (find j t)
unfolding find
get-put_ne k j v t apart =
    rw (choose_ne (Key-discrete j k) (some v) (find j t) (λ same. apart (sym same))) refl

pub get-empty : (k : Key) → text_of (find k []) ≡ none
unfolding text_of find
get-empty k = refl

abbrev pub reference : PropertyTree ℕ Object
reference = record {
  empty = [];
  put = λ t k v. (k, v) ∷ t;
  add_child = λ t k child. t;
  push_back = λ t child. t;
  get_optional = λ t k. text_of (find k t);
  get_double = λ t k. double_of (find k t);
  get_unsigned = λ t k. unsigned_of (find k t);
  read_json = λ s. ok (pairs (strings none s));
  write_json = print;
  get_optional-empty = get-empty;
  get_optional-put_self = λ t k s. get-put_self k s t;
  get_optional-put_ne = λ t k j v apart. get-put_ne k j v t apart;
}
