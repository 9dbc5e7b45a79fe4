-- ===== src/Json.antt =====
-- boost::property_tree, as src/workserver/work_handler.cpp uses it: flat trees of text values,
-- children, and JSON text. The library is a parameter with the laws of `put` and `get`.
pub mod Reference
use pow_server.Prelude.{ℕ, ◌^◌, ◌<◌, ◌≡◌, ◌≢◌, Bool, Option, none, some, Text, Result}

-- The keys that the sources spell; none holds a dot, which would be a path.
pub data Key : Type 0 where
  id action hash difficulty multiplier priority work error success testing valid status : Key
  start end request result queued active completed : Key

unfoldable pub Key-discrete : Discrete Key
Key-discrete = hlevel

-- What the sources put: a text, an integer, a double or a truth value.
pub data Value (Double : Type 0) : Type 0 where
  text : Text → Value Double
  number : ℕ → Value Double
  real : Double → Value Double
  flag : Bool → Value Double

pub record PropertyTree (Double Tree : Type 0) : Type 0 where
  pub empty : Tree
  pub put : Tree → Key → Value Double → Tree
  pub add_child : Tree → Key → Tree → Tree
  -- push_back ({"", child}), an element of a JSON array
  pub push_back : Tree → Tree → Tree
  -- get_optional<std::string>
  pub get_optional : Tree → Key → Option Text
  -- get<double> and get<unsigned>: nothing where the key is missing or the value does not convert
  pub get_double : Tree → Key → Option Double
  pub get_unsigned : Tree → Key → Option ℕ
  pub read_json : Text → Result Tree
  -- write_json fails only for trees that the sources do not build
  pub write_json : Tree → Text
  pub get_optional-empty : (k : Key) → get_optional empty k ≡ none
  pub get_optional-put_self :
      (t : Tree) (k : Key) (s : Text) → get_optional (put t k (text s)) k ≡ some s
  pub get_optional-put_ne :
      (t : Tree) (k j : Key) (v : Value Double)
      → k ≢ j
      → get_optional (put t k v) j ≡ get_optional t j
