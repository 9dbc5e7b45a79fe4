-- ===== src/Web/Mime.antt =====
-- src/workserver/webserver.hpp: mime_type, the content type of a file by its extension.
use pow_server.Prelude.{
  ℕ, ◌+◌, ◌≡◌, refl, ◌∙◌, Bool, ◌&&◌, List, [], ◌∷◌, Text, codes, leb, ◌==◌, if◌then◌else◌, is_nil,
  text_eq, map, arith, ap, Bool-cases, inl, inr,
}

-- path.substr (path.rfind (".")): the text from the last dot on, or the empty text
unfoldable pub extension : Text → Text
extension [] = []
extension (c ∷ s) =
    let rest = extension s in if is_nil rest then (if c == b'.' then c ∷ s else []) else rest

unfoldable pub to_lower : ℕ → ℕ
to_lower c = if leb b'A' c && leb c b'Z' then c + 32 else c

-- boost::beast::iequals
unfoldable pub iequals : Text → Text → Bool
unfolding to_lower
iequals s t = text_eq (map to_lower s) (map to_lower t)

-- The extensions that mime_type tests, in their order, each with its type.
abbrev pub types : List (Text × Text)
types =
    (codes ".htm", codes "text/html")
    ∷ (codes ".html", codes "text/html")
    ∷ (codes ".css", codes "text/css")
    ∷ (codes ".txt", codes "text/plain")
    ∷ (codes ".js", codes "application/javascript")
    ∷ (codes ".json", codes "application/json")
    ∷ (codes ".xml", codes "application/xml")
    ∷ (codes ".png", codes "image/png")
    ∷ (codes ".jpe", codes "image/jpeg")
    ∷ (codes ".jpeg", codes "image/jpeg")
    ∷ (codes ".jpg", codes "image/jpeg")
    ∷ (codes ".gif", codes "image/gif")
    ∷ (codes ".bmp", codes "image/bmp")
    ∷ (codes ".ico", codes "image/vnd.microsoft.icon")
    ∷ (codes ".tiff", codes "image/tiff")
    ∷ (codes ".tif", codes "image/tiff")
    ∷ (codes ".svg", codes "image/svg+xml")
    ∷ (codes ".svgz", codes "image/svg+xml")
    ∷ []

-- The type of the first extension that is equal, and the type behind the last test.
unfoldable pub type_of : List (Text × Text) → Text → Text
type_of [] ext = codes "application/text"
type_of ((known, mime) ∷ rest) ext = if iequals ext known then mime else type_of rest ext

unfoldable pub mime_type : Text → Text
unfolding extension type_of
mime_type path = type_of types (extension path)

to_lower_idem : (c : ℕ) → to_lower (to_lower c) ≡ to_lower c
unfolding to_lower
to_lower_idem c = ground arith

map_idem : (s : Text) → map to_lower (map to_lower s) ≡ map to_lower s
map_idem [] = refl
map_idem (c ∷ s) = cc (to_lower_idem c, map_idem s)

iequals_lower : (s t : Text) → iequals (map to_lower s) t ≡ iequals s t
unfolding iequals
iequals_lower s t = rw (map_idem s) refl

to_lower_dot : (c : ℕ) → (to_lower c == b'.') ≡ (c == b'.')
unfolding to_lower
to_lower_dot c = ground arith

is_nil-map : (f : ℕ → ℕ) (s : Text) → is_nil (map f s) ≡ is_nil s
is_nil-map f [] = refl
is_nil-map f (c ∷ s) = refl

extension-map : (s : Text) → extension (map to_lower s) ≡ map to_lower (extension s)
unfolding extension
extension-map [] = refl
extension-map (c ∷ s) = elim (Bool-cases (is_nil (extension s))) [
  | inl last ↦ elim (Bool-cases (c == b'.')) [
    | inl dot ↦
        rw (extension-map s, is_nil-map to_lower (extension s), to_lower_dot c, last, dot) refl
    | inr other ↦
        rw (extension-map s, is_nil-map to_lower (extension s), to_lower_dot c, last, other) refl
  ]
  | inr behind ↦ rw (extension-map s, is_nil-map to_lower (extension s), behind) refl
]

type_of_lower :
    (table : List (Text × Text)) (ext : Text) → type_of table (map to_lower ext) ≡ type_of table ext
unfolding type_of
type_of_lower [] ext = refl
type_of_lower ((known, mime) ∷ rest) ext = rw (iequals_lower ext known, type_of_lower rest ext) refl

-- The letters' case makes no difference to the content type.
pub mime_type-to_lower : (path : Text) → mime_type (map to_lower path) ≡ mime_type path
unfolding mime_type
mime_type-to_lower path =
    ap (type_of types) (extension-map path) ∙ type_of_lower types (extension path)
