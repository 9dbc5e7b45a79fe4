-- ===== src/Config/Loaded.antt =====
-- What the loaded settings are: ranges, the order of devices, and what is refused.
use pow_server.Prelude.{
  ℕ, ◌^◌, ◌<◌, ◌≡◌, ◌↔◌, ◌⊎◌, refl, inl, inr, List, [], ◌∷◌, some, Error, ok, err, arith, text_eq,
  codes, text_eq_iff, Text, ◌≢◌, String, Option-cases, >>=-eq-ok, >>=-eq-err, map,
}
use pow_server.Config.{Server, Device, DeviceType, Toml, type_as_string}
use pow_server.Config.Load.{value_or, number_or, device_type_of, get_device, get_devices}

-- The fields of the server section are in the ranges of their machine types.
pub record InRange (s : Server) : Type 0 where
  pub port_fits : s.port < 2 ^ 16
  pub threads_fit : s.threads < 2 ^ 16
  pub limit_fits : s.request_limit < 2 ^ 32

-- The names under which a device's type is read are those under which it is shown.
device_type_of-type_as_string :
    (s : Text) (k : DeviceType) → (device_type_of s ≡ ok k) ↔ (s ≡ type_as_string k)
unfolding device_type_of type_as_string text_eq
device_type_of-type_as_string s DeviceType.cpu = ground (arith, text_eq_iff s (codes "cpu"))
device_type_of-type_as_string s DeviceType.gpu =
    ground (arith, text_eq_iff s (codes "cpu"), text_eq_iff s (codes "gpu"))

module _ {Table Node : Type 0} (toml : Toml Table Node) where
  abbrev Refused : Table → Error → Type 0
  Refused t e = (key : String) × (toml.get_unsigned 64 t key ≡ err e)

  number_or-Refused :
      (t : Table) (key : String) (d : ℕ) (e : Error)
      → number_or toml 64 t key d ≡ err e
      → Refused t e
  unfolding number_or
  number_or-Refused t key d e h = elim (>>=-eq-err (toml.get_unsigned 64 t key) _ h) [
    | inl thrown ↦ (key, thrown)
    | inr (n, read, more) ↦ absurd (ground arith)
  ]

  -- The type of a table, when it is refused.
  device_type_of-err :
      (t : Table) (e : Error)
      → device_type_of (value_or (toml.get_text t "type") (codes "cpu")) ≡ err e
      → (s : Text) × (toml.get_text t "type" ≡ some s)
        × (s ≢ codes "cpu")
        × (s ≢ codes "gpu")
        × (e ≡ Error.invalid_device_type)
  unfolding device_type_of text_eq
  device_type_of-err t e h = elim (Option-cases (toml.get_text t "type")) [
    | inl missing ↦ absurd (ground arith)
    | inr (s, found) ↦ (s, found, λ is_cpu. ground arith, λ is_gpu. ground arith, ground arith)
  ]

  -- A device table is refused only if one of its numbers is, or its type is there and is neither of
  -- the two names.
  get_device-err :
      (t : Table) (e : Error)
      → get_device toml t ≡ err e
      → Refused t e
        ⊎ ((s : Text) × (toml.get_text t "type" ≡ some s)
            × (s ≢ codes "cpu")
            × (s ≢ codes "gpu")
            × (e ≡ Error.invalid_device_type))
  unfolding get_device
  get_device-err t e h = elim (>>=-eq-err (number_or toml 64 t "platform" _) _ h) [
    | inl refused ↦ inl (number_or-Refused t "platform" _ e refused)
    | inr (_, _, h1) ↦ elim (>>=-eq-err (number_or toml 64 t "device" _) _ h1) [
      | inl refused ↦ inl (number_or-Refused t "device" _ e refused)
      | inr (_, _, h2) ↦ elim (>>=-eq-err (number_or toml 64 t "threads" _) _ h2) [
        | inl refused ↦ inl (number_or-Refused t "threads" _ e refused)
        | inr (_, _, h3) ↦ elim (>>=-eq-err (number_or toml 64 t "memory" _) _ h3) [
          | inl refused ↦ inl (number_or-Refused t "memory" _ e refused)
          | inr (_, _, h4) ↦ elim (>>=-eq-err (device_type_of _) _ h4) [
            | inl refused ↦ inr (device_type_of-err t e refused)
            | inr (kind, _, done) ↦ absurd cc
          ]
        ]
      ]
    ]
  ]

  -- Devices are loaded one for each table, in the order of the tables.
  get_devices-map :
      (ts : List Table) (ds : List Device)
      → get_devices toml ts ≡ ok ds
      → map (get_device toml) ts ≡ map ok ds
  unfolding get_devices
  get_devices-map [] [] h = refl
  get_devices-map [] (d ∷ ds) h = cc
  get_devices-map (t ∷ ts) ds h =
      let (d, first, more) = >>=-eq-ok (get_device toml t) _ h in
      let (rest, others, all) = >>=-eq-ok (get_devices toml ts) _ more in
      let ih = get_devices-map ts rest others in cc (first, ih, all)
