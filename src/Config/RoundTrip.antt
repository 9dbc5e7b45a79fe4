-- ===== src/Config/RoundTrip.antt =====
-- What the constructor of `config` reads from the settings that export_documented writes
-- (src/workserver/config.hpp).
use pow_server.Prelude.{
  ℕ, ◌^◌, ◌<◌, ◌≡◌, refl, true, false, List, [], ◌∷◌, String, Text, codes, none, some, ok, err,
  Result, text_eq, All, arith,
}
use pow_server.Bigint.{IsWord, Bigint, Multiprecision, u128_size, number, to_hex, of_hex, from_hex}
use pow_server.Bigint.RoundTrip.{of_hex-to_hex}
use pow_server.Config.{Config, Server, Device, DeviceType, Work, Toml, default_admin}
use pow_server.Config.Export.{Setting, text, number as number_of, flag, Section, documented}
use pow_server.Config.Load.{
  load_server, load_work, number_or, get_device, load_devices, load_admin, load, device_type_of,
}
use pow_server.Config.Loaded.{InRange}

-- The device that the exported section describes when its keys are read: its ids are not among
-- the keys that are read, and its memory is zero.
abbrev pub exported_device : Device
exported_device = record {
  device_type = DeviceType.gpu;
  platform_id = 0;
  device_id = 0;
  threads = 0;
  memory = 0;
}

of_hex-from_hex :
    (mp : Multiprecision) (size : ℕ) (garbage : Bigint) (s : Text) (b : Bigint)
    → of_hex mp size garbage s ≡ ok b
    → from_hex mp size garbage s ≡ (b, ok tt)
unfolding of_hex
of_hex-from_hex mp size garbage s b h = Pair-cases (from_hex mp size garbage s) h
  where
    Pair-cases :
        (r : Bigint × Result {0} (Unit {0}))
        → elim (r.1) [ ok _ ↦ ok (r.0) | err e ↦ err e ] ≡ ok b
        → r ≡ (b, ok tt)
    Pair-cases (b', ok u) h = cc
    Pair-cases (b', err e) h = cc

module _ {Table Node : Type 0} (toml : Toml Table Node) where
  -- A table holds the value of a key, as the type that the value has.
  abbrev pub Holds : Table → String → Setting → Type 0
  Holds t key (text s) = toml.get_text t key ≡ some s
  Holds t key (number_of n) = (bits : ℕ) → n < 2 ^ bits → toml.get_unsigned bits t key ≡ ok (some n)
  Holds t key (flag b) = toml.get_bool t key ≡ some b

  -- A tree has a section: a table with its entries and no other numbers.
  pub record HasSection (tree : Table) (s : Section) : Type 0 where
    pub present : toml.contains tree s.name ≡ true
    pub table_node : toml.is_table (toml.get tree s.name) ≡ true
    pub same_table : toml.as_table (toml.get tree s.name) ≡ toml.get_table tree s.name
    pub entries : All (λ e. Holds (toml.get_table tree s.name) e.key e.value) s.entries
    pub others :
        (bits : ℕ) (key : String)
        → All (λ e. text_eq (codes e.key) (codes key) ≡ false) s.entries
        → toml.get_unsigned bits (toml.get_table tree s.name) key ≡ ok none

  abbrev pub HasSections : Table → List Section → Type 0
  HasSections tree sections = All (HasSection tree) sections

  load_work-documented :
      (mp : Multiprecision) (t : Table) (w initial : Work)
      → IsWord u128_size w.base_difficulty
      → w.mock_work_generation_delay < 2 ^ 16
      → Holds t "base_difficulty" (text (to_hex mp u128_size w.base_difficulty))
      → Holds t "mock_work_generation_delay" (number_of w.mock_work_generation_delay)
      → (base : Bigint) × (load_work toml mp t initial ≡ ok (record w { base_difficulty = base }))
        × (number mp u128_size base ≡ number mp u128_size w.base_difficulty)
  unfolding load_work number_or
  load_work-documented mp t w initial is_word fits base delay =
      let (b, read, same) =
        of_hex-to_hex mp u128_size (omega arith) initial.base_difficulty w.base_difficulty
          is_word in
      (
        b,
        let stored = of_hex-from_hex mp u128_size initial.base_difficulty _ b read in
            rw (base, stored, delay 16 fits) refl,
        same,
      )

  load_server-documented :
      (mp : Multiprecision) (tree : Table) (c : Config) (initial : Server)
      → InRange c.server
      → HasSections tree (documented mp c)
      → load_server toml (toml.get_table tree "server") initial ≡ ok c.server
  unfolding load_server documented number_or
  load_server-documented mp tree c initial r h =
      let (bind, (port, (threads, (prioritization, (control, (limit, (log, _))))))) = h.0.entries in
      rw
        (
          bind,
          port 16 r.port_fits,
          threads 16 r.threads_fit,
          prioritization,
          control,
          limit 32 r.limit_fits,
          log,
        )
        refl

  load_admin-documented :
      (mp : Multiprecision) (tree : Table) (c : Config)
      → HasSections tree (documented mp c)
      → load_admin toml (toml.get_table tree "admin") default_admin ≡ c.admin
  unfolding load_admin documented
  load_admin-documented mp tree c h =
      let (remote, (enable, (path, _))) = h.1.1.1.0.entries in rw (remote, enable, path) refl

  get_device-documented :
      (mp : Multiprecision) (tree : Table) (c : Config)
      → HasSections tree (documented mp c)
      → load_devices toml (toml.get tree "device") ≡ ok (exported_device ∷ [])
  unfolding load_devices documented get_device device_type_of text_eq number_or
  get_device-documented mp tree c h =
      let d = h.1.1.0 in
      let (kind, (_, (_, (memory, (threads, _))))) = d.entries in
      rw
        (
          d.table_node,
          d.same_table,
          kind,
          d.others 64 "platform" (refl, (refl, (refl, (refl, (refl, tt))))),
          d.others 64 "device" (refl, (refl, (refl, (refl, (refl, tt))))),
          threads 64 (omega arith),
          memory 64 (omega arith),
        )
        refl

  -- A reader that finds in a tree exactly the settings that are exported gets back the server, the
  -- work and the admin settings, if these are in the ranges of their types; but the devices are one
  -- GPU with the ids that are the default, no threads and no memory, whatever they were.
  pub load-documented :
      (mp : Multiprecision) (tree : Table) (c : Config) (server : Server) (work : Work)
      → InRange c.server
      → IsWord u128_size c.work.base_difficulty
      → c.work.mock_work_generation_delay < 2 ^ 16
      → HasSections tree (documented mp c)
      → (base : Bigint) × (load toml mp tree server work
          ≡ ok (record c {
            devices = exported_device ∷ [];
            work = record c.work { base_difficulty = base };
          }))
        × (number mp u128_size base ≡ number mp u128_size c.work.base_difficulty)
  unfolding load documented
  load-documented mp tree c server work r is_word fits h =
      let (hex, (delay, _)) = h.1.0.entries in
      let (base, loaded, same) =
        load_work-documented mp (toml.get_table tree "work") c.work work is_word fits hex delay in
      (
        base,
        rw
            (
              h.0.present,
              h.1.0.present,
              h.1.1.0.present,
              h.1.1.1.0.present,
              loaded,
              get_device-documented mp tree c h,
              load_server-documented mp tree c server r h,
              load_admin-documented mp tree c h,
            )
            refl,
        same,
      )
