-- ===== src/Config/Load.antt =====
-- The constructor of `config`: defaults, then the sections of the TOML tree that are there.
use pow_server.Prelude.{
  ℕ, String, not, ◌&&◌, List, [], ◌∷◌, ◌++◌, Text, codes, Option, none, some, Error, Result, ok,
  err, ◌>>=◌, what, if◌then◌else◌, text_eq, is_nil,
}
use pow_server.Bigint.{Multiprecision, u128_size, from_hex}
use pow_server.Config.{
  Config, Server, Device, DeviceType, Work, Admin, Toml, Files, default_device, default_work,
  default_admin, base_difficulty_literal,
}

-- value_or
abbrev pub value_or {ℓ} : {A : Type ℓ} → Option A → A → A
value_or none d = d
value_or (some a) d = a

newline : Text
newline = codes "\n"

-- Each override on a line of its own, and an empty line.
unfoldable pub override_lines : List Text → Text
unfolding newline
override_lines [] = newline
override_lines (entry ∷ rest) = entry ++ newline ++ override_lines rest

-- the two names that a device's type may have
unfoldable pub device_type_of : Text → Result DeviceType
device_type_of s =
    if text_eq s (codes "cpu")
    then ok DeviceType.cpu
    else if text_eq s (codes "gpu")
    then ok DeviceType.gpu
    else err Error.invalid_device_type

module _ {Table Node : Type 0} (toml : Toml Table Node) (files : Files) where
  -- read_config: a parse error is thrown again with a prefix.
  unfoldable pub read_config : Text → List Text → Result Table
  unfolding newline override_lines
  read_config path overrides =
      elim (toml.parse_base_and_override (override_lines overrides)
        (if not (is_nil path) && files.exists path then files.contents path else newline)) [
          | ok tree ↦ ok tree
          | err e ↦ err (Error.library (codes "TOML config error: " ++ what e))
        ]

module _ {Table Node : Type 0} (toml : Toml Table Node) where
  -- get_as<uintN_t> (key).value_or (d)
  unfoldable pub number_or : ℕ → Table → String → ℕ → Result ℕ
  number_or bits t key d = do n ← toml.get_unsigned bits t key; ok (value_or n d)

  unfoldable pub load_server : Table → Server → Result Server
  unfolding number_or
  load_server t s = do
    let bind_address = value_or (toml.get_text t "bind") s.bind_address
    port ← number_or 16 t "port" s.port
    threads ← number_or 16 t "threads" s.threads
    let allow_prioritization =
        value_or (toml.get_bool t "allow_prioritization") s.allow_prioritization
    let allow_control = value_or (toml.get_bool t "allow_control") s.allow_control
    request_limit ← number_or 32 t "request_limit" s.request_limit
    ok (record {
      bind_address = bind_address;
      port = port;
      threads = threads;
      request_limit = request_limit;
      allow_prioritization = allow_prioritization;
      allow_control = allow_control;
      log_to_stderr = value_or (toml.get_bool t "log_to_stderr") s.log_to_stderr;
    })

  unfoldable pub load_work : Multiprecision → Table → Work → Result Work
  unfolding number_or
  load_work mp t w =
      let (base, outcome) =
        from_hex mp u128_size w.base_difficulty
          (value_or (toml.get_text t "base_difficulty") base_difficulty_literal) in
      do
        _ ← outcome
        delay ← number_or 16 t "mock_work_generation_delay" w.mock_work_generation_delay
        ok (record { base_difficulty = base; mock_work_generation_delay = delay })

  -- the lambda `get_device`
  unfoldable pub get_device : Table → Result Device
  unfolding device_type_of number_or
  get_device t = do
    platform_id ← number_or 64 t "platform" default_device.platform_id
    device_id ← number_or 64 t "device" default_device.device_id
    threads ← number_or 64 t "threads" default_device.threads
    memory ← number_or 64 t "memory" default_device.memory
    kind ← device_type_of (value_or (toml.get_text t "type") (codes "cpu"))
    ok (record {
      device_type = kind;
      platform_id = platform_id;
      device_id = device_id;
      threads = threads;
      memory = memory;
    })

  unfoldable pub get_devices : List Table → Result (List Device)
  get_devices [] = ok []
  get_devices (t ∷ ts) = do d ← get_device t; ds ← get_devices ts; ok (d ∷ ds)

  -- A single [device] entry, or a table array of [[device]] entries.
  unfoldable pub load_devices : Node → Result (List Device)
  unfolding get_devices
  load_devices n =
      if toml.is_table n
      then get_devices (toml.as_table n ∷ [])
      else if toml.is_table_array n
      then get_devices (toml.as_table_array n)
      else err Error.device_not_table

  unfoldable pub load_admin : Table → Admin → Admin
  load_admin t a = record {
    doc_root = value_or (toml.get_text t "path") a.doc_root;
    enable = value_or (toml.get_bool t "enable") a.enable;
    allow_remote = value_or (toml.get_bool t "allow_remote") a.allow_remote;
  }

  -- The body of the constructor, on the tree that read_config gives and the initial members.
  unfoldable pub load : Multiprecision → Table → Server → Work → Result Config
  load mp tree server work = do
    loaded_server ←
        if toml.contains tree "server"
        then load_server (toml.get_table tree "server") server
        else ok server
    loaded_work ←
        if toml.contains tree "work"
        then load_work mp (toml.get_table tree "work") work
        else ok work
    devices ← if toml.contains tree "device" then load_devices (toml.get tree "device") else ok []
    let loaded_admin =
        if toml.contains tree "admin"
        then load_admin (toml.get_table tree "admin") default_admin
        else default_admin
    ok (record {
      server = loaded_server;
      devices = devices;
      work = loaded_work;
      admin = loaded_admin;
    })

-- config::config: the members are initialised before the file is read.
unfoldable pub construct :
    {Table Node : Type 0} (toml : Toml Table Node) (files : Files) (mp : Multiprecision)
    (initial : Server)
    → Text
    → List Text
    → Result Config
construct toml files mp initial path overrides = do
  work ← default_work mp
  tree ← read_config toml files path overrides
  load toml mp tree initial work
