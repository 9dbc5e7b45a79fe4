-- ===== src/Config.antt =====
-- src/workserver/config.hpp: the settings, their defaults and how a TOML tree overrides them.
-- The TOML parser (cpptoml) and the file system are parameters.
pub mod Load
pub mod Export
pub mod Loaded
pub mod Commented
pub mod RoundTrip
pub mod Reference
mod Tests
use pow_server.Prelude.{
  ℕ, ◌*◌, ◌%◌, ◌^◌, ◌<◌, ◌≡◌, Bool, true, false, List, [], ◌∷◌, String, Text, codes, Option, none,
  some, Error, Result, ok, err, replicate,
}
use pow_server.Bigint.{Multiprecision, Bigint, u128_size, of_hex}

-- config::server
pub record Server : Type 0 where
  pub bind_address : Text
  pub port : ℕ
  pub threads : ℕ
  pub request_limit : ℕ
  pub allow_prioritization : Bool
  pub allow_control : Bool
  pub log_to_stderr : Bool

-- device::device_type
pub data DeviceType : Type 0 where
  cpu gpu : DeviceType

-- config::device
pub record Device : Type 0 where
  pub device_type : DeviceType
  pub platform_id : ℕ
  pub device_id : ℕ
  pub threads : ℕ
  pub memory : ℕ

-- config::work
pub record Work : Type 0 where
  pub base_difficulty : Bigint
  pub mock_work_generation_delay : ℕ

-- config::admin
pub record Admin : Type 0 where
  pub doc_root : Text
  pub enable : Bool
  pub allow_remote : Bool

pub record Config : Type 0 where
  pub server : Server
  pub devices : List Device
  pub work : Work
  pub admin : Admin

-- device::type_as_string; no value of the enumeration reaches the default case
unfoldable pub type_as_string : DeviceType → Text
type_as_string DeviceType.cpu = codes "cpu"
type_as_string DeviceType.gpu = codes "gpu"

abbrev pub base_difficulty_literal : Text
base_difficulty_literal = codes "2000000000000000"

-- The initialisers of config::server. The loopback address is boost's, and the number of
-- processors is the machine's; it is cut to 16 bits.
unfoldable pub default_server : Text → ℕ → Server
default_server loopback hardware_concurrency = record {
  bind_address = loopback;
  port = 8076;
  threads = hardware_concurrency % 2 ^ 16;
  request_limit = 1024 * 16;
  allow_prioritization = false;
  allow_control = false;
  log_to_stderr = false;
}

abbrev pub default_device : Device
default_device = record {
  device_type = DeviceType.cpu;
  platform_id = 0;
  device_id = 0;
  threads = 0;
  memory = 1024 * 2;
}

-- config::work::work (): the constructor reads the literal, which may throw.
unfoldable pub default_work : Multiprecision → Result Work
default_work mp =
    elim (of_hex mp u128_size (record { bytes = replicate u128_size 0 }) base_difficulty_literal) [
      | ok base ↦ ok (record { base_difficulty = base; mock_work_generation_delay = 0 })
      | err e ↦ err e
    ]

abbrev pub default_admin : Admin
default_admin = record { doc_root = codes "public"; enable = false; allow_remote = false }

-- cpptoml: a table, and the node that a key of a table holds. The merge lets the overrides win.
pub record Toml (Table Node : Type 0) : Type 0 where
  pub parse_base_and_override : Text → Text → Result Table
  pub contains : Table → String → Bool
  pub get_table : Table → String → Table
  pub get : Table → String → Node
  pub get_text : Table → String → Option Text
  pub get_bool : Table → String → Option Bool
  -- get_as<uintN_t>, by the number of bits: a number out of the type's range is thrown
  pub get_unsigned : ℕ → Table → String → Result (Option ℕ)
  pub is_table : Node → Bool
  pub is_table_array : Node → Bool
  pub as_table : Node → Table
  pub as_table_array : Node → List Table

-- boost::filesystem::exists, and the text of a file
pub record Files : Type 0 where
  pub exists : Text → Bool
  pub contents : Text → Text
