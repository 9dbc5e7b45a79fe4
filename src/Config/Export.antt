-- ===== src/Config/Export.antt =====
-- export_documented: the defaults with their documentation, and the pass that comments them out.
-- Building and writing the TOML tree is cpptoml's, so `render` is a parameter.
use pow_server.Prelude.{
  ℕ, Bool, true, false, not, ◌&&◌, List, [], ◌∷◌, ◌++◌, String, Text, codes, ◌==◌, if◌then◌else◌,
  is_nil, map,
}
use pow_server.Bigint.{Multiprecision, u128_size, to_hex}
use pow_server.Config.{Config}

-- What `put` inserts: a key, its value and its documentation.
pub data Setting : Type 0 where
  text : Text → Setting
  number : ℕ → Setting
  flag : Bool → Setting

pub record Entry : Type 0 where
  pub key : String
  pub value : Setting
  pub doc : String

pub record Section : Type 0 where
  pub name : String
  pub entries : List Entry

abbrev put : String → Setting → String → Entry
put key value doc = record { key = key; value = value; doc = doc }

-- The tables in the order of the inserts, each with its entries in that order.
unfoldable pub documented : Multiprecision → Config → List Section
documented mp c =
    record {
      name = "server";
      entries =
          put "bind" (text c.server.bind_address)
            "Listening address for HTTP and WebSocket connections.\ntype:string,ip"
          ∷ put "port" (number c.server.port)
              "Listening port for HTTP and WebSocket connections.\ntype:uint16"
          ∷ put "threads" (number c.server.threads)
              "Number of IO threads used by the web server.\ntype:uint16"
          ∷ put "allow_prioritization" (flag c.server.allow_prioritization)
              "If true, work requests may contain a numeric \"priority\" property to move ahead in the queue.\ntype:bool"
          ∷ put "allow_control" (flag c.server.allow_control)
              "Administriative REST requests requires this to be true, otherwise an error is returned.\ntype:bool"
          ∷ put "request_limit" (number c.server.request_limit)
              "The maximum number of queued work requests. If the queue is full, work requests will result in an error.\ntype:uint32"
          ∷ put "log_to_stderr" (flag c.server.log_to_stderr)
              "Log to standard error in addition to file.\ntype:bool"
          ∷ [];
    }
    ∷ record {
      name = "work";
      entries =
          put "base_difficulty" (text (to_hex mp u128_size c.work.base_difficulty))
            "Base work difficulty\ntype:string,hex"
          ∷ put "mock_work_generation_delay" (number c.work.mock_work_generation_delay)
              "If non-zero, the server simulates generating work for N seconds instead of\nusing a work device. Useful during testing of initial setup and debugging.\ntype:uint16"
          ∷ [];
    }
    ∷ record {
      name = "device";
      entries =
          put "type" (text (codes "gpu")) "Device type\ntype:string,[\"cpu\"|\"gpu\"]"
          ∷ put "device_id" (number 0) "Device ID (gpu only)\ntype:uint64_t"
          ∷ put "platform_id" (number 0) "Platform ID (gpu only)\ntype:uint64_t"
          ∷ put "memory" (number 0) "Maximum memory to allocate in MB\ntype:uint64_t"
          ∷ put "threads" (number 0) "Number of CPU or GPU threads\ntype:uint64_t"
          ∷ [];
    }
    ∷ record {
      name = "admin";
      entries =
          put "allow_remote" (flag c.admin.allow_remote)
            "If true, static files are available remotely, otherwise only to loopback.\ntype:bool"
          ∷ put "enable" (flag c.admin.enable) "Enable or disable serving static files.\ntype:bool"
          ∷ put "path" (text c.admin.doc_root)
              "Path to static files, by default 'public' relative to working directory\ntype:string,path"
          ∷ [];
    }
    ∷ []

abbrev pub line_feed : ℕ
line_feed = 10

-- std::getline until the stream fails: the lines of a text; a last line without its line feed
-- counts if it is not empty.
unfoldable pub lines_from : Text → Text → List Text
lines_from cur [] = if is_nil cur then [] else cur ∷ []
lines_from cur (c ∷ s) = elim (c == line_feed) [
  | true ↦ cur ∷ lines_from [] s
  | false ↦ lines_from (cur ++ c ∷ []) s
]

-- Whether a line is a setting: not empty, no comment and no header.
unfoldable pub is_setting : Text → Bool
is_setting [] = false
is_setting (c ∷ s) = not (c == b'#') && not (c == b'[')

unfoldable pub comment_line : Text → Text
unfolding is_setting
comment_line line = if is_setting line then b'#' ∷ line else line

-- `ss_processed << line << std::endl`
unfoldable pub write_lines : List Text → Text
write_lines [] = []
write_lines (l ∷ ls) = l ++ line_feed ∷ write_lines ls

unfoldable pub comment_out : Text → Text
unfolding comment_line write_lines lines_from
comment_out s = write_lines (map comment_line (lines_from [] s))

unfoldable pub export_documented : (List Section → Text) → Multiprecision → Config → Text
unfolding documented comment_out
export_documented render mp c = comment_out (render (documented mp c))
