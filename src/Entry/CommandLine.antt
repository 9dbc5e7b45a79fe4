-- ===== src/Entry/CommandLine.antt =====
-- src/entry/nano_pow_server.cpp: main, from its arguments on. boost::program_options is a parameter.
use pow_server.Prelude.{ℕ, not, List, [], ◌∷◌, Option, none, some, Text, codes, ◌==◌, if◌then◌else◌}
use pow_server.Entry.Launch.{Machine, Options, Launch, launch}

-- add_options: a name, and the default of its value.
pub record Description : Type 0 where
  pub name : Text
  pub default : Option Text

abbrev pub descriptions : List Description
descriptions =
    record { name = codes "help"; default = none }
    ∷ record { name = codes "config_path"; default = some (codes "./config-nano-pow-server.toml") }
    ∷ record { name = codes "config"; default = none }
    ∷ record { name = codes "generate_config"; default = none }
    ∷ []

-- The parser with store and notify, which may throw an error that is a logic_error, and the
-- variables_map that it fills: count, and the values by name.
pub record CommandLine (Variables : Type 0) : Type 0 where
  pub parse : List Description → List Text → Option Variables
  pub count : Text → Variables → ℕ
  pub value : Text → Variables → Text
  pub values : Text → Variables → List Text

-- What the process comes to: what the body of main does, or an exception that main does not catch.
pub data Process : Type 0 where
  launched : Launch → Process
  terminated : Process

module _ {Variables Table Node : Type 0} (line : CommandLine Variables)
    (machine : Machine Table Node) where
  unfoldable pub read_options : Variables → Options
  read_options vm = record {
    help = not (line.count (codes "help") vm == 0);
    generate_config = not (line.count (codes "generate_config") vm == 0);
    config_path = line.value (codes "config_path") vm;
    config =
        if not (line.count (codes "config") vm == 0) then line.values (codes "config") vm else [];
  }

  unfoldable pub main : List Text → Process
  unfolding read_options
  main arguments = elim (line.parse descriptions arguments) [
    | none ↦ terminated
    | some vm ↦ launched (launch machine (read_options vm))
  ]
