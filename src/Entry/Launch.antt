-- ===== src/Entry/Launch.antt =====
-- src/entry/nano_pow_server.cpp: main, from the options that boost::program_options reads to the
-- server that serves. The log is left out.
use pow_server.Prelude.{
  ℕ, ◌-◌, ◌^◌, ◌<◌, ◌≡◌, refl, Bool, false, List, [], Option, none, some, Text, Result, ok, err,
  ◌>>=◌, what, arith, if◌then◌else◌,
}
use pow_server.Bigint.{Multiprecision}
use pow_server.Config.{Config, Server, Toml, Files}
use pow_server.Config.Export.{Section, export_documented}
use pow_server.Config.Load.{construct}
use pow_server.Web.Listener.{
  Listener, SetUp, Emplaced, emplaced, serves_with, dies, start_server, start_server-refused,
}
use pow_server.Web.Server.{reserved, extra_threads}

-- variables_map: whether "help" and "generate_config" are there, and the values of the others.
pub record Options : Type 0 where
  pub help : Bool
  pub generate_config : Bool
  pub config_path : Text
  pub config : List Text

-- What a run of main comes to: it prints and exits; or the web server serves with a configuration,
-- its listener and so many threads; or std::terminate is called; or it prints the message of a
-- runtime_error and fails.
pub data Launch : Type 0 where
  usage : Launch
  printed : Text → Launch
  serves : Config → Listener → ℕ → Launch
  aborts : Launch
  failure : Text → Launch

-- What main is given: cpptoml and its writer, the files, the initial server settings, and what the
-- calls of asio and of the vector give: the capacity behind reserve, unless it throws, and how the
-- threads are emplaced.
pub record Machine (Table Node : Type 0) : Type 0 where
  pub toml : Toml Table Node
  pub render : List Section → Text
  pub files : Files
  pub mp : Multiprecision
  pub initial : Server
  pub make_address : Text → Result (Unit {0})
  pub set_up : Text → ℕ → SetUp
  pub reserve : ℕ → Option ℕ
  pub emplace : ℕ → Emplaced

module _ {Table Node : Type 0} (machine : Machine Table Node) where
  open machine use {toml, render, files, mp, initial, make_address, set_up, reserve, emplace}

  -- config (path, overrides)
  unfoldable pub configured : Text → List Text → Result Config
  configured path overrides = construct toml files mp initial path overrides

  -- The webserver that is constructed and started with a configuration. What reserve throws is a
  -- logic_error or a bad_alloc.
  unfoldable pub serve : Config → Result Launch
  serve conf = elim (reserve (reserved conf.server.threads)) [
    | none ↦ ok aborts
    | some capacity ↦ (do
      started ←
          start_server make_address set_up emplace conf.server.bind_address conf.server.port
            capacity
      ok (elim started [
        | serves_with listener threads ↦ serves conf listener threads
        | dies ↦ aborts
      ]))
  ]

  -- The body of main's try block.
  unfoldable pub launch_with : Options → Result Launch
  unfolding configured serve
  launch_with options =
      if options.help
      then ok usage
      else if options.generate_config
      then (do conf ← configured [] []; ok (printed (export_documented render mp conf)))
      else (do conf ← configured options.config_path options.config; serve conf)

  -- main: a runtime_error is caught and its message printed.
  unfoldable pub launch : Options → Launch
  unfolding launch_with
  launch options = elim (launch_with options) [ ok l ↦ l | err e ↦ failure (what e) ]

  module _ (options : Options) (no_help : options.help ≡ false)
      (no_generate : options.generate_config ≡ false) where
    -- With a configuration of a single thread, and a vector that reserves no more than it is asked
    -- to, the program never serves if one of the first 2 ^ 64 - 1 threads cannot be had.
    pub launch_single :
        (conf : Config) (i : ℕ)
        → configured options.config_path options.config ≡ ok conf
        → conf.server.threads ≡ 1
        → reserve 0 ≡ some 0
        → i < 2 ^ 64 - 1
        → ¬ (emplace i ≡ emplaced)
        → (shown : Config) (l : Listener) (n : ℕ) → ¬ (launch options ≡ serves shown l n)
    unfolding launch launch_with serve reserved extra_threads
    launch_single conf i read single exact below refused shown l n served =
        let asked : reserved conf.server.threads ≡ 0 = rw single refl in
        let began =
          start_server-refused make_address set_up emplace conf.server.bind_address conf.server.port
            0 i below refused in
        let body : launch_with options ≡ serve conf = rw (no_help, no_generate, read) refl in
        let begun : reserve (reserved conf.server.threads) ≡ some 0 = rw asked exact in grind arith
