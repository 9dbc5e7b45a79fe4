-- ===== src/Entry/StartTests.antt =====
-- The theorems on the endpoints of main and on its start, at concrete inputs.
use pow_server.Prelude.{
  ltb, ◌-◌, ◌<◌, arith, if◌then◌else◌, no_jobs, ◌≡◌, ◌↔◌, refl, false, [], some, codes, ok, ◌^◌,
}
use pow_server.Bigint.{u128_size, of_hex, from_hex, set, overlay}
use pow_server.Bigint.Digits.{is_hex}
use pow_server.Bigint.Reference.{reference, scan, strip, all_hex, digits_of, bytes_of}
use pow_server.Config.{Config, default_server, default_admin, default_work}
use pow_server.Config.Load.{construct, load, read_config}
use pow_server.Config.Reference.{Sections, sectioned, has_section}
use pow_server.Entry.{ping, register_endpoints}
use pow_server.Entry.Launch.{Machine, Options, serves, configured, launch, launch_single}
use pow_server.Web.Listener.{closed_listener, emplaced, no_thread}
use pow_server.Entry.Routes.{IsRoute, action_of, register_endpoints-IsRoute}
use pow_server.Web.Endpoints.{get_verb, find_endpoint}
use pow_server.Web.Reference.{plain_regexes}

register_endpoints-IsRoute_example :
    (action_of (
        find_endpoint plain_regexes
          (register_endpoints plain_regexes).handlers
          get_verb
          (codes "/api/v1/ping"))
      ≡ some ping)
    ↔ IsRoute ping get_verb (codes "/api/v1/ping")
register_endpoints-IsRoute_example =
    register_endpoints-IsRoute plain_regexes ping get_verb (codes "/api/v1/ping")

-- A machine without a configuration file, whose defaults ask for one thread, and which has room for
-- ten thousand.
abbrev machine : Machine Sections Sections
machine = record {
  toml = sectioned;
  render = λ sections. [];
  files = record { exists = λ path. false; contents = λ path. [] };
  mp = reference;
  initial = record (default_server (codes "::1") 8) { threads = 1 };
  make_address = λ address. ok tt;
  set_up = λ address port. record {
    open_fails = false;
    option_fails = false;
    bind_fails = false;
    listen_fails = false;
  };
  reserve = λ n. some n;
  emplace = λ i. if ltb i 10000 then emplaced else no_thread no_jobs;
}

abbrev default_config : Config
default_config = record {
  server = machine.initial;
  devices = [];
  work = record {
    base_difficulty = set reference u128_size (2 ^ 61);
    mock_work_generation_delay = 0;
  };
  admin = default_admin;
}

abbrev no_options : Options
no_options = record { help = false; generate_config = false; config_path = []; config = [] }

configuring : configured machine no_options.config_path no_options.config ≡ ok default_config
unfolding configured construct load read_config sectioned has_section default_work of_hex from_hex
    set overlay is_hex scan strip all_hex digits_of bytes_of
configuring = refl

no_room : ¬ (machine.emplace 10000 ≡ emplaced)
no_room e = grind arith

too_many : 10000 < 2 ^ 64 - 1
too_many = omega arith

launch_single_example :
    ¬ (launch machine no_options ≡ serves default_config closed_listener (2 ^ 64))
launch_single_example =
    launch_single machine no_options refl refl default_config 10000 configuring refl refl too_many
      no_room default_config closed_listener (2 ^ 64)
