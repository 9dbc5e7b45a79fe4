-- ===== src/Config/Tests.antt =====
-- The theorems on the configuration at concrete inputs. The TOML reader here knows sectioned tables.
use pow_server.Prelude.{◌^◌, ◌<◌, ◌≡◌, true, [], ◌∷◌, codes, ok, arith}
use pow_server.Config.{Server, default_server, default_device}
use pow_server.Bigint.{Bigint, u128_size, number, set}
use pow_server.Bigint.Bytes.{set-IsWord}
use pow_server.Bigint.Reference.{reference}
use pow_server.Config.{Config, default_admin}
use pow_server.Config.Export.{documented}
use pow_server.Config.Load.{load}
use pow_server.Config.Reference.{sectioned, documented-HasSections}
use pow_server.Config.RoundTrip.{exported_device, load-documented}
use pow_server.Config.Loaded.{InRange}

abbrev defaults : Server
defaults = default_server (codes "::1") 8

abbrev exported : Config
exported = record {
  server = record defaults { port = 8100 };
  devices = default_device ∷ [];
  work = record { base_difficulty = set reference u128_size 4096; mock_work_generation_delay = 2 };
  admin = record default_admin { enable = true };
}

exported-InRange : InRange exported.server
unfolding default_server
exported-InRange = record {
  port_fits = omega arith;
  threads_fit = omega arith;
  limit_fits = omega arith;
}

delay_fits : exported.work.mock_work_generation_delay < 2 ^ 16
delay_fits = omega arith

load-documented_example :
    (base : Bigint) × (load sectioned reference
        (documented reference exported)
        defaults
        (record exported.work { mock_work_generation_delay = 0 })
      ≡ ok (record exported {
        devices = exported_device ∷ [];
        work = record exported.work { base_difficulty = base };
      }))
    × (number reference u128_size base ≡ number reference u128_size exported.work.base_difficulty)
load-documented_example =
    load-documented sectioned reference (documented reference exported) exported defaults
      (record exported.work { mock_work_generation_delay = 0 }) exported-InRange
      (set-IsWord reference u128_size 4096) delay_fits (documented-HasSections reference exported)
