-- ===== src/Relay/Boot/Examples.antt =====
-- A relay that starts with a database and two hosts, one of which has a cursor.
use at_protocol_infrastructu.Prelude.{
  ℕ, ◌*◌, ◌/◌, ◌≡◌, refl, true, false, some, string_eq, nat_eq, List, [], ◌∷◌, String, ltb,
}
use at_protocol_infrastructu.Prelude.Assoc.{contains}
use at_protocol_infrastructu.Prelude.Result.{ok, err}
use at_protocol_infrastructu.Prelude.Int.{pos}
use at_protocol_infrastructu.Channel.{running}
use at_protocol_infrastructu.Config.{Config, defaults, not_found, validate, load}
use at_protocol_infrastructu.Metrics.{Desc, fields}
use at_protocol_infrastructu.Metrics.Listed.{listed, listed-RegistryLaws, everywhere}
use at_protocol_infrastructu.Verify.Unresolving.{unresolving}
use at_protocol_infrastructu.Storage.Memory.{memory}
use at_protocol_infrastructu.Storage.Opening.{new_db}
use at_protocol_infrastructu.Storage.Opening.Relations.{
  relations, relations-DriverLaws, nothing-IsReady,
}
use at_protocol_infrastructu.Relay.Boot.{Libraries, Start, Up, boot}
use at_protocol_infrastructu.Relay.Boot.ComingUp.{IsUp, boot-IsUp}
use at_protocol_infrastructu.Relay.Boot.Lifetime.{boot_comes_up}

abbrev libraries : Libraries
libraries = record {
  postgres = memory;
  indigo = unresolving;
  closers = record {
    State = List String;
    shutdown_server = λ s. (err "deadline exceeded", "server" ∷ s);
    shutdown_metrics = λ s. (ok tt, "metrics" ∷ s);
    close_db = λ s. (ok tt, "db" ∷ s);
  };
  registry = listed;
  driver = relations;
  attach = λ db. record { hosts = ("pds.a", some (pos 100)) ∷ []; events = [] };
  parse_duration = λ t. ok (pos 300000000000);
  floats = record {
    Float = ℕ;
    of_int = λ k. k * 1000;
    quotient = λ a b. a / (b / 1000);
    product = λ a b. a * (b / 1000);
    greater = λ a b. ltb b a;
  };
  sprintf = λ form args. form;
  ping = λ s. ok tt;
}

abbrev config : Config
config = record defaults {
  ingest = record defaults.ingest { initial_hosts = "pds.a" ∷ "pds.b" ∷ [] };
}

abbrev started : Start libraries
started = record {
  flags = record { show_version = false; enable_verify = true; enable_db = true };
  read_in = not_found;
  unmarshal = ok config;
  registered = [];
  version = "dev";
  now = 5;
  service = record { hosts = []; events = [] };
  services = [];
}

boot_comes_up_example :
    (u : Up libraries) × (boot libraries started ≡ running (ok u))
    × (u.config ≡ config)
    × IsUp libraries started u
unfolding load validate new_db contains listed-RegistryLaws
boot_comes_up_example =
    boot_comes_up libraries listed-RegistryLaws relations-DriverLaws started config 10000 refl refl
      refl (pos 300000000000, [], refl, refl, nothing-IsReady) (everywhere (λ f. tt) fields)
      (everywhere (λ (f : String × Desc). refl {a = false}) fields)

came_up :
    (u : Up libraries) × (boot libraries started ≡ running (ok u))
    × (u.config ≡ config)
    × IsUp libraries started u
unfolding load validate new_db contains listed-RegistryLaws
came_up =
    boot_comes_up libraries listed-RegistryLaws relations-DriverLaws started config 10000 refl refl
      refl (pos 300000000000, [], refl, refl, nothing-IsReady) (everywhere (λ f. tt) fields)
      (everywhere (λ (f : String × Desc). refl {a = false}) fields)

-- The relay that comes up.
abbrev relay : Up libraries
relay = came_up.0

boot-IsUp_example : IsUp libraries started relay
boot-IsUp_example = boot-IsUp libraries started relay came_up.1
