-- ===== src/Tests/Configs.antt =====
-- The theorems on the configuration, applied to one that passes.
use dnssec_keyrotation.Base.{
  ◌≡◌, refl, true, false, none, List, ◌==◌, string_eq, if◌then◌else◌, [], ◌∷◌, ◌*◌,
}
use dnssec_keyrotation.Base.Order.{Slashed}
use dnssec_keyrotation.Errors
use dnssec_keyrotation.Errors.{ok}
use dnssec_keyrotation.Model.{second, minute, hour}
use dnssec_keyrotation.Config.{Config, enforce}
use dnssec_keyrotation.Config.Settings.{Platform, Settings}
use dnssec_keyrotation.Config.Validate.{validate}
use dnssec_keyrotation.Config.Valid.{IsValid, validate-IsValid}
use dnssec_keyrotation.Dnsprobe.Checks.{expected_ds}
use dnssec_keyrotation.Dnsprobe.Evidence.{collect_ds}
use dnssec_keyrotation.Dnsprobe.Evidence.Trust.{DsAt}
use dnssec_keyrotation.Dnsprobe.Parent.Tally.{TwoShow}
use dnssec_keyrotation.Dnsprobe.Observer.Configured.{configured-TwoShow}
use dnssec_keyrotation.Tests.ProbeDemo.{prober, probe_keys}
use dnssec_keyrotation.Tests.Probes.{ds_given}

abbrev platform : Platform
platform = record {
  is_absolute = λ path. true;
  clean = λ path. path;
  relative = λ root path. ok "state.json";
  parse_url = λ url. ok (record {
    scheme = if url == "https://api.autodns.com/v1" then "https" else "http";
    host = "api.autodns.com";
    hostname = if url == "https://api.autodns.com/v1" then "api.autodns.com" else "localhost";
  });
  parse_ip = λ host. none;
  split_host_port = λ endpoint. ok (endpoint, "53");
  parse_address = λ value. ok value;
  fqdn = λ name. name;
  is_domain_name = λ name. true;
}

abbrev small_config : Config
small_config = record {
  mode = enforce;
  controller = record {
    reconcile_interval = minute;
    propagation_margin = 2 * hour;
    idempotency_retention = 8760 * hour;
  };
  dns = record {
    resolvers = "192.0.2.1:53" ∷ "192.0.2.2:53" ∷ [];
    authoritative_servers = "192.0.2.3:53" ∷ "192.0.2.4:53" ∷ [];
    expected_nameservers = [];
    local_authoritative = "127.0.0.1:53";
  };
  rotation = record {
    algorithm = "ECDSAP256SHA256";
    zsk_interval = 720 * hour;
    ksk_interval = 4368 * hour;
    auto_migrate_csk = false;
    minimum_dnskey_wait = 24 * hour;
    minimum_parent_wait = 48 * hour;
    include_zones = [];
    exclude_zones = [];
  };
  enrollment = record {
    enabled = false;
    scope = "none";
    discovery_grace = 24 * hour;
    max_pending = 10;
    max_new_per_day = 5;
    allowed_algorithms = "ECDSAP256SHA256" ∷ [];
    include_zones = [];
    exclude_zones = [];
  };
  lmtp_enabled = false;
}

abbrev settings : Settings
settings = record {
  config = small_config;
  state_file = "/var/lib/dnssec-keyrotation/state.json";
  socket = "/run/dnssec-keyrotation/control.sock";
  powerdns_url = "http://localhost:8081";
  api_key_file = "/run/secrets/pdns";
  autodns_url = "https://api.autodns.com/v1";
  username = "user";
  password_file = "/run/secrets/autodns";
  context = 4;
  minimum_request_interval = second;
  lmtp = record { address = ""; hostname = ""; from = ""; to = []; timeout = second };
}

passes : validate platform settings ≡ ok tt
unfolding validate Errors.◌>>=◌
passes = refl

validate-IsValid_example : IsValid small_config
validate-IsValid_example = validate-IsValid platform settings passes

configured-TwoShow_example :
    (want : List Slashed) × (expected_ds prober.dns prober.rr "example.org." probe_keys ≡ ok want)
    × TwoShow
        (λ _. DsAt prober "example.org." want)
        0
        (collect_ds prober "example.org." probe_keys []).1
configured-TwoShow_example =
    configured-TwoShow platform settings prober "example.org." probe_keys [] _ tt passes refl
      ds_given
