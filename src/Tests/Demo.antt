-- ===== src/Tests/Demo.antt =====
-- A controller whose servers, registrar, disk and clock always succeed, with a zone in a ZSK rotation.
use dnssec_keyrotation.Base.{
  ℕ, ◌*◌, String, Bool, true, false, some, List, [], ◌∷◌, if◌then◌else◌, ◌==◌, string_eq,
}
use dnssec_keyrotation.Errors.{ok}
use dnssec_keyrotation.Config.{Mode, Config}
use dnssec_keyrotation.Model.{Key, Zone, Workflow, State, Phase, zero_workflow, hour, zsk}
use dnssec_keyrotation.Api
use dnssec_keyrotation.Api.{Controller, DnsLibrary}
use dnssec_keyrotation.Exec.{World}

abbrev pub key : ℕ → String → Bool → Key
key id typ active = record {
  id = id;
  key_type = typ;
  active = active;
  published = true;
  dnskey = typ;
  ds = [];
  algorithm = "ECDSAP256SHA256";
  bits = 256;
}

abbrev pub zone : Zone
zone = record {
  id = "example.org.";
  name = "example.org.";
  kind = "Native";
  dnssec = true;
  rrsets = record { name = "example.org."; type = "SOA"; ttl = 172800; records = [] } ∷ [];
}

-- the KSK, the old ZSK and the new ZSK, the new one not active yet
abbrev pub zsk_keys : List Key
zsk_keys = key 1 "ksk" true ∷ key 2 "zsk" true ∷ key 3 "zsk" false ∷ []

-- the same after the switch
abbrev pub retired_keys : List Key
retired_keys = key 1 "ksk" true ∷ key 2 "zsk" false ∷ key 3 "zsk" true ∷ []

-- the keys of a split migration whose new signers are active
abbrev pub split_keys : List Key
split_keys = key 1 "csk" true ∷ key 2 "ksk" true ∷ key 3 "zsk" true ∷ []

-- Only a ZSK lacks the SEP bit.
abbrev pub dns : DnsLibrary
dns = record {
  fqdn = λ name. name;
  new_dnskey = λ owner content. ok (
      some (record {
        flags = if content == "zsk" then 256 else 257;
        protocol = 3;
        algorithm = 13;
        public_key = content;
      }));
  string_to_algorithm = λ label. some 13;
  is_domain_name = λ name. true;
}

abbrev pub config : Mode → Config
config mode = record {
  mode = mode;
  controller = record {
    reconcile_interval = hour;
    propagation_margin = hour;
    idempotency_retention = 24 * hour;
  };
  dns = record {
    resolvers = "192.0.2.1" ∷ [];
    authoritative_servers = "192.0.2.2" ∷ [];
    expected_nameservers = "ns.example.org." ∷ [];
    local_authoritative = "";
  };
  rotation = record {
    algorithm = "ECDSAP256SHA256";
    zsk_interval = 720 * hour;
    ksk_interval = 8760 * hour;
    auto_migrate_csk = false;
    minimum_dnskey_wait = 48 * hour;
    minimum_parent_wait = 48 * hour;
    include_zones = [];
    exclude_zones = [];
  };
  enrollment = record {
    enabled = true;
    scope = "all_selected";
    discovery_grace = hour;
    max_pending = 1;
    max_new_per_day = 1;
    allowed_algorithms = "ECDSAP256SHA256" ∷ [];
    include_zones = [];
    exclude_zones = [];
  };
  lmtp_enabled = true;
}

abbrev pub controller : Mode → List Key → Controller
controller mode keys = record {
  cfg = config mode;
  pdns = record {
    list_zones = λ past. ok (zone ∷ []);
    get_zone = λ past id. ok zone;
    list_keys = λ past id. ok keys;
    create_key = λ past id typ algorithm active. ok (key 9 typ active);
    set_key = λ past id k active published. ok tt;
    delete_key = λ past id k. ok tt;
  };
  registrar = record {
    domain_dnssec = λ past name. ok (record { enabled = false; material = []; omitted = false });
    update_dnssec =
        λ past name material ctid. ok (record { stid = "s"; id = 7; status = "RUNNING" });
    job_status = λ past id. ok "SUCCESS";
  };
  observer = λ past probe. ok hour;
  clock = λ past. 1000 * hour;
  notifier = λ past event. ok tt;
  write_file = λ past s. Api.written;
  dns = dns;
  digest = λ format args. format;
}

-- the ZSK rotation from key 2 to key 3, in the given phase
abbrev pub rotation : Phase → Workflow
rotation phase = record zero_workflow {
  zone = "example.org.";
  kind = zsk;
  phase = phase;
  old_key_id = 2;
  new_key_id = 3;
  zone_ttl = 172800;
}

abbrev pub no_state : State
no_state = record {
  version = 1;
  enrollment_armed_at = hour;
  workflows = [];
  idempotency = [];
  notifications = [];
}

-- the state with one workflow in it
abbrev pub stored : Workflow → World
stored w = record {
  state = record no_state { workflows = ("example.org.|zsk", w) ∷ [] };
  disk = no_state;
  events = [];
}
