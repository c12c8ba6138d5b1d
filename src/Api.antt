-- ===== src/Api.antt =====
-- What the controller calls and does not compute: the interfaces `pdns.API`, `autodns.API`,
-- `dnsprobe.Observer`, `Clock`, `Notifier`, the file writes of the state store, and the libraries
-- miekg/dns and crypto/sha256. Each reply may depend on all that happened before, the list of events.
use dnssec_keyrotation.Base.{ℕ, String, Bool, Option, List}
use dnssec_keyrotation.Errors.{Error, Arg, Result}
use dnssec_keyrotation.Config.{Config}
use dnssec_keyrotation.Model.{Time, Duration, Key, Zone, DnssecData, State, Notification}

-- The methods of `dnsprobe.Observer`, as requests.
pub data Probe : Type 0 where
  dnskey_evidence authoritative_dnskey_evidence : String → List Key → Probe
  no_ds_evidence : String → Probe
  ds_evidence authoritative_ds_evidence : String → List Key → Probe
  rrsig_by authoritative_rrsig_by : String → Key → Probe
  dnskey_rrsig_by authoritative_dnskey_rrsig_by : String → Key → Probe
  delegation_evidence : String → List String → Probe

-- `autodns.DomainDNSSECState`
pub record DomainDnssec : Type 0 where
  pub enabled : Bool
  pub material : List DnssecData
  pub omitted : Bool

-- `autodns.Job`
pub record Job : Type 0 where
  pub id : ℕ
  pub stid : String
  pub status : String

pub data Call : Type 0 where
  read_clock list_zones : Call
  get_zone list_keys : String → Call
  create_key : String → String → String → Bool → Call
  set_key : String → Key → Bool → Bool → Call
  delete_key : String → ℕ → Call
  domain_dnssec : String → Call
  update_dnssec : String → List DnssecData → String → Call
  job_status : ℕ → Call
  observe : Probe → Call
  send : Notification → Call
  write_state : State → Call

-- A call, and whether it returned no error.
pub record Event : Type 0 where
  pub call : Call
  pub succeeded : Bool

-- The latest event comes first.
abbrev pub History : Type 0
History = List Event

-- How `writeAtomic` ends: the file is replaced and synced; or it failed before the rename, which
-- leaves the old file; or it failed after it, with the new file in place.
pub data WriteOutcome : Type 0 where
  written : WriteOutcome
  not_renamed not_synced : Error → WriteOutcome

-- `pdns.API`
pub record Pdns : Type 0 where
  pub list_zones : History → Result (List Zone)
  pub get_zone : History → String → Result Zone
  pub list_keys : History → String → Result (List Key)
  pub create_key : History → String → String → String → Bool → Result Key
  pub set_key : History → String → Key → Bool → Bool → Result (Unit {0})
  pub delete_key : History → String → ℕ → Result (Unit {0})

-- `autodns.API`
pub record Registrar : Type 0 where
  pub domain_dnssec : History → String → Result DomainDnssec
  pub update_dnssec : History → String → List DnssecData → String → Result Job
  pub job_status : History → ℕ → Result String

-- miekg/dns: `dns.Fqdn`, `dns.NewRR` on a DNSKEY line of an owner and a content (`none` is a record
-- of another type), `dns.StringToAlgorithm` and `dns.IsDomainName`.
pub record DnsLibrary : Type 0 where
  pub fqdn : String → String
  pub new_dnskey : String → String → Result (Option DnssecData)
  pub string_to_algorithm : String → Option ℕ
  pub is_domain_name : String → Bool

-- The `Controller` struct with all that it was given; the observer's methods that return no
-- duration return 0 here.
pub record Controller : Type 0 where
  pub cfg : Config
  pub pdns : Pdns
  pub registrar : Registrar
  pub observer : History → Probe → Result Duration
  pub clock : History → Time
  pub notifier : History → Notification → Result (Unit {0})
  pub write_file : History → State → WriteOutcome
  pub dns : DnsLibrary
  -- the hexadecimal SHA-256 of a rendered format, as far as the code keeps it
  pub digest : String → List Arg → String
