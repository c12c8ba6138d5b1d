-- ===== src/Config.antt =====
-- internal/config/config.go: the part of the configuration that the controller reads.
pub mod Settings
pub mod Mail
pub mod Validate
pub mod Valid
use dnssec_keyrotation.Base.{ℕ, String, Bool, List}
use dnssec_keyrotation.Model.{Duration}

pub data Mode : Type 0 where
  observe enforce : Mode
  other_mode : String → Mode

pub record ControllerConfig : Type 0 where
  pub reconcile_interval : Duration
  pub propagation_margin : Duration
  pub idempotency_retention : Duration

pub record DnsConfig : Type 0 where
  pub resolvers : List String
  pub authoritative_servers : List String
  pub expected_nameservers : List String
  pub local_authoritative : String

pub record Rotation : Type 0 where
  pub algorithm : String
  pub zsk_interval : Duration
  pub ksk_interval : Duration
  pub auto_migrate_csk : Bool
  pub minimum_dnskey_wait : Duration
  pub minimum_parent_wait : Duration
  pub include_zones : List String
  pub exclude_zones : List String

pub record Enrollment : Type 0 where
  pub enabled : Bool
  pub scope : String
  pub discovery_grace : Duration
  pub max_pending : ℕ
  pub max_new_per_day : ℕ
  pub allowed_algorithms : List String
  pub include_zones : List String
  pub exclude_zones : List String

pub record Config : Type 0 where
  pub mode : Mode
  pub controller : ControllerConfig
  pub dns : DnsConfig
  pub rotation : Rotation
  pub enrollment : Enrollment
  pub lmtp_enabled : Bool  -- Notifications.LMTP.Enabled

abbrev pub is_enforce : Mode → Bool
is_enforce enforce = Bool.true
is_enforce _ = Bool.false

abbrev pub is_observe : Mode → Bool
is_observe observe = Bool.true
is_observe _ = Bool.false
