-- ===== src/Config/Settings.antt =====
-- The configuration of internal/config/config.go that `Validate` checks, and what the check calls.
use dnssec_keyrotation.Base.{ℕ, String, Bool, Option, List, nat_eq, string_eq}
use dnssec_keyrotation.Errors.{Result}
use dnssec_keyrotation.Model.{Duration}
use dnssec_keyrotation.Config.{Config}

-- `url.URL` with `Hostname`
pub record Url : Type 0 where
  pub scheme : String
  pub host : String
  pub hostname : String

-- `net.IP`, as far as its kind is asked for
pub record Ip : Type 0 where
  pub is_loopback : Bool
  pub is_private : Bool

-- What the check calls of Go's packages path/filepath, net/url, net and net/mail, and of miekg/dns.
pub record Platform : Type 0 where
  pub is_absolute : String → Bool
  pub clean : String → String
  pub relative : String → String → Result String
  pub parse_url : String → Result Url
  pub parse_ip : String → Option Ip
  pub split_host_port : String → Result (String × String)
  pub parse_address : String → Result String
  pub fqdn : String → String
  pub is_domain_name : String → Bool

-- `LMTP` without `Enabled`, which the controller reads
pub record Lmtp : Type 0 where
  pub address : String
  pub hostname : String
  pub from : String
  pub to : List String
  pub timeout : Duration

-- `Config`, as far as the controller and `Validate` read it. Negative numbers, which every check here rejects,
-- are not modelled.
pub record Settings : Type 0 where
  pub config : Config
  pub state_file : String
  pub socket : String
  pub powerdns_url : String
  pub api_key_file : String
  pub autodns_url : String
  pub username : String
  pub password_file : String
  pub context : ℕ  -- a negative context counts as 0
  pub minimum_request_interval : Duration
  pub lmtp : Lmtp
