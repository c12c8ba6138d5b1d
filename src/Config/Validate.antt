-- ===== src/Config/Validate.antt =====
-- `Validate` of internal/config/config.go, with what it calls in the same file.
use dnssec_keyrotation.Base.{
  ◌*◌, String, Bool, true, false, not, ◌&&◌, ◌||◌, Option, none, some, List, [], ◌∷◌, nat_eq,
  string_eq, ◌==◌, ltb, length, contains, if◌then◌else◌,
}
use dnssec_keyrotation.Base.Text.{to_lower, trim_space, has_prefix}
use dnssec_keyrotation.Errors.{
  Result, ok, err, new_error, errorf, wrapf, wrap, str, reject_if, ◌>>=◌, ◌>>◌,
}
use dnssec_keyrotation.Model.{second, minute, hour}
use dnssec_keyrotation.Config.{is_enforce, is_observe}
use dnssec_keyrotation.Config.Settings.{Ip, Platform, Settings}
use dnssec_keyrotation.Config.Mail.{check_lmtp}

abbrev pub is_missing_ip : Option Ip → Bool
is_missing_ip none = true
is_missing_ip (some ip) = false

module _ (go : Platform) where
  -- `pathWithin`
  unfoldable pub path_within : String → String → Bool
  unfolding has_prefix
  path_within path root = elim (go.relative root (go.clean path)) [
    | err e ↦ false
    | ok rel ↦ not (rel == "..") && not (has_prefix "../" rel)
  ]

  -- the mode, and the section `controller`
  unfoldable pub check_controller : Settings → Result (Unit {0})
  unfolding path_within
  check_controller s = do
    reject_if (not (is_observe s.config.mode) && not (is_enforce s.config.mode))
        (new_error "mode must be observe or enforce")
    reject_if (ltb s.config.controller.reconcile_interval (10 * second))
        (new_error "reconcile interval must be at least 10s")
    reject_if (ltb s.config.controller.propagation_margin minute)
        (new_error "propagation margin must be at least 1m")
    reject_if (ltb s.config.controller.idempotency_retention (24 * hour))
        (new_error "idempotency retention must be at least 24h")
    reject_if (not (go.is_absolute s.state_file) || not (go.is_absolute s.socket))
        (new_error "state_file and socket must be absolute")
    reject_if (not (path_within s.state_file "/var/lib/dnssec-keyrotation"))
        (new_error "state_file must be under /var/lib/dnssec-keyrotation")
    reject_if (not (path_within s.socket "/run/dnssec-keyrotation"))
        (new_error "socket must be under /run/dnssec-keyrotation")

  abbrev pub is_loopback : Option Ip → Bool
  is_loopback none = false
  is_loopback (some ip) = ip.is_loopback

  -- the URL of PowerDNS
  unfoldable pub check_powerdns : Settings → Result (Unit {0})
  check_powerdns s = elim (go.parse_url s.powerdns_url) [
    | err e ↦ err (new_error "powerdns.url must be a valid loopback http URL")
    | ok url ↦ (do
      reject_if (not (url.scheme == "http"))
          (new_error "powerdns.url must be a valid loopback http URL")
      reject_if (not (url.hostname == "localhost") && not (is_loopback (go.parse_ip url.hostname)))
          (new_error "powerdns.url must use loopback; remote plaintext API access is forbidden"))
  ]

  -- the URL of AutoDNS
  unfoldable pub check_autodns : Settings → Result (Unit {0})
  check_autodns s = elim (go.parse_url s.autodns_url) [
    | err e ↦ err (new_error "autodns.url must be HTTPS")
    | ok url ↦ (do
      reject_if (not (url.scheme == "https") || url.host == "")
          (new_error "autodns.url must be HTTPS")
      reject_if
          (not (url.hostname == "api.autodns.com") && not (url.hostname == "api.demo.autodns.com"))
          (new_error "autodns.url host is not an approved DomainRobot endpoint"))
  ]

  -- the body of the loop over the secret files
  unfoldable pub check_secret : String → Result (Unit {0})
  unfolding has_prefix
  check_secret path =
      reject_if (not (has_prefix "/run/secrets/" (go.clean path)))
        (errorf "secret path %s must be under /run/secrets" (str path ∷ []))

  -- the account of AutoDNS
  unfoldable pub check_account : Settings → Result (Unit {0})
  unfolding check_secret
  check_account s = do
    check_secret s.api_key_file
    check_secret s.password_file
    reject_if (s.context == 0 || s.username == "")
        (new_error "autodns username and positive context are required")
    reject_if (ltb s.minimum_request_interval 334_000_000)
        (new_error "autodns minimum request interval must stay below 3 requests/s")

  -- the loop over the resolvers
  unfoldable pub check_resolvers : List String → List String → Result (Unit {0})
  unfolding contains
  check_resolvers seen [] = ok tt
  check_resolvers seen (r ∷ resolvers) = do
    elim (go.split_host_port r) [
      | err e ↦ err (wrapf "invalid resolver %q" (str r ∷ []) e)
      | ok parts ↦ ok tt
    ]
    reject_if (contains seen r) (errorf "duplicate resolver %q" (str r ∷ []))
    check_resolvers (r ∷ seen) resolvers

  -- the section `dns`, down to the authoritative servers
  unfoldable pub check_servers : Settings → Result (Unit {0})
  unfolding check_resolvers
  check_servers s = do
    reject_if (ltb (length s.config.dns.resolvers) 2)
        (new_error "at least two independent DNS resolvers are required")
    check_resolvers [] s.config.dns.resolvers
    elim (go.split_host_port s.config.dns.local_authoritative) [
      | err e ↦ err (wrap "invalid local authoritative address" e)
      | ok parts ↦ ok tt
    ]
    reject_if (ltb (length s.config.dns.authoritative_servers) 2)
        (new_error "at least two authoritative servers are required")
    reject_if (s.config.enrollment.enabled && ltb (length s.config.dns.expected_nameservers) 2)
        (new_error "automatic enrollment requires at least two expected parent nameservers")

  abbrev pub canonical_ns : String → String
  canonical_ns server = to_lower (go.fqdn (trim_space server))

  -- the loop over the expected nameservers, with the names that it has seen
  unfoldable pub check_nameservers : List String → List String → Result (List String)
  unfolding contains to_lower trim_space
  check_nameservers seen [] = ok seen
  check_nameservers seen (server ∷ servers) = do
    reject_if (not (go.is_domain_name (canonical_ns server)) || contains seen (canonical_ns server))
        (errorf "invalid or duplicate expected nameserver %q" (str server ∷ []))
    check_nameservers (canonical_ns server ∷ seen) servers

  -- The endpoint is a name, and one of the expected nameservers.
  unfoldable pub is_expected : List String → String → Bool
  unfolding contains to_lower
  is_expected seen endpoint = elim (go.split_host_port endpoint) [
    | err e ↦ false
    | ok (host, port) ↦ is_missing_ip (go.parse_ip host) && contains seen (to_lower (go.fqdn host))
  ]

  -- the loop over the authoritative servers of an enabled enrollment
  unfoldable pub check_endpoints : List String → List String → Result (Unit {0})
  unfolding is_expected
  check_endpoints seen [] = ok tt
  check_endpoints seen (endpoint ∷ endpoints) = do
    reject_if (not (is_expected seen endpoint)) (
        errorf "authoritative server %q is not an expected delegated nameserver"
          (str endpoint ∷ []))
    check_endpoints seen endpoints

  unfoldable pub check_delegation : Settings → Result (Unit {0})
  unfolding check_nameservers check_endpoints
  check_delegation s = do
    seen ← check_nameservers [] s.config.dns.expected_nameservers
    if s.config.enrollment.enabled
        then (do
          reject_if (not (length s.config.dns.authoritative_servers == length seen)) (
              new_error
                "automatic enrollment requires authoritative_servers to match expected_nameservers exactly")
          check_endpoints seen s.config.dns.authoritative_servers)
        else ok tt

  -- the sections `rotation` and `enrollment`
  unfoldable pub check_policy : Settings → Result (Unit {0})
  check_policy s = do
    reject_if
        (ltb s.config.rotation.zsk_interval (24 * hour)
          || ltb s.config.rotation.ksk_interval (720 * hour))
        (new_error "rotation intervals are below policy minimum")
    reject_if
        (ltb s.config.rotation.minimum_dnskey_wait hour
          || ltb s.config.rotation.minimum_parent_wait (48 * hour))
        (new_error "minimum DNSSEC evidence waits are below policy minimum")
    reject_if s.config.rotation.auto_migrate_csk
        (new_error "automatic CSK migration is forbidden; use an explicit confirmed split trigger")
    reject_if
        (not (s.config.enrollment.scope == "none")
          && not (s.config.enrollment.scope == "all_selected"))
        (new_error "enrollment scope must be none or all_selected")
    reject_if (s.config.enrollment.enabled && not (s.config.enrollment.scope == "all_selected"))
        (new_error "enabled enrollment requires explicit scope all_selected")
    reject_if (ltb s.config.enrollment.discovery_grace (24 * hour))
        (new_error "enrollment discovery grace must be at least 24h")
    reject_if
        (ltb s.config.enrollment.max_pending 1
          || ltb 100 s.config.enrollment.max_pending
          || ltb s.config.enrollment.max_new_per_day 1
          || ltb 100 s.config.enrollment.max_new_per_day)
        (new_error "enrollment circuit-breaker limits must be between 1 and 100")
    reject_if (length s.config.enrollment.allowed_algorithms == 0)
        (new_error "enrollment allowed_algorithms must not be empty")

  -- `Validate`
  unfoldable pub validate : Settings → Result (Unit {0})
  unfolding check_controller check_powerdns check_autodns check_account check_servers
      check_delegation check_policy check_lmtp
  validate s = do
    check_controller s
    check_powerdns s
    check_autodns s
    check_account s
    check_servers s
    check_delegation s
    check_policy s
    if s.config.lmtp_enabled then check_lmtp go s.lmtp else ok tt
