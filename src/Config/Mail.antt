-- ===== src/Config/Mail.antt =====
-- The mail settings in `Validate` of internal/config/config.go, and `parseMailbox`.
use dnssec_keyrotation.Base.{
  String, Bool, false, not, ◌||◌, Option, none, some, List, [], ◌∷◌, nat_eq, string_eq, ◌==◌, ltb,
  length,
}
use dnssec_keyrotation.Base.Text.{has_line_break}
use dnssec_keyrotation.Errors.{Result, ok, new_error, reject_if, wrapping, ◌>>=◌, ◌>>◌}
use dnssec_keyrotation.Model.{second, minute}
use dnssec_keyrotation.Config.Settings.{Ip, Platform, Lmtp}

module _ (go : Platform) where
  -- `parseMailbox`
  unfoldable pub parse_mailbox : String → Result String
  unfolding has_line_break
  parse_mailbox value = do
    reject_if (has_line_break value) (new_error "mailbox must not contain line breaks")
    address ← go.parse_address value
    reject_if (address == "") (new_error "mailbox address is empty")
    ok address

  abbrev pub is_local : Option Ip → Bool
  is_local none = false
  is_local (some ip) = ip.is_private || ip.is_loopback

  -- the loop over the recipients
  unfoldable pub check_recipients : List String → Result (Unit {0})
  unfolding parse_mailbox
  check_recipients [] = ok tt
  check_recipients (recipient ∷ recipients) = do
    address ← wrapping "invalid LMTP recipient" (parse_mailbox recipient)
    check_recipients recipients

  -- the section `notifications.lmtp`, where it is enabled
  unfoldable pub check_lmtp : Lmtp → Result (Unit {0})
  unfolding check_recipients has_line_break
  check_lmtp lmtp = do
    (host, port) ← wrapping "invalid LMTP address" (go.split_host_port lmtp.address)
    reject_if (not (is_local (go.parse_ip host)))
        (new_error "LMTP address must be a private or loopback IP")
    reject_if (lmtp.hostname == "" || has_line_break lmtp.hostname)
        (new_error "LMTP hostname is required and must not contain line breaks")
    reject_if (not (go.is_domain_name (go.fqdn lmtp.hostname)))
        (new_error "LMTP hostname must be a valid DNS name")
    reject_if (ltb lmtp.timeout second || ltb minute lmtp.timeout)
        (new_error "LMTP timeout must be between 1s and 1m")
    from ← wrapping "invalid LMTP sender" (parse_mailbox lmtp.from)
    reject_if (length lmtp.to == 0) (new_error "at least one LMTP recipient is required")
    check_recipients lmtp.to
