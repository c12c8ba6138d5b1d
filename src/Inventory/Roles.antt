-- ===== src/Inventory/Roles.antt =====
-- The cryptographic role of a key: `keyRR` and `DNSSECDataForKey` of internal/dnsprobe/probe.go,
-- `validatedKeyRole` and `validateAlgorithmLabel` of internal/controller/controller.go.
use dnssec_keyrotation.Base.{
  ℕ, String, Bool, false, not, ◌&&◌, ◌||◌, Option, none, some, List, [], ◌∷◌, length, ltb, nat_eq,
  string_eq, ◌==◌, if◌then◌else◌,
}
use dnssec_keyrotation.Base.Text.{trim_space, to_upper, fields, equal_fold, join}
use dnssec_keyrotation.Errors.{Result, ok, err, errorf, str, num, ◌>>=◌, ◌>>◌, reject_if, wrapf}
use dnssec_keyrotation.Model.{Key, DnssecData}
use dnssec_keyrotation.Api.{DnsLibrary}

-- `parts[len(parts)-n:]`
last_words : ℕ → List String → List String
last_words n [] = []
last_words n (s ∷ rest) =
    let later = last_words n rest in if ltb n (length (s ∷ rest)) then later else s ∷ rest

abbrev first_is : String → List String → Bool
first_is text [] = false
first_is text (s ∷ rest) = equal_fold s text

-- The record data of the `dnskey` text: its last four words where "DNSKEY" stands in front of them,
-- which a whole record line has, and else the text.
unfoldable pub dnskey_content : String → String
unfolding last_words equal_fold fields trim_space join
dnskey_content text =
    let content = trim_space text in
    let parts = fields content in
    if ltb 4 (length parts) && first_is "DNSKEY" (last_words 5 parts)
    then join (last_words 4 parts) " "
    else content

abbrev parsed : Key → Result (Option DnssecData) → Result DnssecData
parsed key (ok (some data_of_key)) = ok data_of_key
parsed key (ok none) = err (errorf "key %d is not DNSKEY" (num key.id ∷ []))
parsed key (err e) = err (wrapf "parse public DNSKEY for key %d" (num key.id ∷ []) e)

abbrev invalid : Key → Result DnssecData → Result DnssecData
invalid key (ok d) = ok d
invalid key (err e) = err (wrapf "key %d DNSKEY is invalid" (num key.id ∷ []) e)

-- the flags that a role wants: the zone-key bit, with the SEP bit for a KSK or CSK
abbrev pub want_flags : String → ℕ
want_flags want_type = if want_type == "ksk" || want_type == "csk" then 257 else 256

-- PowerDNS labels a new split key "csk" while a CSK still signs; only a split migration takes that.
abbrev accept_type : Key → String → Bool → DnssecData → Result DnssecData
accept_type key want_type allow_transitional_csk d =
    if key.key_type == want_type
    then ok d
    else if allow_transitional_csk
        && key.key_type == "csk"
        && (want_type == "ksk" || want_type == "zsk")
    then ok d
    else err (
        errorf "key %d has PowerDNS keytype %q, want %q"
          (num key.id ∷ str key.key_type ∷ str want_type ∷ []))

module _ (dns : DnsLibrary) where
  -- `keyRR`, as far as its fields are read
  unfoldable pub key_rr : String → Key → Result DnssecData
  unfolding dnskey_content
  key_rr zone key = parsed key (dns.new_dnskey (dns.fqdn zone) (dnskey_content key.dnskey))

  -- `DNSSECDataForKey`
  unfoldable pub dnssec_data_for_key : String → Key → Result DnssecData
  dnssec_data_for_key zone key = key_rr (dns.fqdn zone) key

  -- `validatedKeyRole`
  unfoldable pub validated_key_role : String → Key → String → Bool → Result DnssecData
  validated_key_role zone key want_type allow_transitional_csk = do
    d ← invalid key (dnssec_data_for_key zone key)
    reject_if (not (d.protocol == 3))
        (errorf "key %d has DNSKEY protocol %d, want 3" (num key.id ∷ num d.protocol ∷ []))
    reject_if (not (d.flags == want_flags want_type)) (
        errorf "key %d has DNSKEY flags %d, want %d for %s"
          (num key.id ∷ num d.flags ∷ num (want_flags want_type) ∷ str want_type ∷ []))
    accept_type key want_type allow_transitional_csk d

  -- `validateAlgorithmLabel`
  unfoldable pub validate_algorithm_label : String → ℕ → Result (Unit {0})
  validate_algorithm_label label algorithm =
      elim (dns.string_to_algorithm (to_upper (trim_space label))) [
        | none ↦ err (errorf "unknown PowerDNS algorithm %q" (str label ∷ []))
        | some want ↦ reject_if (not (want == algorithm)) (
            errorf "PowerDNS algorithm %q maps to %d but DNSKEY contains %d"
              (str label ∷ num want ∷ num algorithm ∷ []))
      ]
