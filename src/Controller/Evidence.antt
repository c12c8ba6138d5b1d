-- ===== src/Controller/Evidence.antt =====
-- Evidence that several handlers ask for: the choice of the observer's methods, and
-- `validateSplitSignerTransitionEvidence` and `validateEnrollmentEvidence` of
-- internal/controller/controller.go.
use dnssec_keyrotation.Base.{
  ℕ, String, Bool, false, not, ◌&&◌, ◌||◌, List, [], ◌∷◌, nat_eq, string_eq, ◌==◌, if◌then◌else◌,
}
use dnssec_keyrotation.Errors
use dnssec_keyrotation.Errors.{Result, errorf, new_error, num, str, wrapf}
use dnssec_keyrotation.Model.{is_split, Key, Zone, Workflow}
use dnssec_keyrotation.Api.{
  Controller, DnsLibrary, Probe, dnskey_evidence, authoritative_dnskey_evidence, ds_evidence,
  authoritative_ds_evidence, rrsig_by, authoritative_rrsig_by, dnskey_rrsig_by,
  authoritative_dnskey_rrsig_by, delegation_evidence,
}
use dnssec_keyrotation.Exec.{
  M, pure, lift, in_context, get_zone, observe, domain_dnssec, ◌>>=◌, ◌>>◌,
}
use dnssec_keyrotation.Inventory.Keys.{by_id, required, recorded_keys, published_keys}
use dnssec_keyrotation.Inventory.Roles.{
  dnssec_data_for_key, validated_key_role, validate_algorithm_label,
}
use dnssec_keyrotation.Inventory.Split.{validate_active_split_inventory}
use dnssec_keyrotation.Inventory.Material.{same_material, max_ttl}
use dnssec_keyrotation.Controller.Prepublish.{parent_mode_initial}

-- A split migration whose delegation is not yet signed: resolvers cannot validate it.
abbrev pub is_initial_split : Workflow → Bool
is_initial_split w = is_split w.kind && w.parent_mode == parent_mode_initial

abbrev pub dnskey_probe : Workflow → String → List Key → Probe
dnskey_probe w zone keys =
    if is_initial_split w
    then authoritative_dnskey_evidence zone keys
    else dnskey_evidence zone keys

abbrev pub dnskey_signature_probe : Workflow → String → Key → Probe
dnskey_signature_probe w zone key =
    if is_initial_split w then authoritative_dnskey_rrsig_by zone key else dnskey_rrsig_by zone key

-- the body of the loop over the three keys
unfoldable pub exact_role : DnsLibrary → String → String → Key → Result (Unit {0})
exact_role dns zone role key =
    Errors.◌>>=◌ (validated_key_role dns zone key role false)
      λ d. with_key (validate_algorithm_label dns key.algorithm d.algorithm)
  where
    with_key : Result (Unit {0}) → Result (Unit {0})
    with_key (Errors.ok u) = Errors.ok u
    with_key (Errors.err e) = Errors.err (wrapf "key %d algorithm label" (num key.id ∷ []) e)

module _ (c : Controller) (zone : Zone) (keys : List Key) (w : Workflow) where
  -- the observer's part
  signer_observations : Key → Key → M (Unit {0})
  signer_observations new_ksk new_zsk = do
    in_context "authoritative parent DS"
        (observe c (authoritative_ds_evidence zone.name (new_ksk ∷ [])))
    in_context "AD-validating parent DS" (observe c (ds_evidence zone.name (new_ksk ∷ [])))
    in_context "exact DNSKEY evidence" (observe c (dnskey_evidence zone.name (published_keys keys)))
    in_context "replacement KSK DNSKEY signature" (observe c (dnskey_rrsig_by zone.name new_ksk))
    in_context "replacement ZSK zone signature" (observe c (rrsig_by zone.name new_zsk))
    in_context "parent delegation"
        (observe c (delegation_evidence zone.name c.cfg.dns.expected_nameservers))
    pure tt

  -- `validateSplitSignerTransitionEvidence`, with the current maximum TTL in seconds
  unfoldable pub validate_split_signer_transition_evidence : M ℕ
  unfolding signer_observations exact_role
  validate_split_signer_transition_evidence = do
    lift (validate_active_split_inventory c.dns zone.name keys w)
    found ← lift (recorded_keys keys w.old_key_id w.new_key_id)
    let old = found.0
    let new_ksk = found.1
    new_zsk ← lift (
        required (by_id keys w.new_zsk_id)
          (errorf "recorded replacement ZSK %d is missing" (num w.new_zsk_id ∷ [])))
    lift (
        Errors.reject_if
          (not (old.key_type == "ksk")
            || not (new_ksk.key_type == "ksk")
            || not (new_zsk.key_type == "zsk"))
          (errorf "PowerDNS signer roles are %q/%q/%q, want exact ksk/ksk/zsk"
            (str old.key_type ∷ str new_ksk.key_type ∷ str new_zsk.key_type ∷ [])))
    lift (exact_role c.dns zone.name "ksk" old)
    lift (exact_role c.dns zone.name "ksk" new_ksk)
    lift (exact_role c.dns zone.name "zsk" new_zsk)
    expected ← lift (dnssec_data_for_key c.dns zone.name new_ksk)
    remote ← domain_dnssec c zone.name
    lift (
        Errors.reject_if (not remote.enabled || not (same_material remote.material (expected ∷ [])))
          (new_error "InternetX material is not exact new-only replacement KSK"))
    signer_observations new_ksk new_zsk
    detail ← get_zone c zone.id
    lift (Errors.reject_if (max_ttl detail == 0) (new_error "zone maximum TTL is zero"))
    pure (max_ttl detail)

module _ (c : Controller) (zone : String) (keys : List Key) (ksk zsk : Key) where
  -- `validateEnrollmentEvidence`
  unfoldable pub validate_enrollment_evidence : Bool → M (Unit {0})
  validate_enrollment_evidence recursive = do
    in_context "parent delegation"
        (observe c (delegation_evidence zone c.cfg.dns.expected_nameservers))
    observe c (
        if recursive
        then dnskey_evidence zone (published_keys keys)
        else authoritative_dnskey_evidence zone (published_keys keys))
    observe c
        (if recursive then dnskey_rrsig_by zone ksk else authoritative_dnskey_rrsig_by zone ksk)
    observe c (if recursive then rrsig_by zone zsk else authoritative_rrsig_by zone zsk)
    pure tt
