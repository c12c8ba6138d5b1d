-- ===== src/Dnsprobe/Checks/Sound.antt =====
-- What the checks on a reply in internal/dnsprobe/probe.go guarantee when they pass.
use dnssec_keyrotation.Base.{
  ◌∙◌, String, Bool, true, false, not, ◌&&◌, ◌≡◌, refl, ap, subst, sym, List, [], ◌∷◌, map, nat_eq,
  equal-sorted_perm,
}
use mathlib.Core.List.{Perm}
use dnssec_keyrotation.Base.Order.{Slashed, slashed_eq, slashed_le}
use dnssec_keyrotation.Errors.Ensures.{
  Ensures, Ensures-bind, Ensures-reject, Ensures-final, Ensures-test, ok_inj,
}
use dnssec_keyrotation.Model.{DnssecData}
use dnssec_keyrotation.Api.{DnsLibrary}
use dnssec_keyrotation.Dnsprobe.Message.{
  Rr, dnskey, ds, rrsig, soa, ns, nsec, nsec3, a, aaaa, other, Message, RrLibrary,
}
use dnssec_keyrotation.Dnsprobe.Checks.{
  dnskey_key, ds_key, answered_dnskeys, answered_ds, check_flags, verify_dnskey_set, exact_ds,
}

-- The DNSKEYs of a section.
unfoldable pub dnskeys_of : List Rr → List Slashed
dnskeys_of [] = []
dnskeys_of (dnskey h k ∷ rrs) = dnskey_key k ∷ dnskeys_of rrs
dnskeys_of (rr ∷ rrs) = dnskeys_of rrs

-- The DS records of a section.
unfoldable pub ds_of : List Rr → List Slashed
ds_of [] = []
ds_of (ds h d ∷ rrs) = ds_key d ∷ ds_of rrs
ds_of (rr ∷ rrs) = ds_of rrs

-- A flag that was asked for is set.
abbrev pub Carries : Bool → Bool → Type 0
Carries wanted flag = (wanted && not flag) ≡ false

pub not-false : (b : Bool) → not b ≡ false → b ≡ true
not-false true e = refl
not-false false e = cc

pub flags-Ensures :
    (r : Message) (require_ad require_aa : Bool)
    → Ensures
        (λ _. Carries require_ad r.authenticated × Carries require_aa r.authoritative)
        (check_flags r require_ad require_aa)
unfolding check_flags
flags-Ensures r require_ad require_aa = Ensures-reject _ _ λ ad. Ensures-test _ _ λ aa. (ad, aa)

module _ (dns : DnsLibrary) (lib : RrLibrary) where
  dnskeys-Ensures :
      (owner : String) (rrs : List Rr)
      → Ensures (λ got. got ≡ dnskeys_of rrs) (answered_dnskeys dns lib owner rrs)
  unfolding answered_dnskeys dnskeys_of
  dnskeys-Ensures owner [] = Ensures-final λ got e. sym (ok_inj e)
  dnskeys-Ensures owner (dnskey h k ∷ rrs) = Ensures-reject _ _ λ owned. Ensures-bind λ rest rest_e.
      Ensures-final λ got e.
        sym (ok_inj e) ∙ ap (λ l. dnskey_key k ∷ l) ((dnskeys-Ensures owner rrs).at rest rest_e)
  dnskeys-Ensures owner (ds h d ∷ rrs) = dnskeys-Ensures owner rrs
  dnskeys-Ensures owner (rrsig h s ∷ rrs) = dnskeys-Ensures owner rrs
  dnskeys-Ensures owner (soa h ∷ rrs) = dnskeys-Ensures owner rrs
  dnskeys-Ensures owner (ns h target ∷ rrs) = dnskeys-Ensures owner rrs
  dnskeys-Ensures owner (nsec h types ∷ rrs) = dnskeys-Ensures owner rrs
  dnskeys-Ensures owner (nsec3 h n ∷ rrs) = dnskeys-Ensures owner rrs
  dnskeys-Ensures owner (a h address ∷ rrs) = dnskeys-Ensures owner rrs
  dnskeys-Ensures owner (aaaa h address ∷ rrs) = dnskeys-Ensures owner rrs
  dnskeys-Ensures owner (other h ∷ rrs) = dnskeys-Ensures owner rrs

  ds-Ensures :
      (owner : String) (rrs : List Rr)
      → Ensures (λ got. got ≡ ds_of rrs) (answered_ds dns lib owner rrs)
  unfolding answered_ds ds_of
  ds-Ensures owner [] = Ensures-final λ got e. sym (ok_inj e)
  ds-Ensures owner (ds h d ∷ rrs) = Ensures-reject _ _ λ owned. Ensures-bind λ rest rest_e.
      Ensures-final
        λ got e. sym (ok_inj e) ∙ ap (λ l. ds_key d ∷ l) ((ds-Ensures owner rrs).at rest rest_e)
  ds-Ensures owner (dnskey h k ∷ rrs) = ds-Ensures owner rrs
  ds-Ensures owner (rrsig h s ∷ rrs) = ds-Ensures owner rrs
  ds-Ensures owner (soa h ∷ rrs) = ds-Ensures owner rrs
  ds-Ensures owner (ns h target ∷ rrs) = ds-Ensures owner rrs
  ds-Ensures owner (nsec h types ∷ rrs) = ds-Ensures owner rrs
  ds-Ensures owner (nsec3 h n ∷ rrs) = ds-Ensures owner rrs
  ds-Ensures owner (a h address ∷ rrs) = ds-Ensures owner rrs
  ds-Ensures owner (aaaa h address ∷ rrs) = ds-Ensures owner rrs
  ds-Ensures owner (other h ∷ rrs) = ds-Ensures owner rrs

  -- The reply has the flags, and shows the wanted DNSKEYs and no other, as often.
  abbrev pub ShowsKeys : Message → List DnssecData → Bool → Bool → Type 0
  ShowsKeys r want require_ad require_aa =
      Carries require_ad r.authenticated
      × Carries require_aa r.authoritative
      × Perm (dnskeys_of r.answer) (map dnskey_key want)

  pub verify_dnskey_set-ShowsKeys :
      (r : Message) (want : List DnssecData) (require_ad require_aa : Bool) (owner : String)
      → Ensures
          (λ _. ShowsKeys r want require_ad require_aa)
          (verify_dnskey_set dns lib r want require_ad require_aa owner)
  unfolding verify_dnskey_set
  verify_dnskey_set-ShowsKeys r want require_ad require_aa owner = Ensures-bind λ _ flags_e.
      Ensures-bind λ got got_e. Ensures-test _ _ λ same.
        let flags = (flags-Ensures r require_ad require_aa).at tt flags_e in
        (
          flags.0,
          flags.1,
          subst (λ l. Perm l (map dnskey_key want)) ((dnskeys-Ensures owner r.answer).at got got_e)
              (equal-sorted_perm slashed_le got (map dnskey_key want) (not-false _ same)),
        )

  -- The reply of the parent shows the wanted DS records and no other, as often.
  abbrev pub ShowsDs : Message → List Slashed → Bool → Type 0
  ShowsDs r want require_aa = Carries require_aa r.authoritative × Perm (ds_of r.answer) want

  pub exact_ds-ShowsDs :
      (r : Message) (want : List Slashed) (owner : String) (require_aa : Bool)
      → Ensures (λ _. ShowsDs r want require_aa) (exact_ds dns lib r want owner require_aa)
  unfolding exact_ds
  exact_ds-ShowsDs r want owner require_aa = Ensures-bind λ _ flags_e. Ensures-bind λ got got_e.
      Ensures-test _ _ λ same. (
        ((flags-Ensures r false require_aa).at tt flags_e).1,
        subst (λ l. Perm l want) ((ds-Ensures owner r.answer).at got got_e)
            (equal-sorted_perm slashed_le got want (not-false _ same)),
      )
