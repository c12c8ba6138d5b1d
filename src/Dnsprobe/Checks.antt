-- ===== src/Dnsprobe/Checks.antt =====
-- The pure checks on a reply: `sameOwnerClass`, `expectedDNSKEYs`, `expectedDS`, `verifyDNSKEYSet`,
-- `verifySignature`, `exactDS`, `rrsetTTL`, `hasType` and `unique` of internal/dnsprobe/probe.go.
pub mod Sound
pub mod Distinct
pub mod Signed
use dnssec_keyrotation.Base.{
  ℕ, String, Bool, true, false, not, ◌&&◌, ◌||◌, none, some, List, [], ◌∷◌, map, nat_eq, string_eq,
  ◌==◌, ltb, contains, sort_by, equal_lists, if◌then◌else◌,
}
use dnssec_keyrotation.Base.Order.{Slashed, slashed_eq, slashed_le}
use dnssec_keyrotation.Base.Text.{equal_fold, to_upper}
use dnssec_keyrotation.Errors.{Result, ok, err, errorf, new_error, reject_if, num, ◌>>=◌, ◌>>◌}
use dnssec_keyrotation.Model.{Key, DnssecData, Time}
use dnssec_keyrotation.Api.{DnsLibrary}
use dnssec_keyrotation.Inventory.Roles.{key_rr}
use dnssec_keyrotation.Dnsprobe.Message.{
  Header, DsData, Signature, Rr, dnskey, ds, rrsig, header, Message, PublicKey, RrLibrary,
}

module _ (dns : DnsLibrary) where
  -- `sameOwnerClass`; the class is that of the Internet
  unfoldable pub same_owner_class : Header → String → Bool
  unfolding equal_fold
  same_owner_class h owner = (h.class == 1) && equal_fold (dns.fqdn h.name) (dns.fqdn owner)

  -- `expectedDNSKEYs`
  unfoldable pub expected_dnskeys : String → List Key → Result (List DnssecData)
  unfolding key_rr
  expected_dnskeys zone [] = ok []
  expected_dnskeys zone (key ∷ keys) = do
    rr ← key_rr dns zone key
    rest ← expected_dnskeys zone keys
    ok (rr ∷ rest)

-- `dnskeyKey`
abbrev pub dnskey_key : DnssecData → Slashed
dnskey_key k = record {
  first = k.flags;
  second = k.protocol;
  third = k.algorithm;
  last = k.public_key;
}

-- `dsKey`
unfoldable pub ds_key : DsData → Slashed
unfolding to_upper
ds_key d = record {
  first = d.key_tag;
  second = d.algorithm;
  third = d.digest_type;
  last = to_upper d.digest;
}

-- `rrsetTTL`, from the value that the loop has reached
unfoldable pub rrset_ttl_from : ℕ → ℕ → List Rr → ℕ
rrset_ttl_from typ ttl [] = ttl
rrset_ttl_from typ ttl (rr ∷ rrs) =
    rrset_ttl_from typ
      (if (header rr).rrtype == typ && (ttl == 0 || ltb ttl (header rr).ttl)
        then (header rr).ttl
        else ttl)
      rrs

-- `rrsetTTL`
unfoldable pub rrset_ttl : List Rr → ℕ → ℕ
unfolding rrset_ttl_from
rrset_ttl rrs typ = rrset_ttl_from typ 0 rrs

-- `hasType`
unfoldable pub has_type : List Rr → ℕ → Bool
has_type [] typ = false
has_type (rr ∷ rrs) typ = let rest = has_type rrs typ in (header rr).rrtype == typ || rest

-- the loop of `unique`
unfoldable pub unique_from : List String → List String → List String
unfolding contains
unique_from seen [] = []
unique_from seen (x ∷ xs) =
    let rest = unique_from (if contains seen x then seen else x ∷ seen) xs in
    if contains seen x then rest else x ∷ rest

-- `unique`
unfoldable pub unique : List String → List String
unfolding unique_from
unique xs = unique_from [] xs

-- the flags that a reply must carry
unfoldable pub check_flags : Message → Bool → Bool → Result (Unit {0})
check_flags r require_ad require_aa = do
  reject_if (require_ad && not r.authenticated) (new_error "response lacks authenticated-data")
  reject_if (require_aa && not r.authoritative) (new_error "response lacks authoritative-answer")

abbrev pub no_rrs : List Rr → Bool
no_rrs [] = true
no_rrs (rr ∷ rrs) = false

module _ (dns : DnsLibrary) (lib : RrLibrary) where
  -- `expectedDS`, before it is sorted
  unfoldable pub expected_ds : String → List Key → Result (List Slashed)
  unfolding key_rr ds_key
  expected_ds zone [] = ok []
  expected_ds zone (key ∷ keys) = do
    rr ← key_rr dns zone key
    one ← elim (lib.to_ds (record { owner = dns.fqdn zone; content = rr })) [
      | none ↦ err (errorf "cannot derive SHA-256 DS for key %d" (num key.id ∷ []))
      | some d ↦ ok (ds_key d)
    ]
    rest ← expected_ds zone keys
    ok (one ∷ rest)

  -- the DNSKEYs of an answer
  unfoldable pub answered_dnskeys : String → List Rr → Result (List Slashed)
  unfolding same_owner_class
  answered_dnskeys owner [] = ok []
  answered_dnskeys owner (dnskey h k ∷ rrs) = do
    reject_if (not (same_owner_class dns h owner)) (new_error "DNSKEY owner/class mismatch")
    rest ← answered_dnskeys owner rrs
    ok (dnskey_key k ∷ rest)
  answered_dnskeys owner (rr ∷ rrs) = answered_dnskeys owner rrs

  -- `verifyDNSKEYSet`
  unfoldable pub verify_dnskey_set :
      Message → List DnssecData → Bool → Bool → String → Result (Unit {0})
  unfolding check_flags answered_dnskeys sort_by equal_lists
  verify_dnskey_set r want require_ad require_aa owner = do
    check_flags r require_ad require_aa
    got ← answered_dnskeys owner r.answer
    reject_if
        (not (equal_lists (sort_by slashed_le got) (sort_by slashed_le (map dnskey_key want))))
        (new_error "DNSKEY set mismatch: got %v expected %v")

  -- the DS records of an answer
  unfoldable pub answered_ds : String → List Rr → Result (List Slashed)
  unfolding same_owner_class ds_key
  answered_ds owner [] = ok []
  answered_ds owner (ds h d ∷ rrs) = do
    reject_if (not (same_owner_class dns h owner)) (new_error "DS owner/class mismatch")
    rest ← answered_ds owner rrs
    ok (ds_key d ∷ rest)
  answered_ds owner (rr ∷ rrs) = answered_ds owner rrs

  -- `exactDS`
  unfoldable pub exact_ds : Message → List Slashed → String → Bool → Result (Unit {0})
  unfolding check_flags answered_ds sort_by equal_lists
  exact_ds r want owner require_aa = do
    check_flags r false require_aa
    got ← answered_ds owner r.answer
    reject_if (not (equal_lists (sort_by slashed_le got) (sort_by slashed_le want)))
        (new_error "DS set mismatch: got %v expected %v")

  -- the records of a type in an answer
  unfoldable pub covered_rrs : ℕ → String → List Rr → Result (List Rr)
  unfolding same_owner_class
  covered_rrs typ owner [] = ok []
  covered_rrs typ owner (rr ∷ rrs) = do
    reject_if ((header rr).rrtype == typ && not (same_owner_class dns (header rr) owner))
        (new_error "covered RRset owner/class mismatch")
    rest ← covered_rrs typ owner rrs
    ok (if (header rr).rrtype == typ then rr ∷ rest else rest)

  -- A signature of the answer counts: it covers the type, and it names the key.
  abbrev pub is_candidate_signature : ℕ → PublicKey → Signature → Bool
  is_candidate_signature typ key s =
      s.type_covered == typ
      && (s.key_tag == lib.key_tag key.content)
      && (s.algorithm == key.content.algorithm)

  -- the loop over the signatures: one of them is valid now and verifies
  unfoldable pub some_signature : ℕ → PublicKey → String → Time → List Rr → List Rr → Bool
  unfolding same_owner_class
  some_signature typ key owner at rrset [] = false
  some_signature typ key owner at rrset (rrsig h s ∷ rrs) =
      let rest = some_signature typ key owner at rrset rrs in
      is_candidate_signature typ key s
        && same_owner_class dns h owner
        && lib.validity_period s at
        && lib.verify h s key rrset
      || rest
  some_signature typ key owner at rrset (rr ∷ rrs) = some_signature typ key owner at rrset rrs

  -- `verifySignature`
  unfoldable pub verify_signature :
      Message → ℕ → PublicKey → Bool → Bool → String → Time → Result (Unit {0})
  unfolding check_flags covered_rrs some_signature
  verify_signature r typ key require_ad require_aa owner at = do
    check_flags r require_ad require_aa
    rrset ← covered_rrs typ owner r.answer
    reject_if (no_rrs rrset) (new_error "covered RRset is absent")
    reject_if (not (some_signature typ key owner at rrset r.answer))
        (new_error "no cryptographically valid RRSIG by expected DNSKEY")
