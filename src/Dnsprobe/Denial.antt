-- ===== src/Dnsprobe/Denial.antt =====
-- `verifyNoDS`, `verifyNoDSProof` and what they call in internal/dnsprobe/probe.go: the proof that a
-- delegation has no DS.
pub mod Sound
pub mod Proof
pub mod Denied
use dnssec_keyrotation.Base.{
  ℕ, String, Bool, true, false, not, ◌&&◌, ◌||◌, List, [], ◌∷◌, nat_eq, string_eq, ◌==◌, contains,
  if◌then◌else◌,
}
use dnssec_keyrotation.Base.Text.{equal_fold, join}
use dnssec_keyrotation.Errors
use dnssec_keyrotation.Errors.{Result, ok, err, new_error, reject_if}
use dnssec_keyrotation.Model.{Time}
use dnssec_keyrotation.Exec.{lift, in_context, ◌>>=◌, ◌>>◌}
use dnssec_keyrotation.Dnsprobe.Message.{
  Header, Rr, rrsig, soa, nsec, nsec3, dnskey, header, Nsec3, Message, PublicKey, Signature,
  type_ns, type_ds, type_soa, type_cname, type_dnskey,
}
use dnssec_keyrotation.Dnsprobe.Network.{N, Prober, query, read_clock}
use dnssec_keyrotation.Dnsprobe.Checks.{same_owner_class, has_type}

-- `delegationWithoutDS`
unfoldable pub delegation_without_ds : List ℕ → Bool
unfolding contains
delegation_without_ds types =
    contains types type_ns
    && not (contains types type_ds)
    && not (contains types type_soa)
    && not (contains types type_cname)

-- `sameNSEC3Parameters`
unfoldable pub same_nsec3_parameters : Nsec3 → Nsec3 → Bool
unfolding equal_fold
same_nsec3_parameters a b =
    a.hash == b.hash && a.iterations == b.iterations && equal_fold a.salt b.salt

-- the tails `labels[i:]` for i from 1, each with the labels from i - 1
unfoldable pub label_tails : List String → List (List String × List String)
label_tails [] = []
label_tails (l ∷ []) = []
label_tails (l ∷ m ∷ rest) = (m ∷ rest, l ∷ m ∷ rest) ∷ label_tails (m ∷ rest)

module _ (p : Prober) (response : Message) (parent : String) (keys : List PublicKey)
    (at : Time) where
  -- one of the keys verifies the signature on the record
  unfoldable pub some_key : Header → Signature → Rr → List PublicKey → Bool
  some_key h s rr [] = false
  some_key h s rr (key ∷ rest) =
      let others = some_key h s rr rest in
      p.rr.key_tag key.content == s.key_tag
        && key.content.algorithm == s.algorithm
        && p.rr.verify h s key (rr ∷ [])
      || others

  -- the loop of `validDenialSignature`
  unfoldable pub some_denial_signature : Rr → List Rr → Bool
  unfolding some_key equal_fold
  some_denial_signature rr [] = false
  some_denial_signature rr (rrsig h s ∷ rest) =
      let others = some_denial_signature rr rest in
      s.type_covered == (header rr).rrtype
        && equal_fold h.name (header rr).name
        && equal_fold s.signer_name parent
        && p.rr.validity_period s at
        && some_key h s rr keys
      || others
  some_denial_signature rr (candidate ∷ rest) = some_denial_signature rr rest

  -- `validDenialSignature`
  unfoldable pub valid_denial_signature : Rr → Bool
  unfolding same_owner_class some_denial_signature
  valid_denial_signature rr =
      same_owner_class p.dns (header rr) (header rr).name
      && p.rr.is_sub_domain parent (header rr).name
      && some_denial_signature rr response.authority

  -- A record that denies the DS by itself.
  unfoldable pub denies_directly : String → Rr → Bool
  unfolding delegation_without_ds valid_denial_signature
  denies_directly name (nsec h types) =
      equal_fold (p.dns.fqdn h.name) (p.dns.fqdn name)
      && delegation_without_ds types
      && valid_denial_signature (nsec h types)
  denies_directly name (nsec3 h n) =
      p.rr.matches h n name && delegation_without_ds n.types && valid_denial_signature (nsec3 h n)
  denies_directly name rr = false

  unfoldable pub some_denial : String → List Rr → Bool
  unfolding denies_directly
  some_denial name [] = false
  some_denial name (rr ∷ rest) =
      let others = some_denial name rest in denies_directly name rr || others

  -- A signed Opt-Out record covers the next closer name.
  unfoldable pub some_cover : String → Nsec3 → List Rr → Bool
  unfolding same_nsec3_parameters valid_denial_signature
  some_cover next_closer found [] = false
  some_cover next_closer found (nsec3 h n ∷ rest) =
      let others = some_cover next_closer found rest in
      n.opt_out
        && same_nsec3_parameters found n
        && p.rr.covers h n next_closer
        && valid_denial_signature (nsec3 h n)
      || others
  some_cover next_closer found (rr ∷ rest) = some_cover next_closer found rest

  abbrev pub lacks_cover : Result (Unit {0})
  lacks_cover =
      err (new_error "NSEC3 closest-encloser proof lacks a signed Opt-Out next-closer cover")

  -- the first signed record that matches the closest encloser decides; `rest` is the answer without one
  unfoldable pub closest_encloser :
      String → String → Result (Unit {0}) → List Rr → Result (Unit {0})
  unfolding some_cover
  closest_encloser closest next_closer rest [] = rest
  closest_encloser closest next_closer rest (nsec3 h n ∷ records) =
      let later = closest_encloser closest next_closer rest records in
      if p.rr.matches h n closest && valid_denial_signature (nsec3 h n)
      then (if some_cover next_closer n response.authority then ok tt else lacks_cover)
      else later
  closest_encloser closest next_closer rest (rr ∷ records) =
      closest_encloser closest next_closer rest records

  abbrev pub no_proof : Result (Unit {0})
  no_proof = err (new_error "no cryptographically valid NSEC/NSEC3 proof of DS absence")

  -- the loop over the labels
  unfoldable pub by_encloser : List (List String × List String) → Result (Unit {0})
  unfolding closest_encloser join
  by_encloser [] = no_proof
  by_encloser ((tail, next) ∷ rest) =
      let later = by_encloser rest in
      let closest = p.dns.fqdn (join tail ".") in
      if not (p.rr.is_sub_domain parent closest)
      then later
      else closest_encloser closest (p.dns.fqdn (join next ".")) later response.authority

  -- `verifyNoDSProof`
  unfoldable pub verify_no_ds_proof : String → Result (Unit {0})
  unfolding some_denial by_encloser label_tails
  verify_no_ds_proof name =
      if some_denial name response.authority
      then ok tt
      else by_encloser (label_tails (p.rr.split_domain_name name))

-- the owner of the first SOA
unfoldable pub soa_owner : List Rr → String
soa_owner [] = ""
soa_owner (soa h ∷ rest) = h.name
soa_owner (rr ∷ rest) = soa_owner rest

-- There is an SOA record.
unfoldable pub has_soa : List Rr → Bool
has_soa [] = false
has_soa (soa h ∷ rest) = true
has_soa (rr ∷ rest) = has_soa rest

module _ (p : Prober) where
  -- the DNSKEYs of the parent
  unfoldable pub parent_keys : String → List Rr → Result (List PublicKey)
  unfolding same_owner_class
  parent_keys parent [] = ok []
  parent_keys parent (dnskey h k ∷ rrs) =
      Errors.◌>>◌
        (reject_if (not (same_owner_class p.dns h parent))
          (new_error "parent DNSKEY owner/class mismatch"))
        (Errors.◌>>=◌ (parent_keys parent rrs)
          (λ rest. ok (record { owner = h.name; content = k } ∷ rest)))
  parent_keys parent (rr ∷ rrs) = parent_keys parent rrs

  abbrev no_keys : List PublicKey → Bool
  no_keys [] = true
  no_keys (key ∷ keys) = false

  -- `dns.Fqdn` of the owner of the SOA, or the empty text where there is none
  unfoldable pub parent_of : Message → String
  unfolding has_soa soa_owner
  parent_of response =
      if has_soa response.authority then p.dns.fqdn (soa_owner response.authority) else ""

  -- `verifyNoDS`
  unfoldable pub verify_no_ds : Message → String → String → Bool → N (Unit {0})
  unfolding parent_of parent_keys verify_no_ds_proof has_type equal_fold
  verify_no_ds response name resolver require_aa = do
    lift (
        reject_if (require_aa && not response.authoritative)
          (new_error "response lacks authoritative-answer"))
    lift (reject_if (has_type response.answer type_ds) (new_error "DS is present"))
    let parent = parent_of response
    lift (
        reject_if (parent == "" || not (p.rr.is_sub_domain parent name) || equal_fold parent name)
          (new_error "negative DS response lacks a valid parent SOA"))
    reply ← in_context "parent DNSKEY" (query p resolver parent type_dnskey true)
    lift (
        reject_if (not reply.authenticated)
          (new_error "parent DNSKEY response lacks authenticated-data"))
    keys ← lift (parent_keys parent reply.answer)
    lift (reject_if (no_keys keys) (new_error "parent DNSKEY RRset is empty"))
    at ← read_clock p
    lift (verify_no_ds_proof p response parent keys at name)
