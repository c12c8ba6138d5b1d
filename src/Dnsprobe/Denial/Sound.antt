-- ===== src/Dnsprobe/Denial/Sound.antt =====
-- `verifyNoDSProof` of internal/dnsprobe/probe.go: what the signed records of the reply say when it passes.
use mathlib.Core.List.{Memᴰ}
use dnssec_keyrotation.Base.{
  ℕ, String, Bool, true, false, ◌||◌, ◌≡◌, ◌⊎◌, inl, inr, refl, List, [], ◌∷◌, nat_eq, string_eq,
  ◌==◌, and_true,
}
use dnssec_keyrotation.Base.Text.{equal_fold, join}
use dnssec_keyrotation.Model.{Time}
use dnssec_keyrotation.Dnsprobe.Message.{
  Header, Rr, rrsig, soa, nsec, nsec3, dnskey, ds, ns, a, aaaa, other, header, Nsec3, Message,
  PublicKey, Signature,
}
use dnssec_keyrotation.Dnsprobe.Network.{Prober}
use dnssec_keyrotation.Dnsprobe.Denial.{
  delegation_without_ds, same_nsec3_parameters, label_tails, some_key, some_denial_signature,
  valid_denial_signature,
}

pub or_cases : (x y : Bool) → (x || y) ≡ true → (x ≡ true) ⊎ (y ≡ true)
or_cases true y e = inl refl
or_cases false y e = inr e

module _ (p : Prober) (response : Message) (parent : String) (keys : List PublicKey)
    (at : Time) where
  -- One of the keys verifies the signature on the record.
  pub record KeySigns (h : Header) (s : Signature) (rr : Rr) (known : List PublicKey) : Type 0 where
    pub key : PublicKey
    pub inside : Memᴰ key known
    pub tagged : (p.rr.key_tag key.content == s.key_tag) ≡ true
    pub algorithm : (key.content.algorithm == s.algorithm) ≡ true
    pub verified : p.rr.verify h s key (rr ∷ []) ≡ true

  some_key-KeySigns :
      (h : Header) (s : Signature) (rr : Rr) (known : List PublicKey)
      → some_key p response parent keys at h s rr known ≡ true
      → KeySigns h s rr known
  unfolding some_key
  some_key-KeySigns h s rr [] e = cc
  some_key-KeySigns h s rr (key ∷ known) e = elim (or_cases _ _ e) [
    | inl this ↦
        let p = and_true _ _ this in
        let q = and_true _ _ p.0 in
        record { key = key; inside = Memᴰ.head refl; tagged = q.0; algorithm = q.1; verified = p.1 }
    | inr later ↦
        let found = some_key-KeySigns h s rr known later in
        record {
          key = found.key;
          inside = Memᴰ.tail found.inside;
          tagged = found.tagged;
          algorithm = found.algorithm;
          verified = found.verified;
        }
  ]

  -- A signature of the section covers the record, in the name of the parent and by one of its keys.
  pub record Attested (rr : Rr) (section : List Rr) : Type 0 where
    pub place : Header
    pub signature : Signature
    pub inside : Memᴰ (rrsig place signature) section
    pub covers : (signature.type_covered == (header rr).rrtype) ≡ true
    pub owner : equal_fold place.name (header rr).name ≡ true
    pub signer : equal_fold signature.signer_name parent ≡ true
    pub valid : p.rr.validity_period signature at ≡ true
    pub key : KeySigns place signature rr keys

  deeper : (rr first : Rr) (section : List Rr) → Attested rr section → Attested rr (first ∷ section)
  deeper rr first section h = record {
    place = h.place;
    signature = h.signature;
    inside = Memᴰ.tail h.inside;
    covers = h.covers;
    owner = h.owner;
    signer = h.signer;
    valid = h.valid;
    key = h.key;
  }

  some-Attested :
      (rr : Rr) (section : List Rr)
      → some_denial_signature p response parent keys at rr section ≡ true
      → Attested rr section
  unfolding some_denial_signature
  some-Attested rr [] e = cc
  some-Attested rr (rrsig h s ∷ section) e = elim (or_cases _ _ e) [
    | inl this ↦
        let p = and_true _ _ this in
        let q = and_true _ _ p.0 in
        let r = and_true _ _ q.0 in
        let t = and_true _ _ r.0 in
        record {
          place = h;
          signature = s;
          inside = Memᴰ.head refl;
          covers = t.0;
          owner = t.1;
          signer = r.1;
          valid = q.1;
          key = some_key-KeySigns h s rr keys p.1;
        }
    | inr later ↦ deeper rr _ section (some-Attested rr section later)
  ]
  some-Attested rr (dnskey h k ∷ section) e = deeper rr _ section (some-Attested rr section e)
  some-Attested rr (ds h d ∷ section) e = deeper rr _ section (some-Attested rr section e)
  some-Attested rr (soa h ∷ section) e = deeper rr _ section (some-Attested rr section e)
  some-Attested rr (ns h target ∷ section) e = deeper rr _ section (some-Attested rr section e)
  some-Attested rr (nsec h types ∷ section) e = deeper rr _ section (some-Attested rr section e)
  some-Attested rr (nsec3 h n ∷ section) e = deeper rr _ section (some-Attested rr section e)
  some-Attested rr (a h address ∷ section) e = deeper rr _ section (some-Attested rr section e)
  some-Attested rr (aaaa h address ∷ section) e = deeper rr _ section (some-Attested rr section e)
  some-Attested rr (other h ∷ section) e = deeper rr _ section (some-Attested rr section e)

  -- A record of the reply that the parent has signed.
  pub record SignedByParent (rr : Rr) : Type 0 where
    pub present : Memᴰ rr response.authority
    pub below : p.rr.is_sub_domain parent (header rr).name ≡ true
    pub attestation : Attested rr response.authority

  pub signed :
      (rr : Rr)
      → Memᴰ rr response.authority
      → valid_denial_signature p response parent keys at rr ≡ true
      → SignedByParent rr
  unfolding valid_denial_signature
  signed rr present e =
      let p = and_true _ _ e in
      let q = and_true _ _ p.0 in
      record {
        present = present;
        below = q.1;
        attestation = some-Attested rr response.authority p.1;
      }

  -- The two ways to prove that a delegation has no DS.
  pub data NoDs (name : String) : Type 0 where
    -- a record of the name itself, whose types show a delegation without DS
    nsec_at :
        (h : Header) (types : List ℕ)
        → SignedByParent (nsec h types)
        → equal_fold (p.dns.fqdn h.name) (p.dns.fqdn name) ≡ true
        → delegation_without_ds types ≡ true
        → NoDs name
    nsec3_at :
        (h : Header) (n : Nsec3)
        → SignedByParent (nsec3 h n)
        → p.rr.matches h n name ≡ true
        → delegation_without_ds n.types ≡ true
        → NoDs name
    -- a record of an ancestor, and one with Opt-Out that covers the next name towards it
    opt_out :
        (tail next : List String) (h g : Header) (n m : Nsec3)
        → Memᴰ (tail, next) (label_tails (p.rr.split_domain_name name))
        → p.rr.is_sub_domain parent (p.dns.fqdn (join tail ".")) ≡ true
        → SignedByParent (nsec3 h n)
        → p.rr.matches h n (p.dns.fqdn (join tail ".")) ≡ true
        → SignedByParent (nsec3 g m)
        → m.opt_out ≡ true
        → same_nsec3_parameters n m ≡ true
        → p.rr.covers g m (p.dns.fqdn (join next ".")) ≡ true
        → NoDs name
