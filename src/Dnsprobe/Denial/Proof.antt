-- ===== src/Dnsprobe/Denial/Proof.antt =====
-- `verifyNoDSProof` of internal/dnsprobe/probe.go: when it passes, one of the two proofs is in the reply.
use mathlib.Core.List.{Memᴰ}
use dnssec_keyrotation.Base.{
  String, Bool, true, false, not, ◌&&◌, ◌≡◌, ◌⊎◌, inl, inr, refl, List, [], ◌∷◌, nat_eq, string_eq,
  and_true, if◌then◌else◌,
}
use dnssec_keyrotation.Base.Text.{join}
use dnssec_keyrotation.Errors.{Error, Result, ok, err}
use dnssec_keyrotation.Model.{Time}
use dnssec_keyrotation.Dnsprobe.Message.{
  Header, Rr, rrsig, soa, nsec, nsec3, dnskey, ds, ns, a, aaaa, other, Nsec3, Message, PublicKey,
}
use dnssec_keyrotation.Dnsprobe.Network.{Prober}
use dnssec_keyrotation.Dnsprobe.Denial.{
  same_nsec3_parameters, label_tails, valid_denial_signature, denies_directly, some_denial,
  some_cover, closest_encloser, by_encloser, verify_no_ds_proof,
}
use dnssec_keyrotation.Dnsprobe.Denial.Sound.{
  or_cases, SignedByParent, signed, NoDs, nsec_at, nsec3_at, opt_out,
}

first_passes :
    (b c : Bool) (e : Error) {later : Result (Unit {0})}
    → (if b then (if c then ok tt else err e) else later) ≡ ok tt
    → ((b ≡ true) × (c ≡ true)) ⊎ (later ≡ ok tt)
first_passes true true e h = inl (refl, refl)
first_passes true false e h = cc
first_passes false c e h = inr h

unless_passes :
    (b : Bool) {m n : Result (Unit {0})} {X : Type 0}
    → (if not b then m else n) ≡ ok tt
    → (m ≡ ok tt → X)
    → (b ≡ true → n ≡ ok tt → X)
    → X
unless_passes true h skipped passed = passed refl h
unless_passes false h skipped passed = skipped h

module _ (p : Prober) (response : Message) (parent : String) (keys : List PublicKey)
    (at : Time) where
  -- The rest of a section is in the reply.
  abbrev Within : List Rr → Type 0
  Within section = (rr : Rr) → Memᴰ rr section → Memᴰ rr response.authority

  module _ (name : String) where
    denied :
        (rr : Rr)
        → Memᴰ rr response.authority
        → denies_directly p response parent keys at name rr ≡ true
        → NoDs p response parent keys at name
    unfolding denies_directly
    denied (nsec h types) present e =
        let p = and_true _ _ e in
        let q = and_true _ _ p.0 in nsec_at h types (signed _ _ _ _ _ _ present p.1) q.0 q.1
    denied (nsec3 h n) present e =
        let p = and_true _ _ e in
        let q = and_true _ _ p.0 in nsec3_at h n (signed _ _ _ _ _ _ present p.1) q.0 q.1
    denied (rrsig h s) present e = cc
    denied (dnskey h k) present e = cc
    denied (ds h d) present e = cc
    denied (soa h) present e = cc
    denied (ns h target) present e = cc
    denied (a h address) present e = cc
    denied (aaaa h address) present e = cc
    denied (other h) present e = cc

    some_denial-NoDs :
        (section : List Rr)
        → Within section
        → some_denial p response parent keys at name section ≡ true
        → NoDs p response parent keys at name
    unfolding some_denial
    some_denial-NoDs [] within e = cc
    some_denial-NoDs (rr ∷ section) within e = elim (or_cases _ _ e) [
      | inl this ↦ denied rr (within rr (Memᴰ.head refl)) this
      | inr later ↦ some_denial-NoDs section (λ other m. within other (Memᴰ.tail m)) later
    ]

  -- A signed record with Opt-Out covers the name.
  record CoveredBy (next_closer : String) (found : Nsec3) : Type 0 where
    place : Header
    cover : Nsec3
    signed_cover : SignedByParent p response parent keys at (nsec3 place cover)
    opts_out : cover.opt_out ≡ true
    alike : same_nsec3_parameters found cover ≡ true
    covers : p.rr.covers place cover next_closer ≡ true

  some_cover-CoveredBy :
      (next_closer : String) (found : Nsec3) (section : List Rr)
      → Within section
      → some_cover p response parent keys at next_closer found section ≡ true
      → CoveredBy next_closer found
  unfolding some_cover
  some_cover-CoveredBy next_closer found [] within e = cc
  some_cover-CoveredBy next_closer found (nsec3 h n ∷ section) within e = elim (or_cases _ _ e) [
    | inl this ↦
        let p = and_true _ _ this in
        let q = and_true _ _ p.0 in
        let r = and_true _ _ q.0 in
        record {
          place = h;
          cover = n;
          signed_cover = signed _ _ _ _ _ _ (within _ (Memᴰ.head refl)) p.1;
          opts_out = r.0;
          alike = r.1;
          covers = q.1;
        }
    | inr later ↦
        some_cover-CoveredBy next_closer found section (λ rr m. within rr (Memᴰ.tail m)) later
  ]
  some_cover-CoveredBy next_closer found (nsec h t ∷ section) within e =
      some_cover-CoveredBy next_closer found section (λ rr m. within rr (Memᴰ.tail m)) e
  some_cover-CoveredBy next_closer found (rrsig h s ∷ section) within e =
      some_cover-CoveredBy next_closer found section (λ rr m. within rr (Memᴰ.tail m)) e
  some_cover-CoveredBy next_closer found (dnskey h k ∷ section) within e =
      some_cover-CoveredBy next_closer found section (λ rr m. within rr (Memᴰ.tail m)) e
  some_cover-CoveredBy next_closer found (ds h d ∷ section) within e =
      some_cover-CoveredBy next_closer found section (λ rr m. within rr (Memᴰ.tail m)) e
  some_cover-CoveredBy next_closer found (soa h ∷ section) within e =
      some_cover-CoveredBy next_closer found section (λ rr m. within rr (Memᴰ.tail m)) e
  some_cover-CoveredBy next_closer found (ns h t ∷ section) within e =
      some_cover-CoveredBy next_closer found section (λ rr m. within rr (Memᴰ.tail m)) e
  some_cover-CoveredBy next_closer found (a h t ∷ section) within e =
      some_cover-CoveredBy next_closer found section (λ rr m. within rr (Memᴰ.tail m)) e
  some_cover-CoveredBy next_closer found (aaaa h t ∷ section) within e =
      some_cover-CoveredBy next_closer found section (λ rr m. within rr (Memᴰ.tail m)) e
  some_cover-CoveredBy next_closer found (other h ∷ section) within e =
      some_cover-CoveredBy next_closer found section (λ rr m. within rr (Memᴰ.tail m)) e

  -- A signed record matches the name, and one with Opt-Out covers the next.
  record EnclosedBy (closest next_closer : String) : Type 0 where
    place : Header
    found : Nsec3
    signed_match : SignedByParent p response parent keys at (nsec3 place found)
    matches : p.rr.matches place found closest ≡ true
    covered : CoveredBy next_closer found

  module _ (closest next_closer : String) (rest : Result (Unit {0})) where
    closest_encloser-EnclosedBy :
        (section : List Rr)
        → Within section
        → closest_encloser p response parent keys at closest next_closer rest section ≡ ok tt
        → (rest ≡ ok tt) ⊎ EnclosedBy closest next_closer
    unfolding closest_encloser
    closest_encloser-EnclosedBy [] within e = inl e
    closest_encloser-EnclosedBy (nsec3 h n ∷ section) within e =
        elim (first_passes
          (p.rr.matches h n closest && valid_denial_signature p response parent keys at (nsec3 h n))
          (some_cover p response parent keys at next_closer n response.authority) _ e) [
            | inl (matched, covered) ↦
                let p = and_true _ _ matched in
                inr (record {
                  place = h;
                  found = n;
                  signed_match = signed _ _ _ _ _ _ (within _ (Memᴰ.head refl)) p.1;
                  matches = p.0;
                  covered =
                      some_cover-CoveredBy next_closer n response.authority (λ rr m. m) covered;
                })
            | inr later ↦
                closest_encloser-EnclosedBy section (λ rr m. within rr (Memᴰ.tail m)) later
          ]
    closest_encloser-EnclosedBy (nsec h t ∷ section) within e =
        closest_encloser-EnclosedBy section (λ rr m. within rr (Memᴰ.tail m)) e
    closest_encloser-EnclosedBy (rrsig h s ∷ section) within e =
        closest_encloser-EnclosedBy section (λ rr m. within rr (Memᴰ.tail m)) e
    closest_encloser-EnclosedBy (dnskey h k ∷ section) within e =
        closest_encloser-EnclosedBy section (λ rr m. within rr (Memᴰ.tail m)) e
    closest_encloser-EnclosedBy (ds h d ∷ section) within e =
        closest_encloser-EnclosedBy section (λ rr m. within rr (Memᴰ.tail m)) e
    closest_encloser-EnclosedBy (soa h ∷ section) within e =
        closest_encloser-EnclosedBy section (λ rr m. within rr (Memᴰ.tail m)) e
    closest_encloser-EnclosedBy (ns h t ∷ section) within e =
        closest_encloser-EnclosedBy section (λ rr m. within rr (Memᴰ.tail m)) e
    closest_encloser-EnclosedBy (a h t ∷ section) within e =
        closest_encloser-EnclosedBy section (λ rr m. within rr (Memᴰ.tail m)) e
    closest_encloser-EnclosedBy (aaaa h t ∷ section) within e =
        closest_encloser-EnclosedBy section (λ rr m. within rr (Memᴰ.tail m)) e
    closest_encloser-EnclosedBy (other h ∷ section) within e =
        closest_encloser-EnclosedBy section (λ rr m. within rr (Memᴰ.tail m)) e

  module _ (name : String) where
    by_encloser-NoDs :
        (pairs : List (List String × List String))
        → ((tail next : List String)
            → Memᴰ (tail, next) pairs
            → Memᴰ (tail, next) (label_tails (p.rr.split_domain_name name)))
        → by_encloser p response parent keys at pairs ≡ ok tt
        → NoDs p response parent keys at name
    unfolding by_encloser
    by_encloser-NoDs [] within e = cc
    by_encloser-NoDs ((tail, next) ∷ pairs) within e =
        let again = by_encloser-NoDs pairs (λ t n m. within t n (Memᴰ.tail m)) in
        unless_passes (p.rr.is_sub_domain parent (p.dns.fqdn (join tail "."))) e again
          λ below enclosed.
            elim (closest_encloser-EnclosedBy _ _ _ response.authority (λ rr m. m) enclosed) [
              | inl later ↦ again later
              | inr f ↦
                  opt_out tail next f.place f.covered.place f.found f.covered.cover
                    (within tail next (Memᴰ.head refl)) below f.signed_match f.matches
                    f.covered.signed_cover f.covered.opts_out f.covered.alike f.covered.covers
            ]

    pub verify_no_ds_proof-NoDs :
        verify_no_ds_proof p response parent keys at name ≡ ok tt
        → NoDs p response parent keys at name
    unfolding verify_no_ds_proof
    verify_no_ds_proof-NoDs e =
        decided (some_denial p response parent keys at name response.authority) refl e
      where
        decided :
            (b : Bool)
            → some_denial p response parent keys at name response.authority ≡ b
            → (if b
                then ok tt
                else by_encloser p response parent keys at
                    (label_tails (p.rr.split_domain_name name)))
              ≡ ok tt
            → NoDs p response parent keys at name
        decided true direct e = some_denial-NoDs name response.authority (λ rr m. m) direct
        decided false none e = by_encloser-NoDs _ (λ t n m. m) e
