-- ===== src/Dnsprobe/Checks/Signed.antt =====
-- `verifySignature` of internal/dnsprobe/probe.go, the function: what it guarantees when it passes.
use dnssec_keyrotation.Base.{
  ℕ, String, Bool, true, false, ◌&&◌, ◌||◌, ◌≡◌, refl, sym, ◌∙◌, ap, subst, List, [], ◌∷◌, nat_eq,
  ◌==◌, if◌then◌else◌, and_true,
}
use mathlib.Core.List.{Memᴰ}
use dnssec_keyrotation.Errors.Ensures.{
  Ensures, Ensures-bind, Ensures-reject, Ensures-final, Ensures-test, ok_inj,
}
use dnssec_keyrotation.Model.{Time}
use dnssec_keyrotation.Api.{DnsLibrary}
use dnssec_keyrotation.Dnsprobe.Message.{
  Rr, dnskey, ds, rrsig, soa, ns, nsec, nsec3, a, aaaa, other, header, Header, Signature, Message,
  PublicKey, RrLibrary,
}
use dnssec_keyrotation.Dnsprobe.Checks.{
  covered_rrs, some_signature, verify_signature, is_candidate_signature, same_owner_class, no_rrs,
}
use dnssec_keyrotation.Dnsprobe.Checks.Sound.{not-false, Carries, flags-Ensures}

-- The records of a type.
unfoldable pub rrs_of : ℕ → List Rr → List Rr
rrs_of typ [] = []
rrs_of typ (rr ∷ rrs) =
    let rest = rrs_of typ rrs in if (header rr).rrtype == typ then rr ∷ rest else rest

module _ (dns : DnsLibrary) (lib : RrLibrary) where
  covered-Ensures :
      (typ : ℕ) (owner : String) (rrs : List Rr)
      → Ensures (λ got. got ≡ rrs_of typ rrs) (covered_rrs dns lib typ owner rrs)
  unfolding covered_rrs rrs_of
  covered-Ensures typ owner [] = Ensures-final λ got e. sym (ok_inj e)
  covered-Ensures typ owner (rr ∷ rrs) = Ensures-reject _ _ λ owned. Ensures-bind λ rest rest_e.
      Ensures-final λ got e.
        sym (ok_inj e)
        ∙ ap (λ l. if (header rr).rrtype == typ then rr ∷ l else l)
            ((covered-Ensures typ owner rrs).at rest rest_e)

  -- A signature of the section covers the type, names the key, stands at the owner, is valid at the time
  -- and verifies on the records.
  pub record IsSigned (typ : ℕ) (key : PublicKey) (owner : String) (at : Time) (rrset rrs : List Rr)
      : Type 0 where
    pub place : Header
    pub signature : Signature
    pub inside : Memᴰ (rrsig place signature) rrs
    pub candidate : is_candidate_signature dns lib typ key signature ≡ true
    pub owned : same_owner_class dns place owner ≡ true
    pub valid : lib.validity_period signature at ≡ true
    pub verified : lib.verify place signature key rrset ≡ true

  module _ (typ : ℕ) (key : PublicKey) (owner : String) (at : Time) (rrset : List Rr) where
    later :
        (rr : Rr) (rrs : List Rr)
        → IsSigned typ key owner at rrset rrs
        → IsSigned typ key owner at rrset (rr ∷ rrs)
    later rr rrs s = record {
      place = s.place;
      signature = s.signature;
      inside = Memᴰ.tail s.inside;
      candidate = s.candidate;
      owned = s.owned;
      valid = s.valid;
      verified = s.verified;
    }

    here_or_later :
        (h : Header) (s : Signature) (rrs : List Rr) (x rest : Bool)
        → (is_candidate_signature dns lib typ key s
            && same_owner_class dns h owner
            && lib.validity_period s at
            && lib.verify h s key rrset)
          ≡ x
        → (x || rest) ≡ true
        → (rest ≡ true → IsSigned typ key owner at rrset rrs)
        → IsSigned typ key owner at rrset (rrsig h s ∷ rrs)
    here_or_later h s rrs true rest e found further =
        let p = and_true _ _ e in
        let q = and_true _ _ p.0 in
        let r = and_true _ _ q.0 in
        record {
          place = h;
          signature = s;
          inside = Memᴰ.head refl;
          candidate = r.0;
          owned = r.1;
          valid = q.1;
          verified = p.1;
        }
    here_or_later h s rrs false rest e found further = later (rrsig h s) rrs (further found)

    some_signature-IsSigned :
        (rrs : List Rr)
        → some_signature dns lib typ key owner at rrset rrs ≡ true
        → IsSigned typ key owner at rrset rrs
    unfolding some_signature
    some_signature-IsSigned [] e = cc
    some_signature-IsSigned (rrsig h s ∷ rrs) e =
        here_or_later h s rrs _ _ refl e (λ f. some_signature-IsSigned rrs f)
    some_signature-IsSigned (dnskey h k ∷ rrs) e = later _ rrs (some_signature-IsSigned rrs e)
    some_signature-IsSigned (ds h d ∷ rrs) e = later _ rrs (some_signature-IsSigned rrs e)
    some_signature-IsSigned (soa h ∷ rrs) e = later _ rrs (some_signature-IsSigned rrs e)
    some_signature-IsSigned (ns h target ∷ rrs) e = later _ rrs (some_signature-IsSigned rrs e)
    some_signature-IsSigned (nsec h types ∷ rrs) e = later _ rrs (some_signature-IsSigned rrs e)
    some_signature-IsSigned (nsec3 h n ∷ rrs) e = later _ rrs (some_signature-IsSigned rrs e)
    some_signature-IsSigned (a h address ∷ rrs) e = later _ rrs (some_signature-IsSigned rrs e)
    some_signature-IsSigned (aaaa h address ∷ rrs) e = later _ rrs (some_signature-IsSigned rrs e)
    some_signature-IsSigned (other h ∷ rrs) e = later _ rrs (some_signature-IsSigned rrs e)

  -- The reply has the flags, holds records of the type, and the key signs all of them.
  pub record ShowsSignature (r : Message) (typ : ℕ) (key : PublicKey) (require_ad require_aa : Bool)
      (owner : String) (at : Time) : Type 0 where
    pub authenticated : Carries require_ad r.authenticated
    pub authoritative : Carries require_aa r.authoritative
    pub present : no_rrs (rrs_of typ r.answer) ≡ false
    pub signed : IsSigned typ key owner at (rrs_of typ r.answer) r.answer

  pub verify_signature-Shows :
      (r : Message) (typ : ℕ) (key : PublicKey) (require_ad require_aa : Bool) (owner : String)
      (at : Time)
      → Ensures
          (λ _. ShowsSignature r typ key require_ad require_aa owner at)
          (verify_signature dns lib r typ key require_ad require_aa owner at)
  unfolding verify_signature
  verify_signature-Shows r typ key require_ad require_aa owner at = Ensures-bind λ _ flags_e.
      Ensures-bind λ got got_e. Ensures-reject _ _ λ present. Ensures-test _ _ λ signed.
        let flags = (flags-Ensures r require_ad require_aa).at tt flags_e in
        let same = (covered-Ensures typ owner r.answer).at got got_e in
        record {
          authenticated = flags.0;
          authoritative = flags.1;
          present = subst (λ l. no_rrs l ≡ false) same present;
          signed =
              subst (λ l. IsSigned typ key owner at l r.answer) same
                (some_signature-IsSigned typ key owner at got r.answer (not-false _ signed));
        }
