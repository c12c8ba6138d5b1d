-- ===== src/Dnsprobe/Denial/Denied.antt =====
-- `verifyNoDS` of internal/dnsprobe/probe.go: what has been shown when it passes.
use dnssec_keyrotation.Base.{String, Bool, true, false, ◌||◌, ◌≡◌, refl, List, nat_eq, string_eq}
use dnssec_keyrotation.Base.Text.{equal_fold}
use dnssec_keyrotation.Errors.{ok}
use dnssec_keyrotation.Model.{Time}
use dnssec_keyrotation.Exec.Finds.{
  Finds, Finds-bind, Finds-lift, Finds-checked, Finds-computed, Finds-in_context,
}
use dnssec_keyrotation.Dnsprobe.Message.{Message, PublicKey, type_ds, type_dnskey}
use dnssec_keyrotation.Dnsprobe.Network.{Net, Prober}
use dnssec_keyrotation.Dnsprobe.Checks.{has_type}
use dnssec_keyrotation.Dnsprobe.Checks.Sound.{Carries, not-false}
use dnssec_keyrotation.Dnsprobe.Denial.{parent_of, parent_keys, verify_no_ds}
use dnssec_keyrotation.Dnsprobe.Denial.Sound.{NoDs}
use dnssec_keyrotation.Dnsprobe.Denial.Proof.{verify_no_ds_proof-NoDs}
use dnssec_keyrotation.Dnsprobe.Log.Clock.{ClockRead, ClockRead-later, read-ClockRead}
use dnssec_keyrotation.Dnsprobe.Log.{IsLasting, Both, question, query-Finds}

either_fails : (b c : Bool) → (b || c) ≡ false → (b ≡ false) × (c ≡ false)
either_fails true c e = cc
either_fails false c e = (refl, e)

module _ (p : Prober) where
  -- The reply proves that the name has no DS: the keys of its parent, which the resolver has validated, sign
  -- the proof, at a reading of the clock after the resolver's answer.
  pub record Denied (response : Message) (name resolver : String) (require_aa : Bool) (net : Net)
      : Type 0 where
    pub authoritative : Carries require_aa response.authoritative
    pub absent : has_type response.answer type_ds ≡ false
    pub below : p.rr.is_sub_domain (parent_of p response) name ≡ true
    pub proper : equal_fold (parent_of p response) name ≡ false
    pub reply : Message
    pub validated : reply.authenticated ≡ true
    pub keys : List PublicKey
    pub parsed : parent_keys p (parent_of p response) reply.answer ≡ ok keys
    pub at : Time
    pub read : ClockRead p (question resolver (parent_of p response) type_dnskey true) reply at net
    pub proof : NoDs p response (parent_of p response) keys at name

  pub Denied-lasting :
      (response : Message) (name resolver : String) (require_aa : Bool)
      → IsLasting (Denied response name resolver require_aa)
  Denied-lasting response name resolver require_aa = record {
    stable = λ e net h. record {
      authoritative = h.authoritative;
      absent = h.absent;
      below = h.below;
      proper = h.proper;
      reply = h.reply;
      validated = h.validated;
      keys = h.keys;
      parsed = h.parsed;
      at = h.at;
      read = ClockRead-later p e h.read;
      proof = h.proof;
    };
  }

  pub verify_no_ds-Denied :
      (response : Message) (name resolver : String) (require_aa : Bool) {H : Net → Type 0}
      → IsLasting H
      → Finds H
          (λ _. Both (Denied response name resolver require_aa) H)
          (verify_no_ds p response name resolver require_aa)
  unfolding verify_no_ds
  verify_no_ds-Denied response name resolver require_aa {H} lasting =
      let parent = parent_of p response in
      Finds-checked _ _ λ aa. Finds-checked _ _ λ absent. Finds-checked _ _ λ placed.
        Finds-bind (Finds-in_context _ _ (query-Finds p lasting resolver parent type_dnskey true))
          λ reply. Finds-checked _ _ λ validated. Finds-computed _ λ keys parsed.
            Finds-checked _ _ λ present.
              Finds-bind
                (read-ClockRead p lasting (question resolver parent type_dnskey true) reply)
                λ at. Finds-lift _ λ _ passed net h. (
                  let outer = either_fails _ _ placed in
                      let inner = either_fails _ _ outer.0 in
                      record {
                        authoritative = aa;
                        absent = absent;
                        below = not-false _ inner.1;
                        proper = outer.1;
                        reply = reply;
                        validated = not-false _ validated;
                        keys = keys;
                        parsed = parsed;
                        at = at;
                        read = h.0;
                        proof = verify_no_ds_proof-NoDs p response parent keys at name passed;
                      },
                  h.1,
                )
