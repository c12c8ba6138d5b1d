-- ===== src/Safety/Parent.antt =====
-- `parentReplace` and `enrollParentAdd` of internal/controller/controller.go: a registrar write wants
-- fresh evidence of publication and signatures, and its intent on disk.
use dnssec_keyrotation.Base.{
  ◌==◌, string_eq, ◌≡◌, refl, Bool, true, false, not, ◌||◌, List, if◌then◌else◌, string_eq,
}
use dnssec_keyrotation.Errors.{ok}
use dnssec_keyrotation.Model.{Key, Zone, Workflow}
use dnssec_keyrotation.Api
use dnssec_keyrotation.Api.{Controller, Event, History, Job, DomainDnssec}
use dnssec_keyrotation.Exec.{World, M, in_context, observe, ◌>>◌}
use dnssec_keyrotation.Exec.Keeps.{
  Keeps-if, Keeps, Keeps-pure, Keeps-in_context, Keeps-decide, Leads-or_else, Keeps-or_else, Leads,
  Leads-after, Leads-settled,
}
use dnssec_keyrotation.Exec.Finds.{Finds, Finds-bind, Finds-pure, Finds-in_context, Finds-after}
use dnssec_keyrotation.Exec.Leads.{
  Leads-Keeps, Leads-found, Leads-computed, Keeps-Leads, Implies-same,
}
use dnssec_keyrotation.Inventory.Keys.{recorded_keys, published_keys}
use dnssec_keyrotation.Inventory.Passed.{recorded-Ensures, not-false}
use dnssec_keyrotation.Controller.Evidence.{
  is_initial_split, validate_enrollment_evidence, dnskey_probe, dnskey_signature_probe,
}
use dnssec_keyrotation.Controller.Parent.{run_parent_replace, old_signature, replace_recorded}
use dnssec_keyrotation.Controller.EnrollParent.{run_enroll_parent_add, add_checked, is_parent_add}
use dnssec_keyrotation.Safety.Submit.{
  Ready, ready, Ready-IsSafe, check_remote-Leads, add_with-Leads,
}
use dnssec_keyrotation.Safety.Guards.{IsLasting, Endures, On, On-lasting}
use dnssec_keyrotation.Safety.Conditions.{When, IsSafe, Seen, Published, everywhere, at_servers}
use dnssec_keyrotation.Safety.Calls.{lasting_rules, block-Lasting}
use dnssec_keyrotation.Safety.Waits.{enrollment_evidence-Lasting}
use dnssec_keyrotation.Safety.Safe.{IsSafe-endures}
use dnssec_keyrotation.Safety.Evidence.{Seen-endures, Both-endures, observe-Finds}

when : (b : Bool) (A : Type 0) → A → When b A
when true A a = a
when false A a = tt

when_no : (b : Bool) (A : Type 0) → b ≡ true → When (not b) A
when_no true A e = tt
when_no false A e = cc

or_true : (b : Bool) → (b || true) ≡ true
or_true true = refl
or_true false = refl

module _ (c : Controller) (start : History) (zone : Zone) (keys : List Key) (w : Workflow) where
  abbrev Safe : History → Type 0
  Safe = IsSafe c zone keys w start

  safe : Endures Safe
  safe = IsSafe-endures c zone keys w start

  old_signature-Lasting :
      {P : World → Type 0} → IsLasting P → (old : Key) → Keeps P (old_signature c zone keys w old)
  unfolding old_signature
  old_signature-Lasting lasting old = search lasting_rules depth 30

  module _ (new : Key) where
    to_published :
        {past : History} (initial : Bool)
        → is_initial_split w ≡ initial
        → Seen
            (if initial
              then Api.authoritative_dnskey_evidence zone.name (published_keys keys)
              else Api.dnskey_evidence zone.name (published_keys keys))
            past
        → Seen
            (if initial
              then Api.authoritative_dnskey_rrsig_by zone.name new
              else Api.dnskey_rrsig_by zone.name new)
            past
        → Published c zone keys w new past
    to_published true unsigned shown signed = at_servers (rw unsigned refl) shown signed
    to_published false unsigned shown signed = everywhere shown signed

    -- The two observations of a replacement.
    replaced-Leads :
        {A : Type 0} {rest : M A}
        → Leads (On (Ready c start zone keys w new)) (On Safe) rest
        → Leads (On Safe) (On Safe) (do
          in_context "exact DNSKEY evidence missing immediately before parent write"
              (observe c (dnskey_probe w zone.name (published_keys keys)))
          in_context "new KSK signature missing"
              (observe c (dnskey_signature_probe w zone.name new))
          rest)
    replaced-Leads lr =
        let shown =
          Both-endures safe (Seen-endures (dnskey_probe w zone.name (published_keys keys))) in
        Leads-found Implies-same (let lasting = On-lasting safe in search lasting_rules depth 30)
          (Finds-in_context _ _ (observe-Finds c safe _))
          λ _.
            Leads-found (record { at = λ s h. h.0 })
              (let lasting = On-lasting shown in search lasting_rules depth 30)
              (Finds-in_context _ _ (observe-Finds c shown _))
              λ _. record {
                at = λ s h. lr.at s (h.0.0, to_published (is_initial_split w) refl h.0.1 h.1);
              }

    evidence-Finds :
        (zsk : Key)
        → is_parent_add w.phase ≡ true
        → Finds
            (On Safe)
            (λ _. On (Ready c start zone keys w new))
            (validate_enrollment_evidence c zone.name keys new zsk false)
    unfolding validate_enrollment_evidence
    evidence-Finds zsk adds =
        let lasting = On-lasting safe in
        let shown =
          Both-endures safe
            (Seen-endures (Api.authoritative_dnskey_evidence zone.name (published_keys keys))) in
        Finds-after (search lasting_rules depth 30) λ _. Finds-bind (observe-Finds c safe _) λ _.
          Finds-bind (observe-Finds c shown (Api.authoritative_dnskey_rrsig_by zone.name new)) λ _.
            let ended = On-lasting (
              Both-endures shown
                (Seen-endures (Api.authoritative_dnskey_rrsig_by zone.name new))) in
            Finds-after (search lasting_rules depth 30) λ _.
              Finds-pure tt
                λ s h. (h.0.0, at_servers (rw (adds, or_true (is_initial_split w)) refl) h.0.1 h.1)

  recorded-IsSafe :
      (found : Key × Key)
      → recorded_keys keys w.old_key_id w.new_key_id ≡ ok found
      → Keeps (On Safe) (replace_recorded c zone keys w found)
  unfolding replace_recorded
  recorded-IsSafe found recorded =
      let ids = (recorded-Ensures keys w.old_key_id w.new_key_id).at found recorded in
      let chosen = when (not (is_parent_add w.phase)) _ ids.1 in
      let implies = Ready-IsSafe c start zone keys w found.1 in
      let lasting = On-lasting (ready c start zone keys w found.1) in
      Keeps-or_else _ (λ e. block-Lasting (On-lasting safe) c _ _ _ e)
        λ _. Keeps-Leads (
          replaced-Leads found.1 (
            Leads-after (old_signature-Lasting lasting found.0) implies.at λ _.
              Leads-computed _ implies λ old _. Leads-computed _ implies λ new same.
                Leads-after (search lasting_rules) implies.at λ remote.
                  check_remote-Leads c start zone keys w found.1 new same chosen old remote))

  add_checked-IsSafe :
      (ksk zsk : Key)
      → is_parent_add w.phase ≡ true
      → Keeps (On Safe) (add_checked c zone keys w ksk zsk)
  unfolding add_checked
  add_checked-IsSafe ksk zsk adds =
      let implies = Ready-IsSafe c start zone keys w ksk in
      let lasting = On-lasting (ready c start zone keys w ksk) in
      Keeps-Leads (
        Leads-found Implies-same
          (Keeps-in_context _ _
            (enrollment_evidence-Lasting (On-lasting safe) c zone keys w ksk zsk false))
          (Finds-in_context _ _ (evidence-Finds ksk zsk adds))
          λ _. Leads-after (search lasting_rules) implies.at λ absence.
            Leads-or_else absence (λ e. Leads-settled implies (block-Lasting lasting c _ _ _ _))
              λ _. Leads-computed _ implies λ new same.
                add_with-Leads c start zone keys w ksk new same
                  (when_no (is_parent_add w.phase) _ adds))

  pub enroll_parent_add-IsSafe : Keeps (On Safe) (run_enroll_parent_add c zone keys w)
  unfolding run_enroll_parent_add add_checked
  enroll_parent_add-IsSafe =
      let lasting = On-lasting safe in
      Keeps-decide (not (is_parent_add w.phase)) (λ _. Keeps-pure tt)
        λ other. let adds = not-false _ other in search (lasting_rules, add_checked-IsSafe) depth 30

  pub parent_replace-IsSafe : Keeps (On Safe) (run_parent_replace c zone keys w)
  unfolding run_parent_replace
  parent_replace-IsSafe =
      let lasting = On-lasting safe in
      Keeps-if (w.registrar_ctid == "") (search lasting_rules depth 30) (
        Keeps-Leads
          (Leads-computed _ Implies-same λ found same. Leads-Keeps (recorded-IsSafe found same)))
