-- ===== src/Safety/Signer.antt =====
-- `activateNew` and `deactivateOld` of internal/controller/controller.go: a key is activated at any time and
-- deactivated only after fresh evidence of the keys that take over.
use dnssec_keyrotation.Base.{◌≡◌, refl, not, Bool, true, false, List, [], ◌∷◌, if◌then◌else◌}
use dnssec_keyrotation.Errors.{ok}
use dnssec_keyrotation.Model.{Key, Zone, Workflow, is_split, is_zsk}
use dnssec_keyrotation.Api
use dnssec_keyrotation.Api.{Controller, History}
use dnssec_keyrotation.Exec.{pure, observe, set_key, in_context, ◌>>◌}
use dnssec_keyrotation.Exec.Keeps.{Implies, leads_rules, Keeps, Leads}
use dnssec_keyrotation.Exec.Finds.{
  Finds, Finds-pure, Finds-bind, Finds-decide, Finds-in_context, Finds-present,
}
use dnssec_keyrotation.Exec.Leads.{
  Leads-found, Leads-decide, Leads-computed, Keeps-Leads, Leads-Keeps, Implies-same,
}
use dnssec_keyrotation.Inventory.Keys.{by_id, recorded_keys, published_keys}
use dnssec_keyrotation.Inventory.Passed.{recorded-Ensures, not-false}
use dnssec_keyrotation.Controller.Publish.{run_activate_new}
use dnssec_keyrotation.Controller.Signature.{
  run_deactivate_old, deactivate_checked, deactivate_recorded, replacement_evidence,
  replacement_zsk, check_ttl, is_live,
}
use dnssec_keyrotation.Safety.Guards.{Endures, On, On-lasting}
use dnssec_keyrotation.Safety.Conditions.{Allowed, IsSafe, Seen, When, Serves, ZskServes}
use dnssec_keyrotation.Safety.Calls.{lasting_rules, block-Lasting}
use dnssec_keyrotation.Safety.Waits.{signer_transition-Lasting}
use dnssec_keyrotation.Safety.Safe.{IsSafe-endures, block-Finds}
use dnssec_keyrotation.Safety.Evidence.{
  Seen-endures, When-endures, Both, Both-endures, observe-Finds, set_key-Leads,
}

module _ (c : Controller) (start : History) (zone : Zone) (keys : List Key) (w : Workflow) where
  abbrev Safe : History → Type 0
  Safe = IsSafe c zone keys w start

  safe : Endures Safe
  safe = IsSafe-endures c zone keys w start

  activate-IsSafe : (key : Key) → Keeps (On Safe) (set_key c zone.id key true true)
  activate-IsSafe key =
      Keeps-Leads
        (set_key-Leads c (Allowed c zone keys w) start zone.id key true true (λ s h. (refl, h)))

  pub activate_new-IsSafe : Keeps (On Safe) (run_activate_new c zone keys w)
  unfolding run_activate_new
  activate_new-IsSafe =
      let lasting = On-lasting safe in search (lasting_rules, activate-IsSafe) depth 30

  module _ {H : History → Type 0} (endures : Endures H) where
    replacement_evidence-Finds :
        (new : Key) (zsk : Bool)
        → Finds
            (On H)
            (λ _. On (Both H (Serves c zone keys w zsk new)))
            (if zsk
              then in_context "new ZSK signature missing before old-key deactivation"
                  (observe c (Api.rrsig_by zone.name new))
                >> pure tt
              else (do
                in_context "new KSK signature missing before old-key deactivation"
                    (observe c (Api.dnskey_rrsig_by zone.name new))
                in_context "parent DS evidence missing before old-key deactivation"
                    (observe c (Api.ds_evidence zone.name (new ∷ [])))
                pure tt))
    replacement_evidence-Finds new true =
        Finds-bind (Finds-in_context _ _ (observe-Finds c endures (Api.rrsig_by zone.name new)))
          λ _. Finds-pure tt λ s h. h
    replacement_evidence-Finds new false =
        let signed = Both-endures endures (Seen-endures (Api.dnskey_rrsig_by zone.name new)) in
        Finds-bind
          (Finds-in_context _ _ (observe-Finds c endures (Api.dnskey_rrsig_by zone.name new)))
          λ _.
            Finds-bind
              (Finds-in_context _ _ (observe-Finds c signed (Api.ds_evidence zone.name (new ∷ []))))
              λ _. Finds-pure tt λ s h. (h.0.0, (h.0.1, h.1))

    zsk-Finds :
        (split : Bool)
        → Finds
            (On H)
            (λ _. On (Both H (λ past. When split (ZskServes c zone keys w past))))
            (if split then replacement_zsk c zone keys w else pure tt)
    unfolding replacement_zsk
    zsk-Finds true = Finds-present (by_id keys w.new_zsk_id) (block-Finds c _ _ _) λ z found.
        Finds-decide (is_live z)
          (λ live.
            Finds-bind (Finds-in_context _ _ (observe-Finds c endures (Api.rrsig_by zone.name z)))
              λ _.
                Finds-pure tt
                  λ s h. (h.0, record { new_zsk = z; found = found; live = live; signs = h.1 }))
          (λ _. block-Finds c _ _ _)
    zsk-Finds false = Finds-pure tt λ s h. (h, tt)

  serves : (zsk : Bool) (new : Key) → Endures (Serves c zone keys w zsk new)
  serves true new = Seen-endures (Api.rrsig_by zone.name new)
  serves false new = record {
    stable = λ e past harmless h.
        ((Seen-endures _).stable e past harmless h.0, (Seen-endures _).stable e past harmless h.1);
  }

  zsk_serves : Endures (λ past. When (is_split w.kind) (ZskServes c zone keys w past))
  zsk_serves = When-endures (is_split w.kind) {H = ZskServes c zone keys w} (record {
    stable = λ e past harmless h. record {
      new_zsk = h.new_zsk;
      found = h.found;
      live = h.live;
      signs = (Seen-endures _).stable e past harmless h.signs;
    };
  })

  module _ (old new : Key) (found : recorded_keys keys w.old_key_id w.new_key_id ≡ ok (old, new))
      (live : is_live new ≡ true) where
    abbrev Signed : History → Type 0
    Signed = Both Safe (Serves c zone keys w (is_zsk w.kind) new)

    signed : Endures Signed
    signed = Both-endures safe (serves _ new)

    abbrev Proven : History → Type 0
    Proven = Both Signed (λ past. When (is_split w.kind) (ZskServes c zone keys w past))

    proven : Endures Proven
    proven = Both-endures signed zsk_serves

    abbrev Ready : History → Type 0
    Ready = Both Proven (Seen (Api.dnskey_evidence zone.name (published_keys keys)))

    deactivate-Leads : Leads (On Ready) (On Safe) (set_key c zone.id old false true)
    deactivate-Leads =
        let ids = (recorded-Ensures keys w.old_key_id w.new_key_id).at (old, new) found in
        set_key-Leads c (Allowed c zone keys w) start zone.id old false true λ s h. (
          (
            refl,
            record {
              old_found = ids.0;
              new = new;
              new_found = ids.1;
              live = live;
              serves = h.0.0.1;
              zsk_serves = h.0.1;
              published = h.1;
            },
          ),
          h.0.0.0,
        )

    check_ttl-Leads : Leads (On Ready) (On Safe) (check_ttl c zone keys w old)
    unfolding check_ttl
    check_ttl-Leads =
        let ready = On-lasting (
          Both-endures proven
            (Seen-endures (Api.dnskey_evidence zone.name (published_keys keys)))) in
        let lasting = On-lasting safe in
        let implies : Implies (On Ready) (On Safe) = record { at = λ s h. h.0.0.0 } in
        search (lasting_rules, leads_rules, deactivate-Leads) depth 30

    served-IsSafe : Leads (On Signed) (On Safe) (do
      if is_split w.kind then replacement_zsk c zone keys w else pure tt
      in_context "replacement DNSKEY evidence missing before old-key deactivation"
          (observe c (Api.dnskey_evidence zone.name (published_keys keys)))
      check_ttl c zone keys w old)
    unfolding replacement_zsk
    served-IsSafe =
        Leads-found (record { at = λ s h. h.0 })
          (let lasting = On-lasting signed in search lasting_rules depth 30)
          (zsk-Finds signed (is_split w.kind))
          λ _.
            Leads-found (record { at = λ s h. h.0.0 })
              (let lasting = On-lasting proven in search lasting_rules depth 30)
              (Finds-in_context _ _ (observe-Finds c proven _)) λ _. check_ttl-Leads

  recorded-IsSafe :
      (old new : Key)
      → recorded_keys keys w.old_key_id w.new_key_id ≡ ok (old, new)
      → Leads (On Safe) (On Safe) (deactivate_recorded c zone keys w (old, new))
  unfolding deactivate_recorded replacement_evidence
  recorded-IsSafe old new found =
      let lasting = On-lasting safe in
      Leads-decide (not (is_live new)) (λ _. Leads-Keeps (block-Lasting lasting c _ _ _ _))
        λ refused.
          Leads-found Implies-same (search lasting_rules depth 30)
            (replacement_evidence-Finds safe new (is_zsk w.kind))
            λ _. served-IsSafe old new found (not-false _ refused)

  checked-IsSafe : Keeps (On Safe) (deactivate_checked c zone keys w)
  unfolding deactivate_checked
  checked-IsSafe =
      Keeps-Leads (Leads-computed _ Implies-same λ found same. recorded-IsSafe found.0 found.1 same)

  pub deactivate_old-IsSafe : Keeps (On Safe) (run_deactivate_old c zone keys w)
  unfolding run_deactivate_old
  deactivate_old-IsSafe =
      let lasting = On-lasting safe in
      search (lasting_rules, checked-IsSafe, signer_transition-Lasting) depth 30
