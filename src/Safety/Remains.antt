-- ===== src/Safety/Remains.antt =====
-- `deleteOld` of internal/controller/controller.go: the evidence of the keys that remain, part by part.
use dnssec_keyrotation.Base.{refl, Bool, true, false, not, List, [], ◌∷◌, if◌then◌else◌}
use dnssec_keyrotation.Model.{Key, Zone, Workflow}
use dnssec_keyrotation.Api
use dnssec_keyrotation.Api.{Controller, History}
use dnssec_keyrotation.Exec.{pure, observe, or_else, ◌>>◌}
use dnssec_keyrotation.Exec.Finds.{
  Finds, Finds-pure, Finds-bind, Finds-after, Finds-or_else, Finds-decide, Finds-present, Finds-if,
}
use dnssec_keyrotation.Inventory.Keys.{by_id}
use dnssec_keyrotation.Inventory.Passed.{not-false}
use dnssec_keyrotation.Inventory.Retirement.{retirement_inventory}
use dnssec_keyrotation.Controller.Moves.{block}
use dnssec_keyrotation.Controller.Retire.{split_retirement, split_zsk}
use dnssec_keyrotation.Controller.Signature.{is_live}
use dnssec_keyrotation.Safety.Guards.{Endures, On, On-lasting}
use dnssec_keyrotation.Safety.Conditions.{Lists, ParentServes, SplitRemains, Remains}
use dnssec_keyrotation.Safety.Calls.{lasting_rules}
use dnssec_keyrotation.Safety.Safe.{block-Finds}
use dnssec_keyrotation.Safety.Evidence.{Seen-endures, Both, Both-endures, observe-Finds}

module _ (c : Controller) (zone : Zone) (keys : List Key) (w : Workflow) where
  pub inventory-Finds :
      (b : Bool) (H : History → Type 0)
      → Finds
          (On H)
          (λ listed s. Lists c zone keys w b listed × H s.events)
          (if b
            then or_else
                (retirement_inventory c.dns zone.name keys w)
                (block c zone.name w.kind)
                pure
            else pure [])
  inventory-Finds true H =
      Finds-or_else _ (λ e _. block-Finds c _ _ _)
        (λ listed same. Finds-pure listed λ s h. (same, h))
  inventory-Finds false H = Finds-pure [] λ s h. (refl, h)

  module _ {H : History → Type 0} (endures : Endures H) (new : Key) where
    pub parent-Finds :
        (b : Bool)
        → Finds
            (On H)
            (λ _. On (Both H (ParentServes c zone keys w b new)))
            (if b
              then (do
                observe c (Api.dnskey_rrsig_by zone.name new)
                observe c (Api.ds_evidence zone.name (new ∷ []))
                observe c (Api.authoritative_ds_evidence zone.name (new ∷ []))
                pure tt)
              else pure tt)
    parent-Finds true =
        let one = Both-endures endures (Seen-endures (Api.dnskey_rrsig_by zone.name new)) in
        let two = Both-endures one (Seen-endures (Api.ds_evidence zone.name (new ∷ []))) in
        Finds-bind (observe-Finds c endures (Api.dnskey_rrsig_by zone.name new)) λ _.
          Finds-bind (observe-Finds c one (Api.ds_evidence zone.name (new ∷ []))) λ _.
            Finds-bind (observe-Finds c two (Api.authoritative_ds_evidence zone.name (new ∷ [])))
              λ _. Finds-pure tt λ s h. (h.0.0.0, (h.0.0.1, h.0.1, h.1))
    parent-Finds false = Finds-pure tt λ s h. (h, tt)

    split-Finds :
        Finds
          (On H)
          (λ shown. On (Both H (SplitRemains c zone keys w new shown)))
          (split_retirement c zone keys w new (by_id keys w.old_key_id))
    unfolding split_retirement split_zsk
    split-Finds = Finds-present (by_id keys w.new_zsk_id) (block-Finds c _ _ _) λ z found.
        Finds-decide (not (is_live z)) (λ _. block-Finds c _ _ _)
          (λ refused. Finds-bind (observe-Finds c endures (Api.rrsig_by zone.name z)) λ _.
            let lasting =
              On-lasting (Both-endures endures (Seen-endures (Api.rrsig_by zone.name z))) in
            Finds-after (search lasting_rules) λ remote.
              Finds-after (search lasting_rules) λ expected. Finds-if _ (block-Finds c _ _ _) (
                Finds-pure _ λ s h. (
                  h.0,
                  record {
                    new_zsk = z;
                    found = found;
                    live = not-false _ refused;
                    signs = h.1;
                    whole = refl;
                  },
                )))

    pub kind-Finds :
        (split zsk : Bool) (listed : List Key)
        → Finds
            (On H)
            (λ shown. On (Both H (Remains c zone keys w split zsk new listed shown)))
            (if split
              then split_retirement c zone keys w new (by_id keys w.old_key_id)
              else if zsk
              then (do observe c (Api.rrsig_by zone.name new); pure listed)
              else pure listed)
    kind-Finds true zsk listed = split-Finds
    kind-Finds false true listed =
        Finds-bind (observe-Finds c endures (Api.rrsig_by zone.name new))
          λ _. Finds-pure listed λ s h. (h.0, (h.1, refl))
    kind-Finds false false listed = Finds-pure listed λ s h. (h, refl)

    pub parent-endures : (b : Bool) → Endures (ParentServes c zone keys w b new)
    parent-endures true = record {
      stable = λ e past harmless h. (
        (Seen-endures _).stable e past harmless h.0,
        (Seen-endures _).stable e past harmless h.1,
        (Seen-endures _).stable e past harmless h.2,
      );
    }
    parent-endures false = record { stable = λ e past harmless h. tt }

    pub kind-endures :
        (split zsk : Bool) (listed shown : List Key)
        → Endures (Remains c zone keys w split zsk new listed shown)
    kind-endures true zsk listed shown = record {
      stable = λ e past harmless h. record {
        new_zsk = h.new_zsk;
        found = h.found;
        live = h.live;
        signs = (Seen-endures _).stable e past harmless h.signs;
        whole = h.whole;
      };
    }
    kind-endures false true listed shown = record {
      stable = λ e past harmless h. ((Seen-endures _).stable e past harmless h.0, h.1);
    }
    kind-endures false false listed shown = record { stable = λ e past harmless h. h }
