-- ===== src/Safety/Retire.antt =====
-- `deleteOld` of internal/controller/controller.go: the old key goes only after fresh evidence of the keys that
-- remain.
use dnssec_keyrotation.Base.{◌≡◌, refl, true, not, ◌||◌, some, List}
use dnssec_keyrotation.Model.{Key, Zone, Workflow, is_split, is_ksk, is_zsk}
use dnssec_keyrotation.Api
use dnssec_keyrotation.Api.{Controller, History}
use dnssec_keyrotation.Exec.Keeps.{Keeps, Leads, Leads-bind, Leads-settled, Implies}
use dnssec_keyrotation.Exec.Finds.{Finds-in_context}
use dnssec_keyrotation.Exec.Leads.{
  Leads-found, Leads-present, Leads-decide, Leads-fact, Keeps-Leads, Leads-Keeps, Implies-same,
}
use dnssec_keyrotation.Inventory.Keys.{by_id}
use dnssec_keyrotation.Inventory.Passed.{not-false}
use dnssec_keyrotation.Controller.Retire.{
  run_delete_old, replacement, delete_with, delete_recorded, inventory, parent_evidence,
  kind_evidence, split_retirement, split_zsk,
}
use dnssec_keyrotation.Controller.Signature.{is_live}
use dnssec_keyrotation.Safety.Remains.{
  inventory-Finds, parent-Finds, kind-Finds, parent-endures, kind-endures,
}
use dnssec_keyrotation.Safety.Guards.{Endures, On, On-lasting}
use dnssec_keyrotation.Safety.Conditions.{Allowed, IsSafe, Seen, Lists, ParentServes, Remains}
use dnssec_keyrotation.Safety.Calls.{lasting_rules, complete-Lasting, block-Lasting}
use dnssec_keyrotation.Safety.Safe.{IsSafe-endures}
use dnssec_keyrotation.Safety.Evidence.{
  Seen-endures, Both, Both-endures, observe-Finds, delete_key-Leads,
}

module _ (c : Controller) (start : History) (zone : Zone) (keys : List Key) (w : Workflow) where
  abbrev Safe : History → Type 0
  Safe = IsSafe c zone keys w start

  safe : Endures Safe
  safe = IsSafe-endures c zone keys w start

  module _ (new : Key) (new_found : by_id keys w.new_key_id ≡ some new)
      (live : is_live new ≡ true) where
    -- All that is known before the deletion but the last observation.
    abbrev Parent : History → Type 0
    Parent = Both Safe (ParentServes c zone keys w (is_ksk w.kind || is_split w.kind) new)

    parent : Endures Parent
    parent = Both-endures safe (parent-endures c zone keys w safe new _)

    abbrev Kinds : List Key → List Key → History → Type 0
    Kinds listed shown =
        Both Parent (Remains c zone keys w (is_split w.kind) (is_zsk w.kind) new listed shown)

    kind : (listed shown : List Key) → Endures (Kinds listed shown)
    kind listed shown = Both-endures parent (kind-endures c zone keys w safe new _ _ listed shown)

    abbrev Ready : List Key → List Key → History → Type 0
    Ready listed shown = Both (Kinds listed shown) (Seen (Api.dnskey_evidence zone.name shown))

    recorded-Leads :
        (listed shown : List Key)
        → Lists c zone keys w (is_zsk w.kind || is_ksk w.kind) listed
        → Leads
            (On (Ready listed shown))
            (On Safe)
            (delete_recorded c zone keys w (by_id keys w.old_key_id))
    unfolding delete_recorded
    recorded-Leads listed shown whole =
        let lasting =
          On-lasting (
            Both-endures (kind listed shown)
              (Seen-endures (Api.dnskey_evidence zone.name shown))) in
        let implies : Implies (On (Ready listed shown)) (On Safe) = record {
          at = λ s h. h.0.0.0;
        } in
        Leads-present (by_id keys w.old_key_id)
          (Leads-settled implies (complete-Lasting lasting c w))
          λ old old_found.
            Leads-decide old.active (λ _. Leads-settled implies (block-Lasting lasting c _ _ _ _))
              λ inactive.
                Leads-bind
                  (delete_key-Leads c (Allowed c zone keys w) start zone.id old.id λ s h. (
                    (
                      refl,
                      record {
                        old = old;
                        old_found = old_found;
                        same = refl;
                        inactive = inactive;
                        new = new;
                        new_found = new_found;
                        live = live;
                        listed = listed;
                        listing = whole;
                        parent_serves = h.0.0.1;
                        shown = shown;
                        remains = h.0.1;
                        visible = h.1;
                      },
                    ),
                    h.0.0.0,
                  ))
                  λ _. complete-Lasting (On-lasting safe) c w

    delete-IsSafe : Keeps (On Safe) (delete_with c zone keys w new (by_id keys w.old_key_id))
    unfolding delete_with inventory parent_evidence kind_evidence split_retirement split_zsk
    delete-IsSafe =
        let first = On-lasting safe in
        Keeps-Leads (
          Leads-found Implies-same (let lasting = first in search lasting_rules depth 30)
            (inventory-Finds c zone keys w (is_zsk w.kind || is_ksk w.kind) Safe)
            λ listed. Leads-fact λ whole.
              Leads-found Implies-same (let lasting = first in search lasting_rules depth 30)
                (parent-Finds c zone keys w safe new (is_ksk w.kind || is_split w.kind))
                λ _.
                  Leads-found (record { at = λ s h. h.0 })
                    (let lasting = On-lasting parent in search lasting_rules depth 30)
                    (kind-Finds c zone keys w parent new (is_split w.kind) (is_zsk w.kind) listed)
                    λ shown.
                      Leads-found (record { at = λ s h. h.0.0 })
                        (let lasting = On-lasting (kind listed shown) in
                          search lasting_rules depth 30)
                        (Finds-in_context _ _ (observe-Finds c (kind listed shown) _))
                        λ _. recorded-Leads listed shown whole)

  pub delete_old-IsSafe : Keeps (On Safe) (run_delete_old c zone keys w)
  unfolding run_delete_old replacement
  delete_old-IsSafe =
      let lasting = On-lasting safe in
      Keeps-Leads (
        Leads-present (by_id keys w.new_key_id) (Leads-Keeps (block-Lasting lasting c _ _ _ _))
          λ new found.
            Leads-decide (not (is_live new)) (λ _. Leads-Keeps (block-Lasting lasting c _ _ _ _))
              λ refused. Leads-Keeps (delete-IsSafe new found (not-false _ refused)))
