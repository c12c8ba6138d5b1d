-- ===== src/Safety/Submit.antt =====
-- `parentReplace` and `enrollParentAdd` of internal/controller/controller.go: where
-- the evidence is there, the intent goes to the disk and then the write to the registrar.
use dnssec_keyrotation.Base.{◌≡◌, refl, true, not, some, List, [], ◌∷◌, string_eq}
use dnssec_keyrotation.Errors.{ok}
use dnssec_keyrotation.Model.{
  Key, Zone, Workflow, DnssecData, State, Time, is_zero, get_workflow, workflow_key,
}
use dnssec_keyrotation.Api.{Controller, Event, History, Job, DomainDnssec}
use dnssec_keyrotation.Exec.{World, M, now, update_dnssec, ◌>>=◌, ◌>>◌}
use dnssec_keyrotation.Exec.Keeps.{
  Keeps, Keeps-pure, Leads, Leads-settled, Leads-bind, Leads-settled_bind, leads_rules, Implies,
}
use dnssec_keyrotation.Exec.Finds.{Finds, Finds-if, Finds-fail}
use dnssec_keyrotation.Exec.Leads.{Leads-found, Leads-decide}
use dnssec_keyrotation.Inventory.Keys.{by_id}
use dnssec_keyrotation.Store.{update}
use dnssec_keyrotation.Inventory.Roles.{dnssec_data_for_key}
use dnssec_keyrotation.Controller.Parent.{submit, check_remote, submit_once, attempt_state}
use dnssec_keyrotation.Controller.EnrollParent.{
  submit_enrollment, submit_enrollment_once, add_with, intent_state, is_parent_add,
}
use dnssec_keyrotation.Safety.Guards.{IsLasting, Endures, On, On-lasting, is_harmless}
use dnssec_keyrotation.Safety.Conditions.{
  When, Allowed, IsSafe, Records, Published, everywhere, at_servers,
}
use dnssec_keyrotation.Safety.Calls.{lasting_rules}
use dnssec_keyrotation.Safety.Safe.{IsSafe-endures, put-Finds}
use dnssec_keyrotation.Safety.Evidence.{
  Seen-endures, ReadAt-endures, Both, Both-endures, now-Finds, update-Finds, update_dnssec-Leads,
}

module _ (c : Controller) (start : History) (zone : Zone) (keys : List Key) (w : Workflow) where
  abbrev pub Safe : History → Type 0
  Safe = IsSafe c zone keys w start

  pub safe : Endures Safe
  safe = IsSafe-endures c zone keys w start

  published : (key : Key) → Endures (Published c zone keys w key)
  published key = record { stable = stable }
    where
      stable :
          (e : Event) (past : History)
          → is_harmless e.call ≡ true
          → Published c zone keys w key past
          → Published c zone keys w key (e ∷ past)
      stable e past harmless (everywhere shown signed) =
          everywhere ((Seen-endures _).stable e past harmless shown)
            ((Seen-endures _).stable e past harmless signed)
      stable e past harmless (at_servers unsigned shown signed) =
          at_servers unsigned ((Seen-endures _).stable e past harmless shown)
            ((Seen-endures _).stable e past harmless signed)

  -- The zone publishes its keys and signs with the key.
  abbrev pub Ready : Key → History → Type 0
  Ready key = Both Safe (Published c zone keys w key)

  pub ready : (key : Key) → Endures (Ready key)
  ready key = Both-endures safe (published key)

  pub Ready-IsSafe : (key : Key) → Implies (On (Ready key)) (On Safe)
  Ready-IsSafe key = record { at = λ s h. h.0 }

  module _ (key : Key) (material : DnssecData)
      (derives : dnssec_data_for_key c.dns zone.name key ≡ ok material)
      (chosen : When (not (is_parent_add w.phase)) (by_id keys w.new_key_id ≡ some key)) where
    -- The intent, then the write.
    write-Leads :
        {A : Type 0} {mutation : Time → State → M State} {rest : Job → M A}
        → is_zero w.registrar_attempted_at ≡ true
        → ((at : Time) (t : State) (P : World → Type 0) → IsLasting P → Keeps P (mutation at t))
        → ((at : Time) (t : State) (H : History → Type 0)
            → Finds
                (On H)
                (λ u s. Records w (λ x. x.registrar_attempted_at) at u × H s.events)
                (mutation at t))
        → ((job : Job) → Keeps (On Safe) (rest job))
        → Leads (On (Ready key)) (On Safe) (do
          at ← now c
          update c (mutation at)
          job ← update_dnssec c zone.name (material ∷ []) w.registrar_ctid
          rest job)
    write-Leads first km fm kr =
        let lasting = On-lasting (ready key) in
        Leads-found (Ready-IsSafe key) (search lasting_rules) (now-Finds c (ready key)) λ at.
          let read = Both-endures (ready key) (ReadAt-endures c at) in
          Leads-found (record { at = λ s h. h.0.0 })
            (let both = On-lasting read in
              let mutates = λ (t : State). km at t _ both in search (lasting_rules, mutates))
            (update-Finds c read (λ t. fm at t _))
            λ _.
              Leads-bind
                (update_dnssec-Leads c (Allowed c zone keys w) start zone.name (material ∷ [])
                  w.registrar_ctid
                  λ s h. (
                    (
                      refl,
                      refl,
                      record {
                        key = key;
                        chosen = chosen;
                        derived = material;
                        derives = derives;
                        sent = refl;
                        published = h.0.0.1;
                        intended = record { first = first; at = at; read = h.0.1; written = h.1 };
                      },
                    ),
                    h.0.0.0,
                  ))
                kr

    module _ (fresh : is_zero w.registrar_attempted_at ≡ true) where
      submit-Leads : Leads (On (Ready key)) (On Safe) (submit c zone keys w material)
      unfolding submit attempt_state
      submit-Leads =
          write-Leads fresh (λ at t P lasting. Keeps-pure _)
            (λ at t H.
              put-Finds w _ at t
                (record (get_workflow t (workflow_key w.zone w.kind)) {
                  registrar_attempted_at = at;
                })
                H refl)
            (λ job. let lasting = On-lasting safe in search lasting_rules depth 30)

      intent-Finds :
          (at : Time) (t : State) (H : History → Type 0)
          → Finds
              (On H)
              (λ u s. Records w (λ x. x.registrar_attempted_at) at u × H s.events)
              (intent_state c zone keys w at t)
      unfolding intent_state
      intent-Finds at t H =
          let current = get_workflow t (workflow_key w.zone w.kind) in
          let recorded =
            put-Finds w (λ x. x.registrar_attempted_at) at t
              (record current { registrar_attempted_at = at }) H refl in
          search (Finds-if, Finds-fail)

      enrollment-Leads : Leads (On (Ready key)) (On Safe) (submit_enrollment c zone keys w material)
      unfolding submit_enrollment intent_state
      enrollment-Leads =
          write-Leads fresh (λ at t P lasting. search lasting_rules depth 30) intent-Finds
            (λ job. let lasting = On-lasting safe in search lasting_rules depth 30)

    submit_once-Leads : Leads (On (Ready key)) (On Safe) (submit_once c zone keys w material)
    unfolding submit_once submit
    submit_once-Leads =
        let lasting = On-lasting (ready key) in
        let implies = Ready-IsSafe key in
        Leads-decide (is_zero w.registrar_attempted_at) (λ fresh. submit-Leads fresh)
          (λ _. search (lasting_rules, leads_rules) depth 30)

    enrollment_once-Leads :
        Leads (On (Ready key)) (On Safe) (submit_enrollment_once c zone keys w material)
    unfolding submit_enrollment_once submit_enrollment
    enrollment_once-Leads =
        let lasting = On-lasting (ready key) in
        let implies = Ready-IsSafe key in
        search (lasting_rules, Leads-settled_bind, Leads-settled, Leads-decide, enrollment-Leads)
          depth 30

    pub check_remote-Leads :
        (old : DnssecData) (remote : DomainDnssec)
        → Leads (On (Ready key)) (On Safe) (check_remote c zone keys w old material remote)
    unfolding check_remote
    check_remote-Leads old remote =
        let safe_lasting = On-lasting safe in
        let lasting = On-lasting (ready key) in
        let implies = Ready-IsSafe key in
        search (lasting_rules, leads_rules, submit_once-Leads) depth 30

    pub add_with-Leads : Leads (On (Ready key)) (On Safe) (add_with c zone keys w material)
    unfolding add_with
    add_with-Leads =
        let safe_lasting = On-lasting safe in
        let lasting = On-lasting (ready key) in
        let implies = Ready-IsSafe key in
        search (lasting_rules, leads_rules, enrollment_once-Leads) depth 30
