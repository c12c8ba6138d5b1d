-- ===== src/Safety/Once.antt =====
-- `parentReplace`, `enrollParentAdd` and `adoptOrCreate` of internal/controller/controller.go: a request whose
-- outcome is unknown is never sent again.
use dnssec_keyrotation.Base.{true, false, ◌≡◌, refl, List, [], ◌∷◌}
use dnssec_keyrotation.Model.{Key, Zone, Workflow, DnssecData, is_zero}
use dnssec_keyrotation.Api.{Controller, Call, History, DomainDnssec}
use dnssec_keyrotation.Exec.Keeps.{Keeps, Keeps-fail, Keeps-pure}
use dnssec_keyrotation.Controller.Candidates.{Wanted}
use dnssec_keyrotation.Controller.Prepublish.{adopt_or_create, choose, create, attempted_at}
use dnssec_keyrotation.Controller.Parent.{
  run_parent_replace, replace_recorded, check_remote, submit_once, old_signature,
}
use dnssec_keyrotation.Controller.EnrollParent.{
  run_enroll_parent_add, add_checked, add_with, submit_enrollment_once,
}
use dnssec_keyrotation.Safety.Guards.{IsLasting, On, On-lasting, Checked, is_mutation, is_harmless}
use dnssec_keyrotation.Safety.Calls.{lasting_rules}
use dnssec_keyrotation.Safety.Waits.{enrollment_evidence-Lasting}

-- No call of the history is a mutation.
abbrev pub IsQuiet : History → Type 0
IsQuiet = Checked (λ call past. is_mutation call ≡ false)

quiet_call : (call : Call) → is_harmless call ≡ true → is_mutation call ≡ false
quiet_call (Call.create_key id typ algorithm active) h = cc
quiet_call (Call.set_key id key active published) h = cc
quiet_call (Call.delete_key id key) h = cc
quiet_call (Call.update_dnssec zone keys ctid) h = cc
quiet_call _ h = refl

pub IsQuiet-lasting : IsLasting (On IsQuiet)
IsQuiet-lasting =
    On-lasting (record { stable = λ e past harmless h. (quiet_call e.call harmless, h) })

module _ (c : Controller) (zone : Zone) (keys : List Key) (w : Workflow)
    (tried : is_zero w.registrar_attempted_at ≡ false) where
  submit_once-IsQuiet :
      (material : DnssecData) → Keeps (On IsQuiet) (submit_once c zone keys w material)
  unfolding submit_once
  submit_once-IsQuiet material =
      let quiet = IsQuiet-lasting in rw (tried, submit_once) (search lasting_rules depth 20)

  check_remote-IsQuiet :
      (old new : DnssecData) (remote : DomainDnssec)
      → Keeps (On IsQuiet) (check_remote c zone keys w old new remote)
  unfolding check_remote
  check_remote-IsQuiet old new remote =
      let quiet = IsQuiet-lasting in search (lasting_rules, submit_once-IsQuiet) depth 20

  -- A parent replacement that has tried its registrar write makes no further mutation, whatever the
  -- registrar, the servers and the clock answer.
  pub parent_replace-Keeps : Keeps (On IsQuiet) (run_parent_replace c zone keys w)
  unfolding run_parent_replace replace_recorded old_signature
  parent_replace-Keeps =
      let quiet = IsQuiet-lasting in search (lasting_rules, check_remote-IsQuiet) depth 30

  enrollment_once-IsQuiet :
      (material : DnssecData) → Keeps (On IsQuiet) (submit_enrollment_once c zone keys w material)
  unfolding submit_enrollment_once
  enrollment_once-IsQuiet material =
      let quiet = IsQuiet-lasting in
      rw (tried, submit_enrollment_once) (search lasting_rules depth 20)

  add_with-IsQuiet : (material : DnssecData) → Keeps (On IsQuiet) (add_with c zone keys w material)
  unfolding add_with
  add_with-IsQuiet material =
      let quiet = IsQuiet-lasting in search (lasting_rules, enrollment_once-IsQuiet) depth 20

  pub enroll_parent_add-Keeps : Keeps (On IsQuiet) (run_enroll_parent_add c zone keys w)
  unfolding run_enroll_parent_add add_checked
  enroll_parent_add-Keeps =
      let quiet = IsQuiet-lasting in
      search (lasting_rules, add_with-IsQuiet, enrollment_evidence-Lasting) depth 30

module _ (c : Controller) (zone : Zone) (w : Workflow) (want : Wanted) where
  pub create-IsQuiet :
      is_zero (attempted_at w want.zsk_slot) ≡ false → Keeps (On IsQuiet) (create c zone w want)
  unfolding create
  create-IsQuiet tried = rw (tried, create) (Keeps-fail _)

  choose-IsQuiet :
      is_zero (attempted_at w want.zsk_slot) ≡ false
      → (found : List Key) → Keeps (On IsQuiet) (choose c zone w want found)
  unfolding choose
  choose-IsQuiet tried [] = create-IsQuiet tried
  choose-IsQuiet tried (k ∷ []) = Keeps-pure k
  choose-IsQuiet tried (k ∷ l ∷ rest) = Keeps-fail _

  pub adopt-Keeps :
      is_zero (attempted_at w want.zsk_slot) ≡ false
      → (keys : List Key) → Keeps (On IsQuiet) (adopt_or_create c zone w want keys)
  unfolding adopt_or_create
  adopt-Keeps tried keys = search (lasting_rules, choose-IsQuiet)
