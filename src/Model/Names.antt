-- ===== src/Model/Names.antt =====
-- The workflow kinds and phases of internal/model/model.go. Both are Go strings: `other_kind` and
-- `other_phase` are the texts that are none of the constants, the empty text of a zero value included.
use dnssec_keyrotation.Base.{String, ◌<>◌, Bool, true, false, not, string_eq, ◌==◌}

pub data Kind : Type 0 where
  zsk ksk split enroll : Kind
  other_kind : String → Kind

-- `string(kind)`
abbrev pub kind_text : Kind → String
kind_text zsk = "zsk"
kind_text ksk = "ksk"
kind_text split = "split"
kind_text enroll = "enroll"
kind_text (other_kind s) = s

abbrev pub is_zsk : Kind → Bool
is_zsk zsk = true
is_zsk _ = false

abbrev pub is_ksk : Kind → Bool
is_ksk ksk = true
is_ksk _ = false

abbrev pub is_split : Kind → Bool
is_split split = true
is_split _ = false

abbrev pub is_enroll : Kind → Bool
is_enroll enroll = true
is_enroll _ = false

pub data Phase : Type 0 where
  idle prepublish wait_publish activate_new wait_new_signature deactivate_old : Phase
  parent_remove wait_parent_remove wait_retire delete_old : Phase
  enroll_discovered enroll_wait_publish enroll_parent_add enroll_wait_parent blocked : Phase
  other_phase : String → Phase

-- `string(phase)`
unfoldable pub phase_text : Phase → String
phase_text idle = "idle"
phase_text prepublish = "prepublish"
phase_text wait_publish = "wait_publish"
phase_text activate_new = "activate_new"
phase_text wait_new_signature = "wait_new_signature"
phase_text deactivate_old = "deactivate_old"
phase_text parent_remove = "parent_remove"
phase_text wait_parent_remove = "wait_parent_remove"
phase_text wait_retire = "wait_retire"
phase_text delete_old = "delete_old"
phase_text enroll_discovered = "enroll_discovered"
phase_text enroll_wait_publish = "enroll_wait_publish"
phase_text enroll_parent_add = "enroll_parent_add"
phase_text enroll_wait_parent = "enroll_wait_parent"
phase_text blocked = "blocked"
phase_text (other_phase s) = s

-- the test of `Workflow.Active`
abbrev pub is_active_phase : Phase → Bool
is_active_phase idle = false
is_active_phase (other_phase s) = not (s == "")
is_active_phase _ = true

abbrev pub is_idle : Phase → Bool
is_idle idle = true
is_idle _ = false

abbrev pub is_blocked : Phase → Bool
is_blocked blocked = true
is_blocked _ = false

-- `WorkflowKey`
unfoldable pub workflow_key : String → Kind → String
workflow_key zone kind = zone <> "|" <> kind_text kind
