-- ===== src/Model.antt =====
-- internal/model/model.go: the persisted state of the controller and the DNSSEC data it works on.
-- Times are nanoseconds since Go's zero time, so 0 is `time.Time{}`; durations are nanoseconds.
pub mod Times
pub mod Names
pub use Times.*
pub use Names.*
unfoldable pub use Names.{workflow_key, phase_text}
use dnssec_keyrotation.Base.{
  ℕ, String, Bool, false, Option, none, some, List, [], Assoc, lookup, insert,
}
use dnssec_keyrotation.Errors.{Error}

pub record Key : Type 0 where
  pub id : ℕ
  pub key_type : String
  pub active : Bool
  pub published : Bool
  pub dnskey : String
  pub ds : List String
  pub algorithm : String
  pub bits : ℕ

pub record Entry : Type 0 where
  pub content : String
  pub disabled : Bool

pub record RrSet : Type 0 where
  pub name : String
  pub type : String
  pub ttl : ℕ  -- uint32
  pub records : List Entry

pub record Zone : Type 0 where
  pub id : String
  pub name : String
  pub kind : String
  pub dnssec : Bool
  pub rrsets : List RrSet

pub record DnssecData : Type 0 where
  pub flags : ℕ  -- uint16
  pub protocol : ℕ  -- uint8
  pub algorithm : ℕ  -- uint8
  pub public_key : String

pub record Workflow : Type 0 where
  pub zone : String
  pub zone_id : String
  pub kind : Kind
  pub phase : Phase
  pub old_key_id : ℕ
  pub new_key_id : ℕ
  pub new_zsk_id : ℕ
  pub new_key_create_attempted_at : Time
  pub new_zsk_create_attempted_at : Time
  pub phase_started_at : Time
  pub next_action_at : Time
  pub last_completed_at : Time
  pub last_error : Option Error  -- `none` is the empty text
  pub attempts : ℕ
  pub manual : Bool
  pub idempotency_key : String
  pub dnskey_ttl : ℕ  -- int64, seconds
  pub zone_ttl : ℕ  -- int64, seconds
  pub parent_ds_ttl : ℕ  -- int64, seconds
  pub evidence_at : Time
  pub registrar_ctid : String
  pub registrar_stid : String
  pub registrar_job_id : ℕ
  pub registrar_job_status : String
  pub registrar_attempted_at : Time
  pub registrar_payload_hash : String
  pub parent_mode : String
  pub split_signer_transition_at : Time
  pub discovered_at : Time
  pub keyset_fingerprint : String
  pub enrollment_disposition : String

-- `model.Workflow{}`, which a read of a missing map entry gives.
abbrev pub zero_workflow : Workflow
zero_workflow = record {
  zone = "";
  zone_id = "";
  kind = other_kind "";
  phase = other_phase "";
  old_key_id = 0;
  new_key_id = 0;
  new_zsk_id = 0;
  new_key_create_attempted_at = 0;
  new_zsk_create_attempted_at = 0;
  phase_started_at = 0;
  next_action_at = 0;
  last_completed_at = 0;
  last_error = none;
  attempts = 0;
  manual = false;
  idempotency_key = "";
  dnskey_ttl = 0;
  zone_ttl = 0;
  parent_ds_ttl = 0;
  evidence_at = 0;
  registrar_ctid = "";
  registrar_stid = "";
  registrar_job_id = 0;
  registrar_job_status = "";
  registrar_attempted_at = 0;
  registrar_payload_hash = "";
  parent_mode = "";
  split_signer_transition_at = 0;
  discovered_at = 0;
  keyset_fingerprint = "";
  enrollment_disposition = "";
}

-- `Workflow.Active`
abbrev pub is_active : Workflow → Bool
is_active w = is_active_phase w.phase

pub record Notification : Type 0 where
  pub id : String
  pub event : String
  pub zone : String
  pub kind : Kind
  pub completed_at : Time
  pub old_key_id : ℕ
  pub new_key_id : ℕ
  pub new_zsk_id : ℕ
  pub registrar_stid : String
  pub attempts : ℕ
  pub next_attempt_at : Time
  pub last_error : Option Error
  pub delivered_at : Time

pub record State : Type 0 where
  pub version : ℕ
  pub enrollment_armed_at : Time
  pub workflows : Assoc Workflow
  pub idempotency : Assoc String
  pub notifications : Assoc Notification

abbrev pub or_zero : Option Workflow → Workflow
or_zero none = zero_workflow
or_zero (some w) = w

-- `s.Workflows[k]`, the zero value where the key is missing
unfoldable pub get_workflow : State → String → Workflow
get_workflow s k = or_zero (lookup k s.workflows)

-- `s.Workflows[k] = x`
abbrev pub put_workflow : State → String → Workflow → State
put_workflow s k x = record s { workflows = insert k x s.workflows }
