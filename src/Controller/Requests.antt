-- ===== src/Controller/Requests.antt =====
-- What the control requests of internal/controller/controller.go share: the guards, the names of zones,
-- the idempotency keys.
use dnssec_keyrotation.Base.{
  String, Bool, not, ◌||◌, Option, none, some, List, [], ◌∷◌, map, insert, Assoc, string_eq, nat_eq,
  ◌==◌, ltb, if◌then◌else◌,
}
use dnssec_keyrotation.Base.Text.{byte_length, trim_space, trim_dot, to_lower, sort, compact}
use dnssec_keyrotation.Errors.{Error, Result, reject_if, new_error}
use dnssec_keyrotation.Config.{is_enforce}
use dnssec_keyrotation.Model.{Zone, Workflow, State}
use dnssec_keyrotation.Api.{Controller}
use dnssec_keyrotation.Exec.{M, pure, fail}

-- `if c.cfg.Mode != "enforce"`
abbrev pub check_mode : Controller → Result (Unit {0})
check_mode c = reject_if (not (is_enforce c.cfg.mode)) (new_error "controller is in observe mode")

-- `if len(idem) < 16 || len(idem) > 128`
unfoldable pub check_idempotency_key : String → Result (Unit {0})
unfolding byte_length
check_idempotency_key idem =
    reject_if (ltb (byte_length idem) 16 || ltb 128 (byte_length idem))
      (new_error "idempotency key must be between 16 and 128 characters")

unfoldable pub request_name : String → String
unfolding trim_dot to_lower trim_space
request_name zone = trim_dot (to_lower (trim_space zone))

-- the names of a request, in order and without repetition
unfoldable pub request_names : List String → List String
unfolding request_name sort compact
request_names zones = compact (sort (map request_name zones))

module _ {A : Type 0} where
  -- `if existing, ok := s.Idempotency[idem]; ok { … }`: a key that was used for the same request ends this
  -- one with success, a key that was used for another with an error.
  unfoldable pub unless_used : Option String → String → A → Error → M A → M A
  unless_used none fingerprint done conflict rest = rest
  unless_used (some existing) fingerprint done conflict rest =
      if existing == fingerprint then pure done else fail conflict

abbrev pub reused_key : Error
reused_key = new_error "idempotency key already used for a different request"

abbrev pub key_conflict : Error
key_conflict = new_error "idempotency key conflict"

-- `s.Idempotency[idem] = fingerprint`
abbrev pub record_request : String → String → State → State
record_request idem fingerprint s = record s { idempotency = insert idem fingerprint s.idempotency }

-- the loop that fills `byName`: each zone under its name, and under the name without the final dot
unfoldable pub zone_table : (String → String) → Assoc Zone → List Zone → Assoc Zone
unfolding insert trim_dot
zone_table form table [] = table
zone_table form table (z ∷ zones) =
    zone_table form (insert (trim_dot (form z.name)) z (insert (form z.name) z table)) zones

-- Three distinct key IDs are recorded.
abbrev pub has_distinct_keys : Workflow → Bool
has_distinct_keys w = not (
    (w.old_key_id == w.new_key_id)
    || (w.old_key_id == w.new_zsk_id)
    || (w.new_key_id == w.new_zsk_id))
