-- ===== src/Control/Server.antt =====
-- internal/control/server.go: the handlers of the control socket, and the request types of
-- internal/control/client.go. Headers that do not depend on the request are left out.
use dnssec_keyrotation.Base.{
  ◌⊎◌, inl, inr, [], ◌∷◌, ℕ, String, Bool, not, ◌&&◌, ◌||◌, List, nat_eq, string_eq, ◌==◌, ltb,
  length, if◌then◌else◌,
}
use dnssec_keyrotation.Base.Text.{trim_space}
use dnssec_keyrotation.Errors.{Error, Result, ok, new_error, reject_if, ◌>>=◌, ◌>>◌}
use dnssec_keyrotation.Model.{Kind, Phase, is_zsk, is_ksk, is_split}
use dnssec_keyrotation.Api.{Controller}
use dnssec_keyrotation.Exec
use dnssec_keyrotation.Exec.{M, pure, attempt, or_else}
use dnssec_keyrotation.Controller.Arm.{arm_enrollment}
use dnssec_keyrotation.Controller.Trigger.{trigger}
use dnssec_keyrotation.Controller.Resume.{resume, is_wait_publish}
use dnssec_keyrotation.Controller.Reconcile.{reconcile_split_signer_transition}
use dnssec_keyrotation.Controller.Views.{Plan, ZoneStatus, Status, plan, show_zones, show_status}
use dnssec_keyrotation.Controller.Audit.{AuditResult, audit}

-- `request`
pub record RotationRequest : Type 0 where
  pub kind : Kind
  pub zones : List String
  pub confirm : Bool

pub record ResumeRequest : Type 0 where
  pub kind : Kind
  pub zones : List String
  pub phase : Phase
  pub confirm : Bool

pub record SplitSignerTransitionRequest : Type 0 where
  pub zone : String
  pub confirm : Bool

pub record ArmEnrollmentRequest : Type 0 where
  pub confirm : Bool

-- The decoder of encoding/json without unknown fields, on the first bytes of a body: the limit comes first.
pub record Json : Type 0 where
  pub rotation : ℕ → String → Result RotationRequest
  pub resumption : ℕ → String → Result ResumeRequest
  pub reconciliation : ℕ → String → Result SplitSignerTransitionRequest
  pub arming : ℕ → String → Result ArmEnrollmentRequest

-- what a handler reads of `http.Request`
pub record Request : Type 0 where
  pub body : String
  pub idempotency_key : String  -- the header Idempotency-Key

pub data Body : Type 0 where
  error_body : Error → Body
  status_word : String → Body
  status_body : Status → Body
  zones_body : List ZoneStatus → Body
  audit_body : List AuditResult → Body
  plan_body : Plan → Body

pub record Response : Type 0 where
  pub code : ℕ
  pub body : Body

-- `writeError`
abbrev pub write_error : ℕ → Error → M Response
write_error code e = pure (record { code = code; body = error_body e })

abbrev pub write_json : ℕ → Body → M Response
write_json code body = pure (record { code = code; body = body })

abbrev pub unconfirmed : Error
unconfirmed = new_error "confirm must be true"

-- the answer to a command of the controller
unfoldable pub answer_command : String → M (Unit {0}) → M Response
answer_command word command =
    Exec.◌>>=◌ (attempt command)
      λ outcome. or_else outcome (write_error 409) (λ _. write_json 202 (status_word word))

-- the answer to a look at the state
unfoldable pub answer_view : {A : Type 0} → ℕ → (A → Body) → M A → M Response
answer_view failure shape view =
    Exec.◌>>=◌ (attempt view)
      λ outcome. or_else outcome (write_error failure) (λ a. write_json 200 (shape a))

-- the checks of `decode` on a decoded request
unfoldable pub check_request : RotationRequest → Result RotationRequest
check_request request = do
  reject_if (not (is_zsk request.kind) && not (is_ksk request.kind) && not (is_split request.kind))
      (new_error "kind must be zsk, ksk, or split")
  reject_if (length request.zones == 0) (new_error "at least one zone is required")
  reject_if (ltb 100 (length request.zones)) (new_error "at most 100 zones are accepted")
  ok request

abbrev pub body_limit : ℕ
body_limit = 65536

abbrev pub small_body_limit : ℕ
small_body_limit = 16384

module _ (json : Json) where
  -- `decode`
  unfoldable pub decode : Request → Result RotationRequest
  unfolding check_request
  decode r = do request ← json.rotation body_limit r.body; check_request request

module _ (c : Controller) (json : Json) where
  -- the handler `trigger`
  unfoldable pub handle_trigger : Request → M Response
  unfolding decode answer_command
  handle_trigger r = or_else (decode json r) (write_error 400) λ request.
      if not request.confirm
      then write_error 400 unconfirmed
      else answer_command "accepted"
          (trigger c request.kind request.zones (trim_space r.idempotency_key))

  -- the handler `resume`
  unfoldable pub handle_resume : Request → M Response
  unfolding answer_command
  handle_resume r = or_else (json.resumption body_limit r.body) (write_error 400) λ request.
      if not (is_split request.kind) || not (is_wait_publish request.phase)
      then write_error 400 (new_error "only split workflows may be resumed to wait_publish")
      else if length request.zones == 0 || ltb 100 (length request.zones)
      then write_error 400 (new_error "between one and 100 zones are required")
      else if not request.confirm
      then write_error 400 unconfirmed
      else answer_command "accepted"
          (resume c request.kind request.zones request.phase (trim_space r.idempotency_key))

  -- the handler `reconcileSplitSigner`
  unfoldable pub handle_reconcile : Request → M Response
  unfolding answer_command
  handle_reconcile r =
      or_else (json.reconciliation small_body_limit r.body) (write_error 400) λ request.
        if trim_space request.zone == ""
        then write_error 400 (new_error "one zone is required")
        else if not request.confirm
        then write_error 400 unconfirmed
        else answer_command "attested"
            (reconcile_split_signer_transition c request.zone (trim_space r.idempotency_key))

  -- the handler `armEnrollment`
  unfoldable pub handle_arm : Request → M Response
  unfolding answer_command
  handle_arm r = or_else (json.arming small_body_limit r.body) (write_error 400) λ request.
      if not request.confirm
      then write_error 400 unconfirmed
      else answer_command "armed" (arm_enrollment c (trim_space r.idempotency_key))

  -- the handler `plan`
  unfoldable pub handle_plan : Request → M Response
  unfolding decode plan
  handle_plan r =
      or_else (decode json r) (write_error 400)
        λ request. write_json 200 (plan_body (plan request.kind request.zones))

-- the handlers, one for each pattern of the multiplexer
pub data Route : Type 0 where
  get_health get_ready get_status get_zones get_audit : Route
  post_plan post_trigger post_resume post_reconcile post_arm : Route

-- the patterns
abbrev pub patterns : List (String × String × Route)
patterns =
    ("GET", "/healthz", get_health)
    ∷ ("GET", "/readyz", get_ready)
    ∷ ("GET", "/v1/status", get_status)
    ∷ ("GET", "/v1/zones", get_zones)
    ∷ ("GET", "/v1/audit", get_audit)
    ∷ ("POST", "/v1/rotations/plan", post_plan)
    ∷ ("POST", "/v1/rotations/trigger", post_trigger)
    ∷ ("POST", "/v1/rotations/resume", post_resume)
    ∷ ("POST", "/v1/rotations/reconcile-split-signer", post_reconcile)
    ∷ ("POST", "/v1/enrollment/arm", post_arm)
    ∷ []

-- A pattern with GET matches HEAD too.
abbrev pub allows : String → String → Bool
allows wanted method = wanted == method || (wanted == "GET" && method == "HEAD")

-- the multiplexer: the handler, or the status where there is none; `missing` is 404 until a path matches
unfoldable pub find_route : String → String → ℕ → List (String × String × Route) → ◌⊎◌ ℕ Route
find_route method path missing [] = inl missing
find_route method path missing ((wanted, name, route) ∷ rest) =
    let later = find_route method path (if name == path then 405 else missing) rest in
    if name == path && allows wanted method then inr route else later

module _ (c : Controller) (json : Json) where
  -- the handler of a route
  unfoldable pub handle : Route → Request → M Response
  unfolding handle_trigger handle_resume handle_reconcile handle_arm handle_plan answer_view
      show_status show_zones audit
  handle get_health r = write_json 200 (status_word "ok")
  handle get_ready r = answer_view 503 status_body (show_status c)
  handle get_status r = answer_view 502 status_body (show_status c)
  handle get_zones r = answer_view 502 zones_body (show_zones c)
  handle get_audit r = answer_view 502 audit_body (audit c)
  handle post_plan r = handle_plan c json r
  handle post_trigger r = handle_trigger c json r
  handle post_resume r = handle_resume c json r
  handle post_reconcile r = handle_reconcile c json r
  handle post_arm r = handle_arm c json r

  -- a request to the socket
  unfoldable pub serve : String → String → Request → M Response
  unfolding find_route handle
  serve method path r = elim (find_route method path 404 patterns) [
    | inl code ↦ write_error code (new_error "no handler")
    | inr route ↦ handle route r
  ]
