-- ===== src/Control/Refusals.antt =====
-- internal/control/server.go: the requests without a confirmation.
use dnssec_keyrotation.Base.{
  ℕ, String, Bool, true, false, not, ◌||◌, ◌≡◌, refl, List, [], ◌∷◌, nat_eq, string_eq, ◌==◌, ltb,
  length, if◌then◌else◌,
}
use dnssec_keyrotation.Base.Text.{trim_space}
use dnssec_keyrotation.Errors.{Error, Result, ok, err}
use dnssec_keyrotation.Model.{Zone, State, is_split}
use dnssec_keyrotation.Api.{Controller}
use dnssec_keyrotation.Exec.{World, M, pure, or_else, domain_dnssec}
use dnssec_keyrotation.Exec.Keeps.{Keeps, keeps_rules, Keeps-pure}
use dnssec_keyrotation.Controller.Resume.{is_wait_publish}
use dnssec_keyrotation.Controller.Views.{show_zones, zone_statuses, show_status}
use dnssec_keyrotation.Controller.Audit.{audit, audit_zones, audit_zone, audit_keys}
use dnssec_keyrotation.Safety.Observe.{
  ReadOnly, perform-ReadOnly, list_zones-ReadOnly, list_keys-ReadOnly, snapshot-ReadOnly,
}
use dnssec_keyrotation.Control.Server.{
  Response, write_error, unconfirmed, error_body, Json, Request, Body, RotationRequest,
  ResumeRequest, SplitSignerTransitionRequest, ArmEnrollmentRequest, decode, body_limit,
  small_body_limit, answer_view, handle_trigger, handle_resume, handle_reconcile, handle_arm,
  handle_plan, handle, Route, get_health, get_ready, get_status, get_zones, get_audit, post_plan,
  post_trigger, post_resume, post_reconcile, post_arm,
}

-- The views of the controller.
module _ (c : Controller) (t : State) where
  domain_dnssec-ReadOnly : (zone : String) → Keeps (ReadOnly t) (domain_dnssec c zone)
  unfolding domain_dnssec
  domain_dnssec-ReadOnly zone = perform-ReadOnly c t _ _ refl

  zone_statuses-ReadOnly :
      (s : State) (zones : List Zone) → Keeps (ReadOnly t) (zone_statuses c s zones)
  unfolding zone_statuses
  zone_statuses-ReadOnly s [] = Keeps-pure []
  zone_statuses-ReadOnly s (z ∷ zones) =
      let rest = zone_statuses-ReadOnly s zones in search (keeps_rules, list_keys-ReadOnly) depth 20

  pub show_zones-ReadOnly : Keeps (ReadOnly t) (show_zones c)
  unfolding show_zones
  show_zones-ReadOnly =
      search (keeps_rules, list_zones-ReadOnly, snapshot-ReadOnly, zone_statuses-ReadOnly) depth 20

  pub status-ReadOnly : Keeps (ReadOnly t) (show_status c)
  unfolding show_status
  status-ReadOnly = search (keeps_rules, snapshot-ReadOnly, show_zones-ReadOnly) depth 20

  audit_zone-ReadOnly : (z : Zone) → Keeps (ReadOnly t) (audit_zone c z)
  unfolding audit_zone audit_keys
  audit_zone-ReadOnly z = search (keeps_rules, list_keys-ReadOnly, domain_dnssec-ReadOnly) depth 30

  audit_zones-ReadOnly : (zones : List Zone) → Keeps (ReadOnly t) (audit_zones c zones)
  unfolding audit_zones
  audit_zones-ReadOnly [] = Keeps-pure []
  audit_zones-ReadOnly (z ∷ zones) =
      let rest = audit_zones-ReadOnly zones in search (keeps_rules, audit_zone-ReadOnly) depth 20

  pub audit-ReadOnly : Keeps (ReadOnly t) (audit c)
  unfolding audit
  audit-ReadOnly = search (keeps_rules, list_zones-ReadOnly, audit_zones-ReadOnly) depth 20

-- A request that carries the confirmation of its route.
pub data Confirmed (json : Json) : Route → Request → Type 0 where
  trigger_confirmed :
      (r : Request) (request : RotationRequest)
      → decode json r ≡ ok request
      → request.confirm ≡ true
      → Confirmed json post_trigger r
  resume_confirmed :
      (r : Request) (request : ResumeRequest)
      → json.resumption body_limit r.body ≡ ok request
      → request.confirm ≡ true
      → Confirmed json post_resume r
  reconcile_confirmed :
      (r : Request) (request : SplitSignerTransitionRequest)
      → json.reconciliation small_body_limit r.body ≡ ok request
      → request.confirm ≡ true
      → Confirmed json post_reconcile r
  arm_confirmed :
      (r : Request) (request : ArmEnrollmentRequest)
      → json.arming small_body_limit r.body ≡ ok request
      → request.confirm ≡ true
      → Confirmed json post_arm r

-- The action answers with the status 400, and does nothing else.
pub record Refuses (m : M Response) : Type 0 where
  pub at : (w : World) → (response : Response) × (m w ≡ (ok response, w)) × (response.code ≡ 400)

Refuses-error : (e : Error) → Refuses (write_error 400 e)
unfolding pure
Refuses-error e = record { at = λ w. (record { code = 400; body = error_body e }, refl, refl) }

Refuses-if : (b : Bool) {m n : M Response} → Refuses m → Refuses n → Refuses (if b then m else n)
Refuses-if true rm rn = rm
Refuses-if false rm rn = rn

Refuses-unless :
    (confirm : Bool) (n : M Response)
    → ¬ (confirm ≡ true)
    → Refuses (if not confirm then write_error 400 unconfirmed else n)
Refuses-unless true n never = elim (never refl) [ ]
Refuses-unless false n never = Refuses-error _

module _ {A : Type 0} where
  Refuses-decoded :
      (o : Result A) {rest : A → M Response}
      → ((a : A) → o ≡ ok a → Refuses (rest a))
      → Refuses (or_else o (write_error 400) rest)
  unfolding or_else
  Refuses-decoded (ok a) rr = rr a refl
  Refuses-decoded (err e) rr = Refuses-error e

-- The routes of the commands.
abbrev pub is_command : Route → Bool
is_command post_trigger = true
is_command post_resume = true
is_command post_reconcile = true
is_command post_arm = true
is_command route = false

module _ (c : Controller) (json : Json) where
  command-Refuses :
      (route : Route) (r : Request)
      → is_command route ≡ true
      → ¬ Confirmed json route r
      → Refuses (handle c json route r)
  unfolding handle handle_trigger handle_resume handle_reconcile handle_arm
  command-Refuses post_trigger r command never = Refuses-decoded _ λ request e.
      Refuses-unless request.confirm _ (λ yes. never (trigger_confirmed r request e yes))
  command-Refuses post_resume r command never = Refuses-decoded _ λ request e.
      Refuses-if (not (is_split request.kind) || not (is_wait_publish request.phase))
        (Refuses-error _)
        (Refuses-if (length request.zones == 0 || ltb 100 (length request.zones)) (Refuses-error _)
          (Refuses-unless request.confirm _ λ yes. never (resume_confirmed r request e yes)))
  command-Refuses post_reconcile r command never = Refuses-decoded _ λ request e.
      Refuses-if (trim_space request.zone == "") (Refuses-error _)
        (Refuses-unless request.confirm _ λ yes. never (reconcile_confirmed r request e yes))
  command-Refuses post_arm r command never =
      Refuses-decoded _
        λ request e. Refuses-unless request.confirm _ (λ yes. never (arm_confirmed r request e yes))
  command-Refuses get_health r command never = cc
  command-Refuses get_ready r command never = cc
  command-Refuses get_status r command never = cc
  command-Refuses get_zones r command never = cc
  command-Refuses get_audit r command never = cc
  command-Refuses post_plan r command never = cc

-- A request to the route of a command that does not decode to one with a confirmation is answered with the
-- status 400, without a call and without a change of the state or the disk.
pub unconfirmed-Refused :
    (c : Controller) (json : Json) (route : Route) (r : Request) (w : World)
    → is_command route ≡ true
    → ¬ Confirmed json route r
    → (response : Response) × (handle c json route r w ≡ (ok response, w)) × (response.code ≡ 400)
unconfirmed-Refused c json route r w command never =
    (command-Refuses c json route r command never).at w

module _ (c : Controller) (json : Json) (t : State) where
  answer_view-ReadOnly :
      {A : Type 0} (failure : ℕ) (shape : A → Body) {view : M A}
      → Keeps (ReadOnly t) view
      → Keeps (ReadOnly t) (answer_view failure shape view)
  unfolding answer_view
  answer_view-ReadOnly failure shape kv = search keeps_rules depth 10

  refused-ReadOnly : {m : M Response} → Refuses m → Keeps (ReadOnly t) m
  refused-ReadOnly refuses = record {
    at = λ w h. let (response, unchanged, code) = refuses.at w in rw unchanged h;
  }

  handle-ReadOnly :
      (route : Route) (r : Request)
      → ¬ Confirmed json route r
      → Keeps (ReadOnly t) (handle c json route r)
  unfolding handle handle_plan
  handle-ReadOnly get_health r never = Keeps-pure _
  handle-ReadOnly get_ready r never = answer_view-ReadOnly _ _ (status-ReadOnly c t)
  handle-ReadOnly get_status r never = answer_view-ReadOnly _ _ (status-ReadOnly c t)
  handle-ReadOnly get_zones r never = answer_view-ReadOnly _ _ (show_zones-ReadOnly c t)
  handle-ReadOnly get_audit r never = answer_view-ReadOnly _ _ (audit-ReadOnly c t)
  handle-ReadOnly post_plan r never = search keeps_rules depth 10
  handle-ReadOnly post_trigger r never =
      refused-ReadOnly (command-Refuses c json post_trigger r refl never)
  handle-ReadOnly post_resume r never =
      refused-ReadOnly (command-Refuses c json post_resume r refl never)
  handle-ReadOnly post_reconcile r never =
      refused-ReadOnly (command-Refuses c json post_reconcile r refl never)
  handle-ReadOnly post_arm r never = refused-ReadOnly (command-Refuses c json post_arm r refl never)

-- A request to any route that does not decode to one with a confirmation leaves the state alone and makes only
-- calls that read, if it is the first of the log.
pub unconfirmed-ReadOnly :
    (c : Controller) (json : Json) (route : Route) (r : Request) (w : World)
    → ¬ Confirmed json route r
    → w.events ≡ []
    → ReadOnly w.state (handle c json route r w).1
unconfirmed-ReadOnly c json route r w never fresh =
    (handle-ReadOnly c json w.state route r never).at w (refl, rw fresh tt)
