-- ===== src/Controller/Views.antt =====
-- What an operator may look at: `Plan`, `Zones` and `Status` of internal/controller/controller.go. A loop over
-- a Go map runs in the order of the association list.
use dnssec_keyrotation.Base.{
  ℕ, String, Bool, true, false, not, ◌&&◌, ◌||◌, Option, none, some, List, [], ◌∷◌, ◌++◌, map, keep,
  length, nat_eq, string_eq, ◌==◌, contains, sort_by, values, if◌then◌else◌,
}
use dnssec_keyrotation.Base.Text.{text_le}
use dnssec_keyrotation.Errors.{Error, new_error}
use dnssec_keyrotation.Config.{Mode}
use dnssec_keyrotation.Model
use dnssec_keyrotation.Model.{
  Kind, Phase, Key, Zone, State, Workflow, Notification, enroll, is_enroll, is_idle, is_blocked,
  is_active, get_workflow, workflow_key, kind_text,
}
use dnssec_keyrotation.Api.{Controller}
use dnssec_keyrotation.Exec.{M, pure, list_zones, list_keys, ◌>>=◌}
use dnssec_keyrotation.Store.{snapshot}
use dnssec_keyrotation.Inventory.Keys.{Scheme, unknown_scheme, key_scheme, is_csk_scheme}
use dnssec_keyrotation.Controller.Scope.{selected}

-- `Plan`
pub record Plan : Type 0 where
  pub kind : Kind
  pub zones : List String
  pub mutations : List String

-- the map of the planned mutations; a kind that is not in it has none
abbrev pub planned : Kind → List String
planned Model.zsk =
    "publish inactive ZSK" ∷ "observe and wait authoritative DNSKEY TTL" ∷ "activate new ZSK"
    ∷ "cryptographically prove new zone signatures" ∷ "deactivate old ZSK"
    ∷ "wait persisted pre-switch zone TTL" ∷ "delete old ZSK" ∷ []
planned Model.ksk =
    "publish active KSK and prove double DNSKEY signatures"
    ∷ "observe and wait authoritative DNSKEY TTL" ∷ "replace InternetX material with new-only KSK"
    ∷ "observe authoritative parent and wait full DS TTL"
    ∷ "verify exact new-only DS through validating resolvers" ∷ "deactivate and delete old KSK" ∷ []
planned Model.split =
    "publish active KSK and inactive ZSK" ∷ "prove and wait DNSKEY propagation"
    ∷ "replace parent material and wait DS TTL"
    ∷ "activate ZSK and prove overlapping CSK/ZSK signatures"
    ∷ "wait zone TTL, deactivate CSK, wait zone TTL again" ∷ "verify and delete CSK" ∷ []
planned kind = []

-- the method `Plan`
unfoldable pub plan : Kind → List String → Plan
plan kind zones = record { kind = kind; zones = zones; mutations = planned kind }

-- `ZoneStatus`
pub record ZoneStatus : Type 0 where
  pub zone : String
  pub dnssec : Bool
  pub scheme : Scheme
  pub managed : Bool
  pub enrollment_status : String
  pub blocked_reason : Option Error  -- `none` is the empty text
  pub workflows : List Workflow

-- the switch on the phase of an enrollment; `old` is the text so far
abbrev pub enrollment_text : Phase → String → String → String
enrollment_text Model.idle disposition old = if disposition == "" then "managed" else disposition
enrollment_text Model.enroll_discovered disposition old = "candidate"
enrollment_text Model.enroll_wait_publish disposition old = "waiting"
enrollment_text Model.enroll_parent_add disposition old = "registrar_pending"
enrollment_text Model.enroll_wait_parent disposition old = "parent_wait"
enrollment_text Model.blocked disposition old = "blocked"
enrollment_text phase disposition old = old

-- what one workflow of the zone adds to its status
unfoldable pub add_enrollment : Workflow → ZoneStatus → ZoneStatus
add_enrollment w zs =
    if is_enroll w.kind
    then record zs {
      managed = is_idle w.phase && not (w.enrollment_disposition == "ineligible");
      enrollment_status = enrollment_text w.phase w.enrollment_disposition zs.enrollment_status;
    }
    else zs

unfoldable pub add_blocked : Workflow → ZoneStatus → ZoneStatus
add_blocked w zs = if is_blocked w.phase then record zs { blocked_reason = w.last_error } else zs

unfoldable pub add_workflow : Workflow → ZoneStatus → ZoneStatus
unfolding add_enrollment add_blocked
add_workflow w zs =
    add_blocked w (add_enrollment w (record zs { workflows = zs.workflows ++ (w ∷ []) }))

-- the loop over the workflows
unfoldable pub add_workflows : String → List Workflow → ZoneStatus → ZoneStatus
unfolding add_workflow
add_workflows name [] zs = zs
add_workflows name (w ∷ ws) zs =
    add_workflows name ws (if w.zone == name then add_workflow w zs else zs)

abbrev pub by_kind : Workflow → Workflow → Bool
by_kind a b = text_le (kind_text a.kind) (kind_text b.kind)

-- the status of a zone with its keys
unfoldable pub zone_status : State → Zone → List Key → ZoneStatus
unfolding add_workflows key_scheme sort_by
zone_status s z keys =
    let scheme = key_scheme keys in
    let zs : ZoneStatus = record {
      zone = z.name;
      dnssec = true;
      scheme = scheme;
      managed = false;
      enrollment_status = "disarmed";
      blocked_reason =
          if is_csk_scheme scheme
          then some (new_error "explicit confirmed CSK-to-split migration required")
          else none;
      workflows = [];
    } in
    let full = add_workflows z.name (values s.workflows) zs in
    record full { workflows = sort_by by_kind full.workflows }

-- the status of an enrollment whose zone is not shown
abbrev pub missing_status : Workflow → ZoneStatus
missing_status w = record {
  zone = w.zone;
  dnssec = false;
  scheme = unknown_scheme;
  managed = false;
  enrollment_status = if not (is_blocked w.phase) then "candidate" else "blocked";
  blocked_reason = w.last_error;
  workflows = w ∷ [];
}

-- The loop passes over the workflow, or its zone has been shown.
abbrev pub is_passed_over : List String → Workflow → Bool
is_passed_over seen w = not (is_enroll w.kind) || not (is_active w) || contains seen w.zone

-- the loop over the enrollments of the zones that are not shown
unfoldable pub missing_zones : List String → List Workflow → List ZoneStatus
unfolding contains
missing_zones seen [] = []
missing_zones seen (w ∷ ws) =
    let rest = missing_zones seen ws in
    if is_passed_over seen w then rest else missing_status w ∷ rest

abbrev pub by_zone : ZoneStatus → ZoneStatus → Bool
by_zone a b = text_le a.zone b.zone

module _ (c : Controller) where
  -- A zone that is neither managed nor an enrollment that has to be seen.
  unfoldable pub is_hidden : State → Zone → Bool
  unfolding selected get_workflow workflow_key
  is_hidden s z =
      let enrollment = get_workflow s (workflow_key z.name enroll) in
      (not z.dnssec || not (selected c.cfg z.name))
      && not (is_active enrollment || is_blocked enrollment.phase)

  -- the loop over the zones
  unfoldable pub zone_statuses : State → List Zone → M (List ZoneStatus)
  unfolding is_hidden zone_status
  zone_statuses s [] = pure []
  zone_statuses s (z ∷ zones) =
      let later = zone_statuses s zones in
      if is_hidden s z
      then later
      else (do keys ← list_keys c z.id; rest ← later; pure (zone_status s z keys ∷ rest))

  -- the method `Zones`
  unfoldable pub show_zones : M (List ZoneStatus)
  unfolding zone_statuses missing_zones sort_by snapshot
  show_zones = do
    listed ← list_zones c
    s ← snapshot
    shown ← zone_statuses s listed
    pure (sort_by by_zone (shown ++ missing_zones (map (λ zs. zs.zone) shown) (values s.workflows)))

-- `Status`
pub record Status : Type 0 where
  pub mode : Mode
  pub ready : Bool
  pub zones : ℕ
  pub blocked : ℕ
  pub enrollment_armed : Bool
  pub enrolling : ℕ
  pub managed : ℕ
  pub pending_notifications : ℕ

abbrev pub is_some : Option Error → Bool
is_some none = false
is_some (some e) = true

abbrev pub counts_as_enrolling : Workflow → Bool
counts_as_enrolling w = is_enroll w.kind && is_active w

abbrev pub counts_as_managed : Workflow → Bool
counts_as_managed w =
    is_enroll w.kind && not (is_active w) && not (w.enrollment_disposition == "ineligible")

module _ (c : Controller) where
  -- the method `Status`
  unfoldable pub show_status : M Status
  unfolding show_zones keep snapshot
  show_status = do
    zones ← show_zones c
    s ← snapshot
    pure (record {
      mode = c.cfg.mode;
      ready = true;
      zones = length zones;
      blocked = length (keep (λ zs. is_some zs.blocked_reason) zones);
      enrollment_armed = not (s.enrollment_armed_at == 0);
      enrolling = length (keep counts_as_enrolling (values s.workflows));
      managed = length (keep counts_as_managed (values s.workflows));
      pending_notifications =
          length (keep (λ event. event.delivered_at == 0) (values s.notifications));
    })
