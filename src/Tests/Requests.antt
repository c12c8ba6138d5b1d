-- ===== src/Tests/Requests.antt =====
-- The theorems on the control socket, applied to requests that arm the enrollment.
use dnssec_keyrotation.Base.Text.{trim_space}
use dnssec_keyrotation.Base.{lookup, ◌≡◌, refl, [], ◌==◌, string_eq}
use dnssec_keyrotation.Errors.{ok, err, new_error}
use dnssec_keyrotation.Config.{enforce}
use dnssec_keyrotation.Exec
use dnssec_keyrotation.Exec.{World, or_else, perform, lift, now}
use dnssec_keyrotation.Store.{update}
use dnssec_keyrotation.Controller.Requests.{unless_used, check_idempotency_key}
use dnssec_keyrotation.Controller.Arm.{arm_enrollment}
use dnssec_keyrotation.Control.Server.{
  Json, Request, Response, status_word, serve, handle, post_arm, get_audit,
}
use dnssec_keyrotation.Control.Refusals.{
  Confirmed, arm_confirmed, unconfirmed-Refused, unconfirmed-ReadOnly,
}
use dnssec_keyrotation.Control.Answers.{serve-Repeats}
use dnssec_keyrotation.Safety.Observe.{ReadOnly}
use dnssec_keyrotation.Tests.Demo.{controller, zsk_keys, no_state}

abbrev json : Json
json = record {
  rotation = λ limit body. err (new_error "unexpected EOF");
  resumption = λ limit body. err (new_error "unexpected EOF");
  reconciliation = λ limit body. err (new_error "unexpected EOF");
  arming = λ limit body. ok (record { confirm = body == "confirmed" });
}

abbrev confirmed : Request
confirmed = record { body = "confirmed"; idempotency_key = "0123456789abcdef" }

abbrev bare : Request
bare = record { body = ""; idempotency_key = "0123456789abcdef" }

abbrev initial : World
initial = record {
  state = record no_state { enrollment_armed_at = 0 };
  disk = no_state;
  events = [];
}

abbrev accepted : Response
accepted = record { code = 202; body = status_word "armed" }

arms : serve (controller enforce zsk_keys) json "POST" "/v1/enrollment/arm" confirmed initial ≡ (
  ok accepted,
  (serve (controller enforce zsk_keys) json "POST" "/v1/enrollment/arm" confirmed initial).1,
)
unfolding serve Exec.◌>>=◌ or_else arm_enrollment check_idempotency_key trim_space unless_used
    lookup Exec.list_zones now update
arms = refl

serve-Repeats_example :
    serve
      (controller enforce zsk_keys)
      json
      "POST"
      "/v1/enrollment/arm"
      confirmed
      (serve (controller enforce zsk_keys) json "POST" "/v1/enrollment/arm" confirmed initial).1
    ≡ (
      ok accepted,
      (serve (controller enforce zsk_keys) json "POST" "/v1/enrollment/arm" confirmed initial).1,
    )
serve-Repeats_example =
    serve-Repeats (controller enforce zsk_keys) json "POST" "/v1/enrollment/arm" confirmed initial _
      accepted arms refl

never-Confirmed : ¬ Confirmed json post_arm bare
never-Confirmed (arm_confirmed _ request decoded set) = cc

unconfirmed-Refused_example :
    (response : Response) × (handle (controller enforce zsk_keys) json post_arm bare initial
      ≡ (ok response, initial))
    × (response.code ≡ 400)
unconfirmed-Refused_example =
    unconfirmed-Refused (controller enforce zsk_keys) json post_arm bare initial refl
      never-Confirmed

no_confirmation : ¬ Confirmed json get_audit bare
no_confirmation x = elim x [ ]

unconfirmed-ReadOnly_example :
    ReadOnly initial.state (handle (controller enforce zsk_keys) json get_audit bare initial).1
unconfirmed-ReadOnly_example =
    unconfirmed-ReadOnly (controller enforce zsk_keys) json get_audit bare initial no_confirmation
      refl
