-- ===== src/Control/Answers.antt =====
-- internal/control/server.go: the answers to the requests.
use dnssec_keyrotation.Base.{
  ℕ, String, Bool, true, false, not, ◌||◌, ◌≡◌, refl, subst, ◌⊎◌, inl, inr, nat_eq, string_eq, ◌==◌,
  ltb, length, if◌then◌else◌,
}
use dnssec_keyrotation.Base.Text.{trim_space}
use dnssec_keyrotation.Errors.{Error, Result, ok, err, new_error}
use dnssec_keyrotation.Model.{is_split}
use dnssec_keyrotation.Api.{Controller}
use dnssec_keyrotation.Exec.{World, M, pure, or_else, attempt, ◌>>=◌}
use dnssec_keyrotation.Controller.Resume.{is_wait_publish}
use dnssec_keyrotation.Progress.Repeat.{Repeats, Settled}
use dnssec_keyrotation.Progress.Requests.{
  trigger-Repeats, resume-Repeats, arm_enrollment-Repeats, reconcile-Repeats,
}
use dnssec_keyrotation.Control.Server.{
  Json, Request, Response, Body, write_error, answer_command, answer_view, handle_trigger,
  handle_resume, handle_reconcile, handle_arm, handle_plan, handle, serve, find_route, patterns,
  Route, get_health, get_ready, get_status, get_zones, get_audit, post_plan, post_trigger,
  post_resume, post_reconcile, post_arm,
}

-- What an answer says when the same request comes again in the state that it left.
abbrev pub Stays : M Response → Result Response × World → Type 0
Stays m (ok response, after) = (response.code == 202) ≡ true → m after ≡ (ok response, after)
Stays m (err e, after) = ⊥

-- The action always answers, and repeats an answer with the status 202.
pub record Accepts (m : M Response) : Type 0 where
  pub at : (w : World) → Stays m (m w)

Accepts-pure : (response : Response) → Accepts (pure response)
unfolding pure
Accepts-pure response = record { at = λ w accepted. refl }

Accepts-if : (b : Bool) {m n : M Response} → Accepts m → Accepts n → Accepts (if b then m else n)
Accepts-if true am an = am
Accepts-if false am an = an

module _ {A : Type 0} where
  Accepts-decoded :
      (o : Result A) {handle_error : Error → M Response} {rest : A → M Response}
      → ((e : Error) → Accepts (handle_error e))
      → ((a : A) → Accepts (rest a))
      → Accepts (or_else o handle_error rest)
  unfolding or_else
  Accepts-decoded (ok a) ae ar = ar a
  Accepts-decoded (err e) ae ar = ae e

module _ (word : String) (m : M (Unit {0})) where
  Accepts-command : Repeats m → Accepts (answer_command word m)
  unfolding answer_command ◌>>=◌ attempt or_else pure
  Accepts-command repeats = record { at = λ w. answered (m w).0 (m w).1 (repeats.at w) }
    where
      answered :
          (r : Result (Unit {0})) (after : World)
          → Settled m (r, after)
          → Stays (answer_command word m) (answer_command word (λ _. (r, after)) after)
      answered (ok done) after settled = λ accepted. rw settled refl
      answered (err e) after settled = λ accepted. cc

module _ {A : Type 0} (failure : ℕ) (shape : A → Body) (view : M A) where
  -- A view is not answered with 202.
  Accepts-view : (failure == 202) ≡ false → Accepts (answer_view failure shape view)
  unfolding answer_view ◌>>=◌ attempt or_else pure
  Accepts-view other = record { at = λ w. answered (view w).0 (view w).1 }
    where
      answered :
          (r : Result A) (after : World)
          → Stays
              (answer_view failure shape view)
              (answer_view failure shape (λ _. (r, after)) after)
      answered (ok a) after = λ accepted. cc
      answered (err e) after = λ accepted. cc

module _ (c : Controller) (json : Json) where
  handle-Accepts : (route : Route) (r : Request) → Accepts (handle c json route r)
  unfolding handle handle_trigger handle_resume handle_reconcile handle_arm handle_plan
  handle-Accepts get_health r = Accepts-pure _
  handle-Accepts get_ready r = Accepts-view 503 _ _ refl
  handle-Accepts get_status r = Accepts-view 502 _ _ refl
  handle-Accepts get_zones r = Accepts-view 502 _ _ refl
  handle-Accepts get_audit r = Accepts-view 502 _ _ refl
  handle-Accepts post_plan r = Accepts-decoded _ (λ e. Accepts-pure _) λ request. Accepts-pure _
  handle-Accepts post_trigger r =
      Accepts-decoded _ (λ e. Accepts-pure _)
        λ request.
          Accepts-if (not request.confirm) (Accepts-pure _)
            (Accepts-command _ _ (trigger-Repeats c _ request.kind request.zones))
  handle-Accepts post_resume r =
      Accepts-decoded _ (λ e. Accepts-pure _)
        λ request.
          Accepts-if (not (is_split request.kind) || not (is_wait_publish request.phase))
            (Accepts-pure _)
            (Accepts-if (length request.zones == 0 || ltb 100 (length request.zones))
              (Accepts-pure _)
              (Accepts-if (not request.confirm) (Accepts-pure _) (
                Accepts-command _ _ (resume-Repeats c _ request.kind request.zones request.phase))))
  handle-Accepts post_reconcile r =
      Accepts-decoded _ (λ e. Accepts-pure _)
        λ request. Accepts-if (trim_space request.zone == "") (Accepts-pure _) (
          Accepts-if (not request.confirm) (Accepts-pure _)
            (Accepts-command _ _ (reconcile-Repeats c _ request.zone)))
  handle-Accepts post_arm r =
      Accepts-decoded _ (λ e. Accepts-pure _)
        λ request.
          Accepts-if (not request.confirm) (Accepts-pure _)
            (Accepts-command _ _ (arm_enrollment-Repeats c _))

  serve-Accepts : (method path : String) (r : Request) → Accepts (serve c json method path r)
  unfolding serve
  serve-Accepts method path r = routed (find_route method path 404 patterns)
    where
      routed :
          (found : ◌⊎◌ ℕ Route)
          → Accepts (elim found [
            | inl code ↦ write_error code (new_error "no handler")
            | inr route ↦ handle c json route r
          ])
      routed (inl code) = Accepts-pure _
      routed (inr route) = handle-Accepts route r

-- A request that was answered with the status 202 is answered the same when it comes again, without a call and
-- without a change of the state or the disk.
pub serve-Repeats :
    (c : Controller) (json : Json) (method path : String) (r : Request) (before after : World)
    (response : Response)
    → serve c json method path r before ≡ (ok response, after)
    → response.code ≡ 202
    → serve c json method path r after ≡ (ok response, after)
serve-Repeats c json method path r before after response answered accepted =
    subst (Stays (serve c json method path r)) answered
      ((serve-Accepts c json method path r).at before) (rw accepted refl)
