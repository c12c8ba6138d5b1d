-- ===== src/Controller/Notify.antt =====
-- `deliverNotifications` of internal/controller/controller.go.
use dnssec_keyrotation.Base.{
  ◌+◌, String, Bool, true, false, not, ◌&&◌, ◌||◌, Option, none, some, List, [], ◌∷◌, ◌++◌, Assoc,
  lookup, insert, remove, nat_eq, ltb, if◌then◌else◌,
}
use dnssec_keyrotation.Base.Text.{sort}
use dnssec_keyrotation.Errors.{Error, Result, ok, err, wrapf, str}
use dnssec_keyrotation.Model.{is_zero, before, Time, State, Notification}
use dnssec_keyrotation.Api.{Controller}
use dnssec_keyrotation.Exec.{M, pure, attempt, or_else, now, send, ◌>>=◌}
use dnssec_keyrotation.Store.{snapshot, update}
use dnssec_keyrotation.Controller.Moves.{backoff}

-- `len(ids) == 0`
abbrev is_none : List String → Bool
is_none [] = true
is_none (_ ∷ _) = false

-- the keys whose event passes a test
unfoldable pub keys_where : (Notification → Bool) → Assoc Notification → List String
keys_where p [] = []
keys_where p ((id, event) ∷ rest) =
    let more = keys_where p rest in if p event then id ∷ more else more

unfoldable pub remove_all : List String → Assoc Notification → Assoc Notification
remove_all [] events = events
remove_all (id ∷ ids) events = remove_all ids (remove id events)

abbrev pub is_delivered : Notification → Bool
is_delivered event = not (is_zero event.delivered_at)

-- An undelivered event whose next attempt is not in the future.
abbrev pub is_due : Time → Notification → Bool
is_due at event =
    is_zero event.delivered_at
    && (is_zero event.next_attempt_at || not (before at event.next_attempt_at))

-- The event after an attempt to send it.
abbrev pub after_attempt : Time → Result (Unit {0}) → Notification → Notification
after_attempt at (ok _) event = record event {
  delivered_at = at;
  last_error = none;
  next_attempt_at = 0;
}
after_attempt at (err e) event = record event {
  attempts = event.attempts + 1;
  last_error = some e;
  next_attempt_at = at + backoff (event.attempts + 1);
}

-- the mutation after an attempt
unfoldable pub attempted_state : String → Time → Result (Unit {0}) → State → State
attempted_state id at outcome s = elim (lookup id s.notifications) [
  | none ↦ s
  | some current ↦
      if is_delivered current
      then s
      else record s { notifications = insert id (after_attempt at outcome current) s.notifications }
]

abbrev errors_of : String → Result (Unit {0}) → Result (Unit {0}) → List Error
errors_of id outcome (err e) = e ∷ []
errors_of id (err e) (ok _) = wrapf "notification %s" (str id ∷ []) e ∷ []
errors_of id (ok _) (ok _) = []

-- `stateSnapshot.Notifications[id]` for an id of that map
abbrev pub send_found : Controller → Option Notification → M (Result (Unit {0}))
send_found c none = pure (ok tt)
send_found c (some event) = attempt (send c event)

module _ (c : Controller) where
  unfoldable pub deliver_each : State → Time → List String → M (List Error)
  unfolding attempted_state
  deliver_each s at [] = pure []
  deliver_each s at (id ∷ ids) = do
    outcome ← send_found c (lookup id s.notifications)
    saved ← attempt (update c (λ t. pure (attempted_state id at outcome t)))
    more ← deliver_each s at ids
    pure (errors_of id outcome saved ++ more)

  is_expired : Time → Notification → Bool
  is_expired at event =
      is_delivered event && ltb (event.delivered_at + c.cfg.controller.idempotency_retention) at

  -- the removal of the events that were delivered long ago
  expire : State → Time → M (Unit {0})
  unfolding keys_where remove_all is_expired
  expire s at =
      let ids = keys_where (is_expired at) s.notifications in
      if is_none ids
      then pure tt
      else update c (λ t. pure (record t { notifications = remove_all ids t.notifications }))

  deliver_due : Time → M (List Error)
  unfolding deliver_each
  deliver_due at = do
    s ← snapshot
    if c.cfg.lmtp_enabled
        then deliver_each s at (sort (keys_where (is_due at) s.notifications))
        else pure []

  -- `deliverNotifications`, with the errors that it joins
  unfoldable pub deliver_notifications : M (List Error)
  unfolding expire deliver_due
  deliver_notifications = do
    at ← now c
    s ← snapshot
    expired ← attempt (expire s at)
    or_else expired (λ e. pure (e ∷ [])) (λ _. deliver_due at)
