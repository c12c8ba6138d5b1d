-- ===== src/Progress/Repeat.antt =====
-- `Trigger`, `Resume`, `ArmEnrollment` and `ReconcileSplitSignerTransition` of
-- internal/controller/controller.go: a request that was carried out may be sent again.
use dnssec_keyrotation.Base.{
  Assoc, ap, ◌∙◌, String, Bool, true, false, ◌≡◌, refl, subst, Option, none, some, lookup, insert,
  lookup-insert, beq_refl, string_eq, ◌==◌, if◌then◌else◌, Bool-cases, Option-cases, inl, inr,
  eq_iff,
}
use dnssec_keyrotation.Errors.{Error, Result, ok, err}
use dnssec_keyrotation.Model.{State}
use dnssec_keyrotation.Api.{Controller}
use dnssec_keyrotation.Exec.{World, M, pure, lift, ◌>>=◌, ◌>>◌, or_missing, or_else, fail}
use dnssec_keyrotation.Store.{snapshot, update}
use dnssec_keyrotation.Store.Atomic.{IsCommit, update-IsCommit}
use dnssec_keyrotation.Controller.Requests.{unless_used}
use dnssec_keyrotation.Progress.Calls.{OfResult, Yields, Yields-pure, Yields-fail}

-- The state records the request under its key.
abbrev pub Answered : String → String → State → Type 0
Answered idem fingerprint t = lookup idem t.idempotency ≡ some fingerprint

abbrev pub Lands : {A : Type 0} → (State → Type 0) → Result A × World → Type 0
Lands Q (ok a, s) = Q s.state
Lands Q (err e, s) = Unit {0}

-- What `m` leaves when it returns has the property.
pub record Reaches {A : Type 0} (Q : State → Type 0) (m : M A) : Type 0 where
  pub at : (s : World) → Lands Q (m s)

module _ {Q : State → Type 0} {A B : Type 0} where
  pub Reaches-bind : (m : M A) {f : A → M B} → ((a : A) → Reaches Q (f a)) → Reaches Q (m >>= f)
  unfolding ◌>>=◌
  Reaches-bind m {f} reaches = record { at = λ s. continue (m s).0 (m s).1 }
    where
      continue : (r : Result A) (s : World) → Lands Q (((λ _. (r, s)) >>= f) s)
      continue (ok a) s = (reaches a).at s
      continue (err e) s = tt

  pub Reaches-missing :
      (o : Option A) {otherwise : M B} {rest : A → M B}
      → Reaches Q otherwise
      → ((a : A) → Reaches Q (rest a))
      → Reaches Q (or_missing o otherwise rest)
  unfolding or_missing
  Reaches-missing none ro rr = ro
  Reaches-missing (some a) ro rr = rr a

  pub Reaches-or_else :
      (r : Result A) {handle : Error → M B} {rest : A → M B}
      → ((e : Error) → Reaches Q (handle e))
      → ((a : A) → Reaches Q (rest a))
      → Reaches Q (or_else r handle rest)
  unfolding or_else
  Reaches-or_else (ok a) rh rr = rr a
  Reaches-or_else (err e) rh rr = rh e

module _ {Q : State → Type 0} {A : Type 0} where
  pub Reaches-fail : (e : Error) → Reaches Q (fail {A = A} e)
  unfolding fail
  Reaches-fail e = record { at = λ s. tt }

  pub Reaches-if :
      (b : Bool) {m n : M A} → Reaches Q m → Reaches Q n → Reaches Q (if b then m else n)
  Reaches-if true rm rn = rm
  Reaches-if false rm rn = rn

committed :
    (Q : State → Type 0) (mutated : Result State × World) (out : Result (Unit {0}) × World)
    → OfResult Q mutated.0
    → IsCommit mutated out
    → Lands Q out
committed Q (ok t, before) (ok done, after) q (u, same, published, kept) =
    rw published (subst (OfResult Q) same q)
committed Q (err e, before) (ok done, after) q (u, same, published, kept) = cc
committed Q mutated (err e, after) q commit = tt

pub update-Reaches :
    {Q : State → Type 0} (c : Controller) {mutation : State → M State}
    → ((t : State) → Yields (λ _. Unit {0}) Q (mutation t))
    → Reaches Q (update c mutation)
update-Reaches {Q} c {mutation} ym = record {
  at = λ s.
      committed Q (mutation s.state s) (update c mutation s) ((ym s.state).at s tt).1
        (update-IsCommit c mutation s);
}

pub ruleset reach_rules =
    (Reaches-fail, Reaches-if, Reaches-missing, Reaches-or_else, update-Reaches, Reaches-bind)

pub lookup-recorded :
    (idem fingerprint : String) (requests : Assoc String)
    → lookup idem (insert idem fingerprint requests) ≡ some fingerprint
lookup-recorded idem fingerprint requests =
    rw (lookup-insert idem idem fingerprint requests, beq_refl idem) refl

-- A mutation that answers the request, or finds it answered.
pub unless_used-Yields :
    (idem fingerprint : String) (t : State) (e : Error) {rest : M State}
    → Yields (λ _. Unit {0}) (Answered idem fingerprint) rest
    → Yields
        (λ _. Unit {0})
        (Answered idem fingerprint)
        (unless_used (lookup idem t.idempotency) fingerprint t e rest)
unfolding unless_used
unless_used-Yields idem fingerprint t e {rest} yr =
    elim (Option-cases (lookup idem t.idempotency)) [
      | inl missing ↦ rw (missing, unless_used) yr
      | inr (existing, found) ↦ elim (Bool-cases (existing == fingerprint)) [
        | inl same ↦
            rw (found, unless_used, same)
              (Yields-pure t (found ∙ ap some ((eq_iff existing fingerprint).0 same)))
        | inr other ↦ rw (found, unless_used, other) (Yields-fail e)
      ]
    ]

-- Where `m` returns, a second run returns the same and changes nothing.
abbrev pub Settled : {A : Type 0} → M A → Result A × World → Type 0
Settled m (ok a, t) = m t ≡ (ok a, t)
Settled m (err e, t) = Unit {0}

pub record Repeats {A : Type 0} (m : M A) : Type 0 where
  pub at : (s : World) → Settled m (m s)

module _ {A : Type 0} where
  pub Repeats-guard : (r : Result (Unit {0})) {m : M A} → Repeats m → Repeats (lift r >> m)
  unfolding lift ◌>>=◌
  Repeats-guard (ok done) {m} rm = record { at = λ s. rm.at s }
  Repeats-guard (err e) rm = record { at = λ s. tt }

module _ (idem fingerprint : String) (conflict : Error) (rest : State → M (Unit {0})) where
  abbrev answer_once : M (Unit {0})
  answer_once = do
    s ← snapshot
    unless_used (lookup idem s.idempotency) fingerprint tt conflict (rest s)

  answered : (t : World) → Answered idem fingerprint t.state → answer_once t ≡ (ok tt, t)
  unfolding snapshot ◌>>=◌ unless_used
  answered t h = rw (h, unless_used, beq_refl fingerprint, pure) refl

  settled :
      (out : Result (Unit {0}) × World)
      → Lands (Answered idem fingerprint) out
      → Settled answer_once out
  settled (ok done, t) h = answered t h
  settled (err e, t) h = tt

  outcome :
      (s : World)
      → Reaches (Answered idem fingerprint) (rest s.state)
      → Lands (Answered idem fingerprint) (answer_once s)
  unfolding snapshot ◌>>=◌ unless_used
  outcome s reaches = elim (Option-cases (lookup idem s.state.idempotency)) [
    | inl missing ↦ rw (missing, unless_used) (reaches.at s)
    | inr (existing, found) ↦ elim (Bool-cases (existing == fingerprint)) [
      | inl same ↦
          rw (found, unless_used, same, pure)
            (found ∙ ap some ((eq_iff existing fingerprint).0 same))
      | inr other ↦ rw (found, unless_used, other, fail) tt
    ]
  ]

  -- A request that leaves its key on record is carried out once.
  pub Repeats-once :
      ((s : State) → Reaches (Answered idem fingerprint) (rest s)) → Repeats answer_once
  Repeats-once reaches = record { at = λ s. settled (answer_once s) (outcome s (reaches s.state)) }
