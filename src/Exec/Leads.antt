-- ===== src/Exec/Leads.antt =====
-- What is found on the way serves the rest: rules for the way from one predicate on worlds to another.
use dnssec_keyrotation.Base.{◌≡◌, refl, Bool, true, false, Option, none, some, if◌then◌else◌}
use dnssec_keyrotation.Errors.{Error, Result, ok, err}
use dnssec_keyrotation.Exec.{Action, lift, or_else, or_missing, ◌>>=◌}
use dnssec_keyrotation.Exec.Keeps.{Keeps, Leads, Implies}
use dnssec_keyrotation.Exec.Finds.{Finds, Lands}

module _ {S A B : Type 0} {P R : S → Type 0} where
  pub Leads-found :
      {Q : A → S → Type 0} {m : Action S A} {f : A → Action S B}
      → Implies R P
      → Keeps R m
      → Finds R Q m
      → ((a : A) → Leads (Q a) P (f a))
      → Leads R P (m >>= f)
  unfolding ◌>>=◌
  Leads-found {Q} {m} {f} implies km fm lf = record {
    at = λ s h. continue (m s).0 (m s).1 (km.at s h) (fm.at s h);
  }
    where
      continue : (r : Result A) (s : S) → R s → Lands Q (r, s) → P (((λ _. (r, s)) >>= f) s).1
      continue (ok a) s h q = (lf a).at s q
      continue (err e) s h q = implies.at s h

  -- A computation that is known to have succeeded.
  pub Leads-computed :
      (r : Result A) {f : A → Action S B}
      → Implies R P
      → ((a : A) → r ≡ ok a → Leads R P (f a))
      → Leads R P (lift r >>= f)
  unfolding ◌>>=◌ lift
  Leads-computed (ok a) implies lf = lf a refl
  Leads-computed (err e) implies lf = record { at = λ s h. implies.at s h }

  pub Leads-passed :
      (r : Result A) {handle : Error → Action S B} {rest : A → Action S B}
      → ((e : Error) → Leads R P (handle e))
      → ((a : A) → r ≡ ok a → Leads R P (rest a))
      → Leads R P (or_else r handle rest)
  unfolding or_else
  Leads-passed (ok a) lh lr = lr a refl
  Leads-passed (err e) lh lr = lh e

  pub Leads-present :
      (o : Option A) {otherwise : Action S B} {rest : A → Action S B}
      → Leads R P otherwise
      → ((a : A) → o ≡ some a → Leads R P (rest a))
      → Leads R P (or_missing o otherwise rest)
  unfolding or_missing
  Leads-present none lo lr = lo
  Leads-present (some a) lo lr = lr a refl

module _ {S A : Type 0} {P R : S → Type 0} where
  pub Leads-decide :
      (b : Bool) {m n : Action S A}
      → (b ≡ true → Leads R P m)
      → (b ≡ false → Leads R P n)
      → Leads R P (if b then m else n)
  Leads-decide true lm ln = lm refl
  Leads-decide false lm ln = ln refl

  -- A fact that does not depend on the world.
  pub Leads-fact : {F : Type 0} {m : Action S A} → (F → Leads R P m) → Leads (λ s. F × R s) P m
  Leads-fact lm = record { at = λ s h. (lm h.0).at s h.1 }

module _ {S A : Type 0} {P : S → Type 0} {m : Action S A} where
  pub Keeps-Leads : Leads P P m → Keeps P m
  Keeps-Leads lm = record { at = lm.at }

  pub Leads-Keeps : Keeps P m → Leads P P m
  Leads-Keeps km = record { at = km.at }

pub Implies-same : {S : Type 0} {P : S → Type 0} → Implies P P
Implies-same = record { at = λ s h. h }
