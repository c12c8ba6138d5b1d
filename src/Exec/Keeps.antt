-- ===== src/Exec/Keeps.antt =====
-- What an action does to a predicate on worlds: rules, one for each way to build an action.
use dnssec_keyrotation.Base.{
  ◌≡◌, refl, String, Bool, true, false, List, Option, none, some, if◌then◌else◌,
}
use dnssec_keyrotation.Errors.{Arg, Error, Result, ok, err}
use dnssec_keyrotation.Exec.{
  Action, pure, fail, lift, in_contextf, attempt, or_else, or_missing, ◌>>=◌,
}

-- `m` keeps `P`, whether it returns or fails.
pub record Keeps {S A : Type 0} (P : S → Type 0) (m : Action S A) : Type 0 where
  pub at : (s : S) → P s → P (m s).1

-- From `P`, `m` establishes `Q` when it returns, and keeps `P` when it fails.
abbrev pub Outcome : {S A : Type 0} → (S → Type 0) → (S → Type 0) → Result A × S → Type 0
Outcome P Q (ok a, s) = Q s
Outcome P Q (err e, s) = P s

pub record Gains {S A : Type 0} (P Q : S → Type 0) (m : Action S A) : Type 0 where
  pub at : (s : S) → P s → Outcome P Q (m s)

module _ {S A : Type 0} {P : S → Type 0} where
  pub Keeps-pure : (a : A) → Keeps P (pure a)
  unfolding pure
  Keeps-pure a = record { at = λ s h. h }

  pub Keeps-fail : (e : Error) → Keeps P (fail {A = A} e)
  unfolding fail
  Keeps-fail e = record { at = λ s h. h }

  pub Keeps-lift : (r : Result A) → Keeps P (lift r)
  unfolding lift
  Keeps-lift r = record { at = λ s h. h }

  pub Keeps-if :
      (b : Bool) {m n : Action S A} → Keeps P m → Keeps P n → Keeps P (if b then m else n)
  Keeps-if true km kn = km
  Keeps-if false km kn = kn

  pub Keeps-decide :
      (b : Bool) {m n : Action S A}
      → (b ≡ true → Keeps P m)
      → (b ≡ false → Keeps P n)
      → Keeps P (if b then m else n)
  Keeps-decide true km kn = km refl
  Keeps-decide false km kn = kn refl

  pub Keeps-then :
      (b : Bool) {m : Action S A} (n : Action S A)
      → b ≡ true
      → Keeps P m
      → Keeps P (if b then m else n)
  Keeps-then b {m} n e km = rw e km

  pub Keeps-else :
      (b : Bool) (m : Action S A) {n : Action S A}
      → b ≡ false
      → Keeps P n
      → Keeps P (if b then m else n)
  Keeps-else b m {n} e kn = rw e kn

  pub Keeps-in_context :
      (format : String) (args : List Arg) {m : Action S A}
      → Keeps P m
      → Keeps P (in_contextf format args m)
  unfolding in_contextf
  Keeps-in_context format args {m} km = record {
    at = λ s h. split_result (m s).0 (m s).1 (km.at s h);
  }
    where
      split_result :
          (r : Result A) (s : S) → P s → P (in_contextf {A = A} format args (λ _. (r, s)) s).1
      split_result (ok a) s h = h
      split_result (err e) s h = h

  pub Keeps-attempt : {m : Action S A} → Keeps P m → Keeps P (attempt m)
  unfolding attempt
  Keeps-attempt km = record { at = λ s h. km.at s h }

module _ {S A B : Type 0} {P : S → Type 0} where
  pub Keeps-or_else :
      (r : Result A) {handle : Error → Action S B} {rest : A → Action S B}
      → ((e : Error) → Keeps P (handle e))
      → ((a : A) → Keeps P (rest a))
      → Keeps P (or_else r handle rest)
  unfolding or_else
  Keeps-or_else (ok a) kh kr = kr a
  Keeps-or_else (err e) kh kr = kh e

  pub Keeps-or_missing :
      (o : Option A) {otherwise : Action S B} {rest : A → Action S B}
      → Keeps P otherwise
      → ((a : A) → Keeps P (rest a))
      → Keeps P (or_missing o otherwise rest)
  unfolding or_missing
  Keeps-or_missing none ko kr = ko
  Keeps-or_missing (some a) ko kr = kr a

  pub Keeps-bind :
      {m : Action S A} {f : A → Action S B}
      → Keeps P m
      → ((a : A) → Keeps P (f a))
      → Keeps P (m >>= f)
  unfolding ◌>>=◌
  Keeps-bind {m} {f} km kf = record { at = λ s h. continue (m s).0 (m s).1 (km.at s h) }
    where
      continue : (r : Result A) (s : S) → P s → P (((λ _. (r, s)) >>= f) s).1
      continue (ok a) s h = (kf a).at s h
      continue (err e) s h = h

pub ruleset keeps_rules = (
  Keeps-pure, Keeps-fail, Keeps-lift, Keeps-if, Keeps-in_context, Keeps-attempt, Keeps-or_else,
  Keeps-or_missing, Keeps-bind,
)

-- From `Q`, `m` ends in `P`, whether it returns or fails.
pub record Leads {S A : Type 0} (Q P : S → Type 0) (m : Action S A) : Type 0 where
  pub at : (s : S) → Q s → P (m s).1

module _ {S A B : Type 0} {P Q : S → Type 0} where
  pub Leads-bind :
      {m : Action S A} {f : A → Action S B}
      → Leads Q P m
      → ((a : A) → Keeps P (f a))
      → Leads Q P (m >>= f)
  unfolding ◌>>=◌
  Leads-bind {m} {f} lm kf = record { at = λ s h. continue (m s).0 (m s).1 (lm.at s h) }
    where
      continue : (r : Result A) (s : S) → P s → P (((λ _. (r, s)) >>= f) s).1
      continue (ok a) s h = (kf a).at s h
      continue (err e) s h = h

  -- What `m` establishes serves the rest.
  pub Gains-bind :
      {m : Action S A} {f : A → Action S B}
      → Gains P Q m
      → ((a : A) → Leads Q P (f a))
      → Keeps P (m >>= f)
  unfolding ◌>>=◌
  Gains-bind {m} {f} gm lf = record { at = λ s h. continue (m s).0 (m s).1 (gm.at s h) }
    where
      continue : (r : Result A) (s : S) → Outcome P Q (r, s) → P (((λ _. (r, s)) >>= f) s).1
      continue (ok a) s h = (lf a).at s h
      continue (err e) s h = h

module _ {S A : Type 0} {P Q : S → Type 0} where
  pub Leads-weaken : {m : Action S A} → Keeps Q m → ((s : S) → Q s → P s) → Leads Q P m
  Leads-weaken {m} km weaken = record { at = λ s h. weaken (m s).1 (km.at s h) }

  pub Leads-or_missing :
      {B : Type 0} (o : Option B) {otherwise : Action S A} {rest : B → Action S A}
      → Leads Q P otherwise
      → ((b : B) → Leads Q P (rest b))
      → Leads Q P (or_missing o otherwise rest)
  unfolding or_missing
  Leads-or_missing none lo lr = lo
  Leads-or_missing (some b) lo lr = lr b

  pub Leads-or_else :
      {B : Type 0} (r : Result B) {handle : Error → Action S A} {rest : B → Action S A}
      → ((e : Error) → Leads Q P (handle e))
      → ((b : B) → Leads Q P (rest b))
      → Leads Q P (or_else r handle rest)
  unfolding or_else
  Leads-or_else (ok b) lh lr = lr b
  Leads-or_else (err e) lh lr = lh e

  pub Gains-if :
      (b : Bool) {m n : Action S A} → Gains P Q m → Gains P Q n → Gains P Q (if b then m else n)
  Gains-if true gm gn = gm
  Gains-if false gm gn = gn

  pub Leads-if :
      (b : Bool) {m n : Action S A} → Leads Q P m → Leads Q P n → Leads Q P (if b then m else n)
  Leads-if true lm ln = lm
  Leads-if false lm ln = ln

module _ {S A : Type 0} {P Q : S → Type 0} where
  pub Gains-in_context :
      (format : String) (args : List Arg) {m : Action S A}
      → Gains P Q m
      → Gains P Q (in_contextf format args m)
  unfolding in_contextf
  Gains-in_context format args {m} gm = record {
    at = λ s h. split_result (m s).0 (m s).1 (gm.at s h);
  }
    where
      split_result :
          (r : Result A) (s : S)
          → Outcome P Q (r, s)
          → Outcome P Q (in_contextf {A = A} format args (λ _. (r, s)) s)
      split_result (ok a) s h = h
      split_result (err e) s h = h

module _ {S A B : Type 0} {P Q : S → Type 0} where
  pub Gains-after :
      {m : Action S A} {f : A → Action S B}
      → Keeps P m
      → ((a : A) → Gains P Q (f a))
      → Gains P Q (m >>= f)
  unfolding ◌>>=◌
  Gains-after {m} {f} km gf = record { at = λ s h. continue (m s).0 (m s).1 (km.at s h) }
    where
      continue : (r : Result A) (s : S) → P s → Outcome P Q (((λ _. (r, s)) >>= f) s)
      continue (ok a) s h = (gf a).at s h
      continue (err e) s h = h

  pub Gains-before :
      {m : Action S A} {f : A → Action S B}
      → Gains P Q m
      → ((a : A) → Keeps Q (f a))
      → ((s : S) → Q s → P s)
      → Gains P Q (m >>= f)
  unfolding ◌>>=◌
  Gains-before {m} {f} gm kf weaken = record { at = λ s h. continue (m s).0 (m s).1 (gm.at s h) }
    where
      relax : (out : Result B × S) → Q out.1 → Outcome P Q out
      relax (ok b, s) h = h
      relax (err e, s) h = weaken s h

      continue : (r : Result A) (s : S) → Outcome P Q (r, s) → Outcome P Q (((λ _. (r, s)) >>= f) s)
      continue (ok a) s h = relax (f a s) ((kf a).at s h)
      continue (err e) s h = h

module _ {S A B : Type 0} {P Q R : S → Type 0} where
  -- What one action gains is still there after the next.
  pub Gains-first :
      {m : Action S A} {f : A → Action S B}
      → Gains P Q m
      → ((a : A) → Gains Q R (f a))
      → ((s : S) → Q s → P s)
      → Gains P R (m >>= f)
  unfolding ◌>>=◌
  Gains-first {m} {f} gm gf weaken = record { at = λ s h. continue (m s).0 (m s).1 (gm.at s h) }
    where
      relax : (out : Result B × S) → Outcome Q R out → Outcome P R out
      relax (ok b, s) h = h
      relax (err e, s) h = weaken s h

      continue : (r : Result A) (s : S) → Outcome P Q (r, s) → Outcome P R (((λ _. (r, s)) >>= f) s)
      continue (ok a) s h = relax (f a s) ((gf a).at s h)
      continue (err e) s h = h

module _ {S A B : Type 0} {P Q R : S → Type 0} where
  -- What is gained on the way serves the rest, and a failure on the way ends well.
  pub Leads-Gains :
      {m : Action S A} {f : A → Action S B}
      → Gains Q R m
      → ((s : S) → Q s → P s)
      → ((a : A) → Leads R P (f a))
      → Leads Q P (m >>= f)
  unfolding ◌>>=◌
  Leads-Gains {m} {f} gm weaken lf = record { at = λ s h. continue (m s).0 (m s).1 (gm.at s h) }
    where
      continue : (r : Result A) (s : S) → Outcome Q R (r, s) → P (((λ _. (r, s)) >>= f) s).1
      continue (ok a) s h = (lf a).at s h
      continue (err e) s h = weaken s h

module _ {S A B : Type 0} {P Q : S → Type 0} where
  pub Leads-after :
      {m : Action S A} {f : A → Action S B}
      → Keeps Q m
      → ((s : S) → Q s → P s)
      → ((a : A) → Leads Q P (f a))
      → Leads Q P (m >>= f)
  unfolding ◌>>=◌
  Leads-after {m} {f} km weaken lf = record { at = λ s h. continue (m s).0 (m s).1 (km.at s h) }
    where
      continue : (r : Result A) (s : S) → Q s → P (((λ _. (r, s)) >>= f) s).1
      continue (ok a) s h = (lf a).at s h
      continue (err e) s h = weaken s h

pub record Implies {S : Type 0} (Q P : S → Type 0) : Type 0 where
  pub at : (s : S) → Q s → P s

module _ {S A : Type 0} {P Q : S → Type 0} where
  pub Leads-settled : {m : Action S A} → Implies Q P → Keeps Q m → Leads Q P m
  Leads-settled implies km = Leads-weaken km implies.at

  pub Leads-settled_bind :
      {B : Type 0} {m : Action S A} {f : A → Action S B}
      → Implies Q P
      → Keeps Q m
      → ((a : A) → Leads Q P (f a))
      → Leads Q P (m >>= f)
  Leads-settled_bind implies km lf = Leads-after km implies.at lf

pub ruleset leads_rules =
    (Leads-settled_bind, Leads-settled, Leads-bind, Leads-if, Leads-or_missing, Leads-or_else)
