-- ===== src/Exec/Finds.antt =====
-- What an action establishes of its value and of the state when it returns: rules, one for each way to
-- build an action.
use dnssec_keyrotation.Base.{
  ◌≡◌, refl, subst, String, Bool, true, false, List, Option, none, some, if◌then◌else◌,
}
use dnssec_keyrotation.Errors.{Arg, Error, Result, ok, err, reject_if}
use dnssec_keyrotation.Exec.{
  Action, pure, fail, lift, in_contextf, attempt, or_else, or_missing, ◌>>=◌, ◌>>◌,
}
use dnssec_keyrotation.Exec.Keeps.{Keeps}

abbrev pub Lands : {S A : Type 0} → (A → S → Type 0) → Result A × S → Type 0
Lands Q (ok a, s) = Q a s
Lands Q (err e, s) = Unit {0}

-- From `H`, `m` establishes `Q` of the value that it returns.
pub record Finds {S A : Type 0} (H : S → Type 0) (Q : A → S → Type 0) (m : Action S A)
    : Type 0 where
  pub at : (s : S) → H s → Lands Q (m s)

module _ {S A : Type 0} {H : S → Type 0} {Q : A → S → Type 0} where
  pub Finds-pure : (a : A) → ((s : S) → H s → Q a s) → Finds H Q (pure a)
  unfolding pure
  Finds-pure a found = record { at = found }

  pub Finds-fail : (e : Error) → Finds H Q (fail e)
  unfolding fail
  Finds-fail e = record { at = λ s h. tt }

  pub Finds-lift :
      (r : Result A) → ((a : A) → r ≡ ok a → (s : S) → H s → Q a s) → Finds H Q (lift r)
  unfolding lift
  Finds-lift (ok a) found = record { at = found a refl }
  Finds-lift (err e) found = record { at = λ s h. tt }

  pub Finds-if :
      (b : Bool) {m n : Action S A} → Finds H Q m → Finds H Q n → Finds H Q (if b then m else n)
  Finds-if true fm fn = fm
  Finds-if false fm fn = fn

  pub Finds-decide :
      (b : Bool) {m n : Action S A}
      → (b ≡ true → Finds H Q m)
      → (b ≡ false → Finds H Q n)
      → Finds H Q (if b then m else n)
  Finds-decide true fm fn = fm refl
  Finds-decide false fm fn = fn refl

  pub Finds-in_context :
      (format : String) (args : List Arg) {m : Action S A}
      → Finds H Q m
      → Finds H Q (in_contextf format args m)
  unfolding in_contextf
  Finds-in_context format args {m} fm = record {
    at = λ s h. split_result (m s).0 (m s).1 (fm.at s h);
  }
    where
      split_result :
          (r : Result A) (s : S)
          → Lands Q (r, s)
          → Lands Q (in_contextf {A = A} format args (λ _. (r, s)) s)
      split_result (ok a) s h = h
      split_result (err e) s h = tt

  -- What a kept predicate says, it says still when the action returns.
  pub Finds-kept :
      {K : S → Type 0} {m : Action S A}
      → Finds H Q m
      → Keeps K m
      → Finds (λ s. H s × K s) (λ a s. Q a s × K s) m
  Finds-kept {K} {m} fm km = record { at = λ s h. both (m s).0 (m s).1 (fm.at s h.0) (km.at s h.1) }
    where
      both : (r : Result A) (s : S) → Lands Q (r, s) → K s → Lands (λ a s. Q a s × K s) (r, s)
      both (ok a) s q k = (q, k)
      both (err e) s q k = tt

module _ {S A : Type 0} {H : S → Type 0} where
  pub Finds-weaken :
      {Q R : A → S → Type 0} {m : Action S A}
      → Finds H Q m
      → ((a : A) (s : S) → Q a s → R a s)
      → Finds H R m
  Finds-weaken {Q} {R} {m} fm weaken = record { at = λ s h. relax (m s) (fm.at s h) }
    where
      relax : (out : Result A × S) → Lands Q out → Lands R out
      relax (ok a, s) q = weaken a s q
      relax (err e, s) q = tt

module _ {S A B : Type 0} {H : S → Type 0} {R : B → S → Type 0} where
  pub Finds-bind :
      {Q : A → S → Type 0} {m : Action S A} {f : A → Action S B}
      → Finds H Q m
      → ((a : A) → Finds (Q a) R (f a))
      → Finds H R (m >>= f)
  unfolding ◌>>=◌
  Finds-bind {Q} {m} {f} fm ff = record { at = λ s h. continue (m s).0 (m s).1 (fm.at s h) }
    where
      continue : (r : Result A) (s : S) → Lands Q (r, s) → Lands R (((λ _. (r, s)) >>= f) s)
      continue (ok a) s h = (ff a).at s h
      continue (err e) s h = tt

  pub Finds-after :
      {m : Action S A} {f : A → Action S B}
      → Keeps H m
      → ((a : A) → Finds H R (f a))
      → Finds H R (m >>= f)
  unfolding ◌>>=◌
  Finds-after {m} {f} km ff = record { at = λ s h. continue (m s).0 (m s).1 (km.at s h) }
    where
      continue : (r : Result A) (s : S) → H s → Lands R (((λ _. (r, s)) >>= f) s)
      continue (ok a) s h = (ff a).at s h
      continue (err e) s h = tt

  -- A computation that is known to have succeeded.
  pub Finds-computed :
      (r : Result A) {f : A → Action S B}
      → ((a : A) → r ≡ ok a → Finds H R (f a))
      → Finds H R (lift r >>= f)
  unfolding ◌>>=◌ lift
  Finds-computed (ok a) ff = ff a refl
  Finds-computed (err e) ff = record { at = λ s h. tt }

  -- What fails in the end establishes nothing.
  pub Finds-doomed : (m : Action S A) (e : Error) → Finds H R (m >>= λ _. fail e)
  unfolding ◌>>=◌ fail
  Finds-doomed m e = record { at = λ s h. continue (m s).0 (m s).1 }
    where
      continue : (r : Result A) (s : S) → Lands R (((λ _. (r, s)) >>= λ _. fail e) s)
      continue (ok a) s = tt
      continue (err x) s = tt

  pub Finds-present :
      (o : Option A) {otherwise : Action S B} {rest : A → Action S B}
      → Finds H R otherwise
      → ((a : A) → o ≡ some a → Finds H R (rest a))
      → Finds H R (or_missing o otherwise rest)
  unfolding or_missing
  Finds-present none fo fr = fo
  Finds-present (some a) fo fr = fr a refl

  pub Finds-or_else :
      (r : Result A) {handle : Error → Action S B} {rest : A → Action S B}
      → ((e : Error) → r ≡ err e → Finds H R (handle e))
      → ((a : A) → r ≡ ok a → Finds H R (rest a))
      → Finds H R (or_else r handle rest)
  unfolding or_else
  Finds-or_else (ok a) fh fr = fr a refl
  Finds-or_else (err e) fh fr = fh e refl

module _ {S A : Type 0} {H : S → Type 0} where
  -- The outcome of an action, with what it establishes where it returned, and what it keeps where it failed.
  pub Finds-attempt :
      {Q : A → S → Type 0} {K : S → Type 0} {m : Action S A}
      → Finds H Q m
      → Keeps K m
      → Finds (λ s. H s × K s) (λ r s. Lands Q (r, s) × K s) (attempt m)
  unfolding attempt
  Finds-attempt fm km = record { at = λ s h. (fm.at s h.0, km.at s h.1) }

module _ {S A B : Type 0} {K : S → Type 0} {Q : A → S → Type 0} {R : B → S → Type 0} where
  -- Both ways on from such an outcome.
  pub Finds-either :
      (r : Result A) {handle : Error → Action S B} {rest : A → Action S B}
      → ((e : Error) → Finds K R (handle e))
      → ((a : A) → Finds (λ s. Q a s × K s) R (rest a))
      → Finds (λ s. Lands Q (r, s) × K s) R (or_else r handle rest)
  unfolding or_else
  Finds-either (ok a) fh fr = fr a
  Finds-either (err e) {handle} fh fr = record { at = λ s h. (fh e).at s h.1 }

module _ {S A : Type 0} {H K : S → Type 0} {Q : A → S → Type 0} {m : Action S A} where
  pub Finds-from : ((s : S) → H s → K s) → Finds K Q m → Finds H Q m
  Finds-from implies fm = record { at = λ s h. fm.at s (implies s h) }

module _ {S A : Type 0} {H : S → Type 0} {Q : A → S → Type 0} {m : Action S A} where
  -- Where what is known before is kept.
  pub Finds-outcome : Finds H Q m → Keeps H m → Finds H (λ r s. Lands Q (r, s) × H s) (attempt m)
  unfolding attempt
  Finds-outcome fm km = record { at = λ s h. (fm.at s h, km.at s h) }

module _ {S B : Type 0} {H : S → Type 0} {R : B → S → Type 0} where
  -- A check that is known to have passed.
  pub Finds-checked :
      (b : Bool) (e : Error) {m : Action S B}
      → (b ≡ false → Finds H R m)
      → Finds H R (lift (reject_if b e) >> m)
  unfolding ◌>>=◌ lift
  Finds-checked true e fm = record { at = λ s h. tt }
  Finds-checked false e fm = fm refl

module _ {S A : Type 0} {H : S → Type 0} {Q : A → S → Type 0} {m : Action S A} where
  pub result : Finds H Q m → (s after : S) (a : A) → H s → m s ≡ (ok a, after) → Q a after
  result fm s after a h e = subst (Lands Q) e (fm.at s h)
