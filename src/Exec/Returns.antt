-- ===== src/Exec/Returns.antt =====
-- How an action returns: rules, one for each way to build it.
use dnssec_keyrotation.Base.{◌≡◌, refl, sym, subst, String, Bool, false, not, true, List}
use dnssec_keyrotation.Errors.{Arg, Error, Result, ok, reject_if}
use dnssec_keyrotation.Exec.{Action, lift, in_contextf, ◌>>=◌}

module _ {S A : Type 0} (s after : S) (a : A) where
  pub returns-bind :
      {B : Type 0} {out : Result B × S} (m : Action S A) (f : A → Action S B)
      → m s ≡ (ok a, after)
      → f a after ≡ out
      → (m >>= f) s ≡ out
  unfolding ◌>>=◌
  returns-bind {out} m f returned rest = subst (λ o. ((λ _. o) >>= f) s ≡ out) (sym returned) rest

  pub returns-in_context :
      (format : String) (args : List Arg) (m : Action S A)
      → m s ≡ (ok a, after)
      → in_contextf format args m s ≡ (ok a, after)
  unfolding in_contextf
  returns-in_context format args m returned =
      subst (λ o. in_contextf format args (λ _. o) s ≡ (ok a, after)) (sym returned) refl

module _ {S A : Type 0} (s : S) (a : A) where
  pub returns-lift : (r : Result A) → r ≡ ok a → lift r s ≡ (ok a, s)
  unfolding lift
  returns-lift r computed = rw computed refl

pub check_passes : (b : Bool) (e : Error) → b ≡ true → reject_if (not b) e ≡ ok tt
check_passes true e h = refl
check_passes false e h = cc
