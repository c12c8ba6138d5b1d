-- ===== src/Config/Valid.antt =====
-- `Validate` of internal/config/config.go: what a configuration that passes guarantees to the controller and
-- to the probe.
use dnssec_keyrotation.Base.{
  Bool-cases, inl, inr, eq_iff, ℕ, ◌*◌, ◌≤◌, String, Bool, true, false, not, ◌&&◌, ◌||◌, ◌≡◌, refl,
  List, [], ◌∷◌, nat_eq, string_eq, ◌==◌, ltb, length, contains, All, arith, beq_refl,
}
use dnssec_keyrotation.Errors.{ok}
use dnssec_keyrotation.Errors.Ensures.{
  Ensures, Ensures-bind, Ensures-reject, Ensures-test, Ensures-final,
}
use dnssec_keyrotation.Model.{second, minute, hour}
use dnssec_keyrotation.Config.{Config, is_enforce, is_observe}
use dnssec_keyrotation.Config.Settings.{Platform, Settings}
use dnssec_keyrotation.Config.Validate.{
  check_controller, check_resolvers, check_servers, check_policy, validate,
}
use dnssec_keyrotation.Dnsprobe.Checks.Distinct.{Distinct}

-- The section `controller`.
pub record ValidController (c : Config) : Type 0 where
  pub mode : (is_observe c.mode || is_enforce c.mode) ≡ true
  pub interval : 10 * second ≤ c.controller.reconcile_interval
  pub margin : minute ≤ c.controller.propagation_margin
  pub retention : 24 * hour ≤ c.controller.idempotency_retention

-- The section `dns`.
pub record ValidServers (c : Config) : Type 0 where
  pub resolvers : 2 ≤ length c.dns.resolvers
  pub different : Distinct c.dns.resolvers
  pub authoritative : 2 ≤ length c.dns.authoritative_servers
  pub expected : (c.enrollment.enabled && ltb (length c.dns.expected_nameservers) 2) ≡ false

-- The sections `rotation` and `enrollment`.
pub record ValidPolicy (c : Config) : Type 0 where
  pub zsk : 24 * hour ≤ c.rotation.zsk_interval
  pub ksk : 720 * hour ≤ c.rotation.ksk_interval
  pub dnskey_minimum : hour ≤ c.rotation.minimum_dnskey_wait
  pub parent_minimum : 48 * hour ≤ c.rotation.minimum_parent_wait
  pub explicit : c.rotation.auto_migrate_csk ≡ false
  pub scope : (c.enrollment.enabled && not (c.enrollment.scope == "all_selected")) ≡ false
  pub grace : 24 * hour ≤ c.enrollment.discovery_grace
  pub some_pending : 1 ≤ c.enrollment.max_pending
  pub few_pending : c.enrollment.max_pending ≤ 100
  pub some_new : 1 ≤ c.enrollment.max_new_per_day
  pub few_new : c.enrollment.max_new_per_day ≤ 100
  pub algorithms : 1 ≤ length c.enrollment.allowed_algorithms

pub record IsValid (c : Config) : Type 0 where
  pub controller : ValidController c
  pub servers : ValidServers c
  pub policy : ValidPolicy c

both_false : (a b : Bool) → (a || b) ≡ false → (a ≡ false) × (b ≡ false)
both_false true b e = cc
both_false false b e = (refl, e)

one_true : (a b : Bool) → (not a && not b) ≡ false → (a || b) ≡ true
one_true true b e = refl
one_true false true e = refl
one_true false false e = cc

at_least : (n low : ℕ) → ltb n low ≡ false → low ≤ n
at_least n low e = ground arith

at_most : (n high : ℕ) → ltb high n ≡ false → n ≤ high
at_most n high e = ground arith

not_empty : (n : ℕ) → (n == 0) ≡ false → 1 ≤ n
not_empty n e = ground arith

other_way : (x y : String) → (x == y) ≡ false → (y == x) ≡ false
other_way x y differ = elim (Bool-cases (y == x)) [
  | inl same ↦ let equal = (eq_iff y x).0 same in let self = beq_refl x in cc
  | inr other ↦ other
]

unseen :
    (seen : List String) (r : String) (resolvers : List String)
    → All (λ x. contains (r ∷ seen) x ≡ false) resolvers
    → (contains resolvers r ≡ false) × All (λ x. contains seen x ≡ false) resolvers
unfolding contains
unseen seen r [] all = (refl, tt)
unseen seen r (x ∷ resolvers) all =
    let later = unseen seen r resolvers all.1 in
    let here = both_false (r == x) (contains seen x) all.0 in
    (rw (other_way r x here.0) later.0, (here.1, later.1))

module _ (go : Platform) where
  controller-Ensures :
      (s : Settings) → Ensures (λ _. ValidController s.config) (check_controller go s)
  unfolding check_controller
  controller-Ensures s = Ensures-reject _ _ λ mode. Ensures-reject _ _ λ interval.
      Ensures-reject _ _ λ margin. Ensures-reject _ _ λ retention. Ensures-final λ _ e. record {
        mode = one_true _ _ mode;
        interval = at_least _ _ interval;
        margin = at_least _ _ margin;
        retention = at_least _ _ retention;
      }

  resolvers-Ensures :
      (resolvers seen : List String)
      → Ensures
          (λ _. Distinct resolvers × All (λ r. contains seen r ≡ false) resolvers)
          (check_resolvers go seen resolvers)
  unfolding check_resolvers
  resolvers-Ensures [] seen = Ensures-final λ _ e. (tt, tt)
  resolvers-Ensures (r ∷ resolvers) seen = Ensures-bind λ _ split. Ensures-reject _ _ λ fresh.
      Ensures-final λ _ e.
        let rest = (resolvers-Ensures resolvers (r ∷ seen)).at tt e in
        let parts = unseen seen r resolvers rest.1 in ((parts.0, rest.0), (fresh, parts.1))

  servers-Ensures : (s : Settings) → Ensures (λ _. ValidServers s.config) (check_servers go s)
  unfolding check_servers
  servers-Ensures s = Ensures-reject _ _ λ enough. Ensures-bind λ _ checked. Ensures-bind λ _ local.
      Ensures-reject _ _ λ authoritative. Ensures-test _ _ λ expected. record {
        resolvers = at_least _ _ enough;
        different = ((resolvers-Ensures s.config.dns.resolvers []).at tt checked).0;
        authoritative = at_least _ _ authoritative;
        expected = expected;
      }

  policy-Ensures : (s : Settings) → Ensures (λ _. ValidPolicy s.config) (check_policy go s)
  unfolding check_policy
  policy-Ensures s = Ensures-reject _ _ λ intervals. Ensures-reject _ _ λ waits.
      Ensures-reject _ _ λ explicit. Ensures-reject _ _ λ known. Ensures-reject _ _ λ scope.
        Ensures-reject _ _ λ grace. Ensures-reject _ _ λ limits. Ensures-test _ _ λ algorithms.
          let interval = both_false _ _ intervals in
          let wait = both_false _ _ waits in
          let last = both_false _ _ limits in
          let third = both_false _ _ last.0 in
          let second = both_false _ _ third.0 in
          record {
            zsk = at_least _ _ interval.0;
            ksk = at_least _ _ interval.1;
            dnskey_minimum = at_least _ _ wait.0;
            parent_minimum = at_least _ _ wait.1;
            explicit = explicit;
            scope = scope;
            grace = at_least _ _ grace;
            some_pending = at_least _ _ second.0;
            few_pending = at_most _ _ second.1;
            some_new = at_least _ _ third.1;
            few_new = at_most _ _ last.1;
            algorithms = not_empty _ algorithms;
          }

-- A configuration that passes has a known mode, two resolvers at least and none twice, two authoritative
-- servers at least, the minimum intervals and waits, no automatic migration, an explicit scope where the
-- enrollment is enabled, and enrollment limits from 1 to 100.
pub validate-IsValid : (go : Platform) (s : Settings) → validate go s ≡ ok tt → IsValid s.config
unfolding validate
validate-IsValid go s passed = checked.at tt passed
  where
    checked : Ensures (λ _. IsValid s.config) (validate go s)
    checked = Ensures-bind λ _ controller. Ensures-bind λ _ powerdns. Ensures-bind λ _ autodns.
        Ensures-bind λ _ account. Ensures-bind λ _ servers. Ensures-bind λ _ delegation.
          Ensures-bind λ _ policy. Ensures-final λ _ e. record {
            controller = (controller-Ensures go s).at tt controller;
            servers = (servers-Ensures go s).at tt servers;
            policy = (policy-Ensures go s).at tt policy;
          }
