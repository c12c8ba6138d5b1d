-- ===== src/Dnsprobe/Observer/Configured.antt =====
-- The probe of internal/dnsprobe/probe.go with the resolvers of a configuration that internal/config/config.go
-- accepts.
use dnssec_keyrotation.Base.{
  ◌≤◌, String, ◌≡◌, sym, subst, List, [], ◌∷◌, All, length, string_eq, arith,
}
use dnssec_keyrotation.Base.Order.{Slashed}
use dnssec_keyrotation.Errors.{ok}
use dnssec_keyrotation.Model.{Key}
use dnssec_keyrotation.Config.Settings.{Platform, Settings}
use dnssec_keyrotation.Config.Validate.{validate}
use dnssec_keyrotation.Config.Valid.{validate-IsValid}
use dnssec_keyrotation.Dnsprobe.Network.{Net, Prober}
use dnssec_keyrotation.Dnsprobe.Checks.{expected_ds}
use dnssec_keyrotation.Dnsprobe.Checks.Distinct.{Distinct, differs}
use dnssec_keyrotation.Dnsprobe.Evidence.{collect_ds}
use dnssec_keyrotation.Dnsprobe.Evidence.Trust.{DsAt}
use dnssec_keyrotation.Dnsprobe.Parent.Tally.{TwoShow}
use dnssec_keyrotation.Dnsprobe.Observer.Evident.{collect_ds-DsShown}

two_of :
    (P : String → Net → Type 0) (servers : List String) (net : Net)
    → 2 ≤ length servers
    → Distinct servers
    → All (λ server. P server net) servers
    → TwoShow (λ _. P) 0 net
two_of P [] net enough different all = let few : ⊥ = omega arith in elim few [ ]
two_of P (s ∷ []) net enough different all = let few : ⊥ = omega arith in elim few [ ]
two_of P (s ∷ t ∷ servers) net enough different all = record {
  one = t;
  another = s;
  distinct = differs t s servers different.0;
  one_shows = all.1.0;
  another_shows = all.0;
}

-- With the resolvers of a configuration that passes its check, DS evidence is given only when two different
-- resolvers have answered with the authenticated flag and with exactly the DS records of the keys.
pub configured-TwoShow :
    (go : Platform) (s : Settings) (p : Prober) (zone : String) (keys : List Key)
    (before after : Net) (u : Unit {0})
    → validate go s ≡ ok tt
    → p.resolvers ≡ s.config.dns.resolvers
    → collect_ds p zone keys before ≡ (ok u, after)
    → (want : List Slashed) × (expected_ds p.dns p.rr (p.dns.fqdn zone) keys ≡ ok want)
      × TwoShow (λ _. DsAt p (p.dns.fqdn zone) want) 0 after
configured-TwoShow go s p zone keys before after u passed configured given =
    let valid = (validate-IsValid go s passed).servers in
    let shown = collect_ds-DsShown p zone keys before after u given in
    (
      shown.want,
      shown.derived,
      two_of (DsAt p (p.dns.fqdn zone) shown.want) p.resolvers after
          (subst (λ l. 2 ≤ length l) (sym configured) valid.resolvers)
          (subst Distinct (sym configured) valid.different) shown.resolvers,
    )
