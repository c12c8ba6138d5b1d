-- ===== src/Dnsprobe/Evidence/Granted.antt =====
-- `DSEvidence` of internal/dnsprobe/probe.go on resolvers that answer well.
use mathlib.Core.List.{Memᴰ, Perm}
use dnssec_keyrotation.Base.{
  ℕ, String, Bool, true, false, ◌≡◌, refl, List, [], ◌∷◌, All, nat_eq, ◌==◌, perm-equal_sorted,
}
use dnssec_keyrotation.Base.Order.{Slashed, slashed_eq, slashed_le, slashed_le-IsOrder}
use dnssec_keyrotation.Errors
use dnssec_keyrotation.Errors.{Result, ok}
use dnssec_keyrotation.Model.{Key}
use dnssec_keyrotation.Api.{DnsLibrary}
use dnssec_keyrotation.Exec.{pure, attempt, or_else, ◌>>=◌}
use dnssec_keyrotation.Dnsprobe.Evidence.{shown_ds, recursive_ds, collect_ds}
use dnssec_keyrotation.Exec.Returns.{returns-bind, returns-in_context, returns-lift, check_passes}
use dnssec_keyrotation.Dnsprobe.Message.{
  Rr, dnskey, ds, rrsig, soa, ns, nsec, nsec3, a, aaaa, other, Message, RrLibrary, type_ds,
}
use dnssec_keyrotation.Dnsprobe.Network.{Net, asked, Prober, exchange, query, query_attempts}
use dnssec_keyrotation.Dnsprobe.Checks.{
  same_owner_class, expected_ds, answered_ds, check_flags, exact_ds,
}
use dnssec_keyrotation.Dnsprobe.Checks.Sound.{ds_of}
use dnssec_keyrotation.Dnsprobe.Log.{question}

module _ (dns : DnsLibrary) (lib : RrLibrary) where
  -- A DS record stands at the owner.
  abbrev pub IsOwned : String → Rr → Type 0
  IsOwned owner (ds h d) = same_owner_class dns h owner ≡ true
  IsOwned owner rr = Unit {0}

  owned-Answers :
      (owner : String) (rrs : List Rr)
      → All (IsOwned owner) rrs
      → answered_ds dns lib owner rrs ≡ ok (ds_of rrs)
  unfolding answered_ds ds_of Errors.◌>>=◌
  owned-Answers owner [] all = refl
  owned-Answers owner (ds h d ∷ rrs) all = rw (all.0, owned-Answers owner rrs all.1) refl
  owned-Answers owner (dnskey h k ∷ rrs) all = owned-Answers owner rrs all.1
  owned-Answers owner (rrsig h s ∷ rrs) all = owned-Answers owner rrs all.1
  owned-Answers owner (soa h ∷ rrs) all = owned-Answers owner rrs all.1
  owned-Answers owner (ns h target ∷ rrs) all = owned-Answers owner rrs all.1
  owned-Answers owner (nsec h types ∷ rrs) all = owned-Answers owner rrs all.1
  owned-Answers owner (nsec3 h n ∷ rrs) all = owned-Answers owner rrs all.1
  owned-Answers owner (a h address ∷ rrs) all = owned-Answers owner rrs all.1
  owned-Answers owner (aaaa h address ∷ rrs) all = owned-Answers owner rrs all.1
  owned-Answers owner (other h ∷ rrs) all = owned-Answers owner rrs all.1

  exact-Passes :
      (r : Message) (want : List Slashed) (owner : String)
      → All (IsOwned owner) r.answer
      → Perm (ds_of r.answer) want
      → exact_ds dns lib r want owner false ≡ ok tt
  unfolding exact_ds check_flags Errors.◌>>=◌
  exact-Passes r want owner all same =
      rw
        (
          owned-Answers owner r.answer all,
          perm-equal_sorted slashed_le slashed_le-IsOrder (ds_of r.answer) want same,
        )
        refl

module _ (p : Prober) where
  -- An exchange with the resolver succeeds, and its reply has exactly the wanted DS records.
  pub record AnswersWell (name : String) (want : List Slashed) (server : String) (net : Net)
      : Type 0 where
    pub reply : Message
    pub arrives : p.exchange net (question server name type_ds true) ≡ ok reply
    pub succeeds : (reply.rcode == 0) ≡ true
    pub authenticated : reply.authenticated ≡ true
    pub owned : All (IsOwned p.dns p.rr name) reply.answer
    pub exact : Perm (ds_of reply.answer) want

  query-Returns :
      (server name : String) (typ : ℕ) (recursive : Bool) (net : Net) (r : Message)
      → p.exchange net (question server name typ recursive) ≡ ok r
      → (r.rcode == 0) ≡ true
      → query p server name typ recursive net
        ≡ (ok r, asked (question server name typ recursive) (ok r) ∷ net)
  unfolding query query_attempts exchange attempt or_else pure ◌>>=◌
  query-Returns server name typ recursive net r arrives succeeds = rw (arrives, succeeds) refl

  module _ (name : String) (want : List Slashed) where
    shown-Returns :
        (server : String) (net : Net)
        → AnswersWell name want server net
        → (after : Net) × (shown_ds p name want server net ≡ (ok tt, after))
    unfolding shown_ds
    shown-Returns server net good =
        let logged = asked (question server name type_ds true) (ok good.reply) ∷ net in
        let replied =
          query-Returns server name type_ds true net good.reply good.arrives good.succeeds in
        (
          logged,
          returns-bind net logged good.reply _ _
              (returns-in_context net logged good.reply _ _ _ replied)
              (returns-bind logged logged tt _ _
                (returns-lift logged tt _ (check_passes _ _ good.authenticated))
                (returns-in_context logged logged tt _ _ _ (
                  returns-lift logged tt _
                    (exact-Passes p.dns p.rr good.reply want name good.owned good.exact)))),
        )

    recursive-Returns :
        (servers : List String) (net : Net)
        → ((server : String) (past : Net) → Memᴰ server servers → AnswersWell name want server past)
        → (after : Net) × (recursive_ds p name want servers net ≡ (ok tt, after))
    unfolding recursive_ds pure
    recursive-Returns [] net good = (net, refl)
    recursive-Returns (server ∷ servers) net good =
        let one = shown-Returns server net (good server net (Memᴰ.head refl)) in
        let rest = recursive-Returns servers one.0 (λ s past m. good s past (Memᴰ.tail m)) in
        (rest.0, returns-bind net one.0 tt _ _ one.1 rest.1)

  -- DS evidence is given, on whatever log of earlier answers, where the DS records of the keys can be derived and
  -- the exchange with each resolver, at whatever point of the log, succeeds with a validated reply of exactly
  -- those records at the name.
  pub collect_ds-Returns :
      (zone : String) (keys : List Key) (want : List Slashed) (before : Net)
      → expected_ds p.dns p.rr (p.dns.fqdn zone) keys ≡ ok want
      → ((server : String) (past : Net)
          → Memᴰ server p.resolvers
          → AnswersWell (p.dns.fqdn zone) want server past)
      → (after : Net) × (collect_ds p zone keys before ≡ (ok tt, after))
  unfolding collect_ds
  collect_ds-Returns zone keys want before derived good =
      let all = recursive-Returns (p.dns.fqdn zone) want p.resolvers before good in
      (all.0, returns-bind before before want _ _ (returns-lift before want _ derived) all.1)
