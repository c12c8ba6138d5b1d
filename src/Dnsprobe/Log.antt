-- ===== src/Dnsprobe/Log.antt =====
-- What the probe of internal/dnsprobe/probe.go has asked, and was answered: the log only grows.
pub mod Clock
use dnssec_keyrotation.Base.{
  All, true, false, ℕ, zero, suc, String, Bool, ◌≡◌, refl, subst, List, [], ◌∷◌, nat_eq, not, ◌==◌,
  Option-cases, inl, inr, Assoc,
}
use mathlib.Core.List.{Memᴰ}
use dnssec_keyrotation.Errors.{Result, ok}
use dnssec_keyrotation.Exec.{attempt, fail}
use dnssec_keyrotation.Exec.Keeps.{Keeps, keeps_rules, Keeps-bind, Keeps-pure, Keeps-fail}
use dnssec_keyrotation.Exec.Finds.{
  Finds, Finds-bind, Finds-or_else, Finds-fail, Finds-pure, Finds-decide,
}
use dnssec_keyrotation.Dnsprobe.Message.{Message}
use dnssec_keyrotation.Dnsprobe.Network.{
  N, Net, NetEvent, asked, Prober, Question, exchange, read_clock, query, query_attempts,
  unless_cancelled, check_rcode,
}
use dnssec_keyrotation.Dnsprobe.Referral.{
  referral_servers, first_resolver, resolve, resolve_all, without_glue, first_of,
}
use dnssec_keyrotation.Dnsprobe.Denial.{verify_no_ds}

-- The question was answered so.
abbrev pub Replied : Question → Message → Net → Type 0
Replied q r net = Memᴰ (asked q (ok r)) net

-- A predicate that later events do not change.
pub record IsLasting (H : Net → Type 0) : Type 0 where
  pub stable : (e : NetEvent) (net : Net) → H net → H (e ∷ net)

pub Replied-lasting : (q : Question) (r : Message) → IsLasting (Replied q r)
Replied-lasting q r = record { stable = λ e net m. Memᴰ.tail m }

abbrev pub Both : (Net → Type 0) → (Net → Type 0) → Net → Type 0
Both H K net = H net × K net

pub Both-lasting : {H K : Net → Type 0} → IsLasting H → IsLasting K → IsLasting (Both H K)
Both-lasting lh lk = record { stable = λ e net h. (lh.stable e net h.0, lk.stable e net h.1) }

abbrev pub question : String → String → ℕ → Bool → Question
question server name typ recursive = record {
  server = server;
  name = name;
  type = typ;
  recursive = recursive;
}

All-lasting :
    (P : String → Net → Type 0)
    → ((server : String) → IsLasting (P server))
    → (e : NetEvent) (net : Net) (servers : List String) → All (λ server. P server net) servers
    → All (λ server. P server (e ∷ net)) servers
All-lasting P lasting e net [] all = tt
All-lasting P lasting e net (server ∷ servers) all =
    ((lasting server).stable e net all.0, All-lasting P lasting e net servers all.1)

-- The servers show it, if they are asked at all.
abbrev pub IfIncluded : (String → Net → Type 0) → List String → Bool → Net → Type 0
IfIncluded P servers true net = All (λ server. P server net) servers
IfIncluded P servers false net = Unit {0}

pub Every-lasting :
    {P : String → Net → Type 0}
    → ((server : String) → IsLasting (P server))
    → (servers : List String) → IsLasting (λ net. All (λ server. P server net) servers)
Every-lasting {P} lasting servers = record {
  stable = λ e net all. All-lasting P lasting e net servers all;
}

pub anything : IsLasting (λ net. Unit {0})
anything = record { stable = λ e net h. tt }

module _ (p : Prober) {H : Net → Type 0} (lasting : IsLasting H) where
  pub exchange-Lasting : (q : Question) → Keeps H (exchange p q)
  unfolding exchange
  exchange-Lasting q = record { at = λ net h. lasting.stable _ net h }

  pub read_clock-Lasting : Keeps H (read_clock p)
  unfolding read_clock
  read_clock-Lasting = record { at = λ net h. lasting.stable _ net h }

  unless_cancelled-Keeps : {m : N Message} → Keeps H m → Keeps H (unless_cancelled p m)
  unfolding unless_cancelled fail
  unless_cancelled-Keeps km = record {
    at = λ net h. elim (Option-cases (p.cancelled net)) [
      | inl running ↦ rw (running, unless_cancelled) (km.at net h)
      | inr (e, stopped) ↦ rw (stopped, unless_cancelled) h
    ];
  }

  query_attempts-Lasting : (left : ℕ) (q : Question) → Keeps H (query_attempts p left q)
  unfolding query_attempts
  query_attempts-Lasting zero q = search (keeps_rules, unless_cancelled-Keeps, exchange-Lasting)
  query_attempts-Lasting (suc left) q =
      let again = query_attempts-Lasting left q in
      search (keeps_rules, unless_cancelled-Keeps, exchange-Lasting)

  pub query-Lasting :
      (server name : String) (typ : ℕ) (recursive : Bool)
      → Keeps H (query p server name typ recursive)
  unfolding query
  query-Lasting server name typ recursive = query_attempts-Lasting 2 _

  first_of-Lasting : (resolvers : List String) → Keeps H (first_of resolvers)
  first_of-Lasting [] = Keeps-fail _
  first_of-Lasting (resolver ∷ rest) = Keeps-pure resolver

  pub first_resolver-Lasting : Keeps H (first_resolver p)
  unfolding first_resolver
  first_resolver-Lasting = first_of-Lasting p.resolvers

  resolve_all-Lasting : (names : Assoc Bool) → Keeps H (resolve_all p names)
  unfolding resolve_all resolve
  resolve_all-Lasting [] = Keeps-pure []
  resolve_all-Lasting ((name, below) ∷ names) =
      let rest = resolve_all-Lasting names in
      search (keeps_rules, first_resolver-Lasting, query-Lasting) depth 30

  without_glue-Lasting :
      (names : Assoc Bool) (found : List String) → Keeps H (without_glue p names found)
  unfolding without_glue
  without_glue-Lasting names [] = search (keeps_rules, resolve_all-Lasting)
  without_glue-Lasting names (address ∷ more) = Keeps-pure _

  pub referral_servers-Lasting : (r : Message) → Keeps H (referral_servers p r)
  unfolding referral_servers
  referral_servers-Lasting r = without_glue-Lasting _ _

  pub verify_no_ds-Lasting :
      (response : Message) (name resolver : String) (require_aa : Bool)
      → Keeps H (verify_no_ds p response name resolver require_aa)
  unfolding verify_no_ds
  verify_no_ds-Lasting response name resolver require_aa =
      search (keeps_rules, query-Lasting, read_clock-Lasting) depth 30

pub ruleset net_rules = (
  keeps_rules, read_clock-Lasting, query-Lasting, first_resolver-Lasting, referral_servers-Lasting,
  verify_no_ds-Lasting,
)

module _ (p : Prober) {H : Net → Type 0} (lasting : IsLasting H) where
  exchange-Replied :
      (q : Question) → Finds H (λ o net. Memᴰ (asked q o) net × H net) (attempt (exchange p q))
  unfolding attempt exchange
  exchange-Replied q = record { at = λ net h. (Memᴰ.head refl, lasting.stable _ net h) }

  unless_cancelled-Finds :
      {K : Net → Type 0} {Q : Message → Net → Type 0} {m : N Message}
      → Finds K Q m
      → Finds K Q (unless_cancelled p m)
  unfolding unless_cancelled fail
  unless_cancelled-Finds fm = record {
    at = λ net h. elim (Option-cases (p.cancelled net)) [
      | inl running ↦ rw (running, unless_cancelled) (fm.at net h)
      | inr (e, stopped) ↦ rw (stopped, unless_cancelled) tt
    ];
  }

  -- What a reply that came back says of the log.
  abbrev pub Answered : Question → Message → Net → Type 0
  Answered q r net = Replied q r net × H net

  check_rcode-Finds :
      (q : Question) (o : Result Message) (r : Message)
      → o ≡ ok r
      → Finds (λ net. Memᴰ (asked q o) net × H net) (Answered q) (check_rcode r)
  check_rcode-Finds q o r same =
      Finds-decide (not (r.rcode == 0)) (λ bad. Finds-fail _)
        (λ good. Finds-pure r (λ net h. (subst (λ x. Memᴰ (asked q x) net) same h.0, h.1)))

  forget_outcome :
      {A : Type 0} {q : Question} {o : Result Message} {Q : A → Net → Type 0} {m : N A}
      → Finds H Q m
      → Finds (λ net. Memᴰ (asked q o) net × H net) Q m
  forget_outcome fm = record { at = λ net h. fm.at net h.1 }

  query_attempts-Finds : (left : ℕ) (q : Question) → Finds H (Answered q) (query_attempts p left q)
  unfolding query_attempts
  query_attempts-Finds zero q = Finds-bind (exchange-Replied q) λ o.
      Finds-or_else o (λ e same. unless_cancelled-Finds (Finds-fail e))
        (λ r same. check_rcode-Finds q o r same)
  query_attempts-Finds (suc left) q =
      let again = query_attempts-Finds left q in
      Finds-bind (exchange-Replied q) λ o.
        Finds-or_else o (λ e same. unless_cancelled-Finds (forget_outcome again))
          (λ r same. check_rcode-Finds q o r same)

  -- A query that returns was answered so.
  pub query-Finds :
      (server name : String) (typ : ℕ) (recursive : Bool)
      → Finds H
          (Answered (record { server = server; name = name; type = typ; recursive = recursive }))
          (query p server name typ recursive)
  unfolding query
  query-Finds server name typ recursive = query_attempts-Finds 2 _
