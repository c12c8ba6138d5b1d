-- ===== src/Dnsprobe/Parent/Agreed.antt =====
-- `DelegationEvidence` of internal/dnsprobe/probe.go: what the parent has shown when the evidence is given,
-- and the loop that it shares with `NoDSEvidence`.
use mathlib.Core.List.{Memᴰ}
use dnssec_keyrotation.Base.{
  ℕ, zero, suc, ◌≤◌, String, false, not, ◌≡◌, refl, List, [], ◌∷◌, nat_eq, string_eq, ◌==◌, ltb,
  leb, length, arith, contains, equal_lists, equal_lists-eq,
}
use dnssec_keyrotation.Exec.Finds.{
  Finds, Finds-bind, Finds-pure, Finds-fail, Finds-decide, Finds-from, Finds-after, Finds-checked,
  Finds-weaken,
}
use dnssec_keyrotation.Dnsprobe.Message.{Message, type_ns}
use dnssec_keyrotation.Dnsprobe.Network.{Net, Prober}
use dnssec_keyrotation.Dnsprobe.Checks.{unique}
use dnssec_keyrotation.Dnsprobe.Checks.Sound.{not-false}
use dnssec_keyrotation.Dnsprobe.Checks.Distinct.{Distinct, unique-Distinct}
use dnssec_keyrotation.Dnsprobe.Log.{
  IsLasting, Replied, Both, Both-lasting, question, anything, referral_servers-Lasting,
}
use dnssec_keyrotation.Dnsprobe.Referral.{delegated_ns}
use dnssec_keyrotation.Dnsprobe.Parent.{
  Round, Step, empty_round, refer, delegation_step, parent_rounds, collect_delegation, wanted_ns,
  root_servers, referral_depth,
}
use dnssec_keyrotation.Dnsprobe.Parent.Tally.{
  IsEvidence, TwoShow, Tally, Tally-lasts, Counted-skip, Counted-add, ask_all-Tally,
}
use dnssec_keyrotation.Dnsprobe.Parent.Proved.{Finds-last, two-Counted}

module _ {P : String → Net → Type 0} (lasting : (server : String) → IsLasting (P server)) where
  abbrev pub At : ℕ → String → Net → Type 0
  At bound = P

  pub At-IsEvidence : IsEvidence At
  At-IsEvidence = record {
    lasts = λ bound server. lasting server;
    raise = λ low high server net le h. h;
  }

  any_bound : (bound : ℕ) (net : Net) → TwoShow At bound net → TwoShow At 0 net
  any_bound bound net h = record {
    one = h.one;
    another = h.another;
    distinct = h.distinct;
    one_shows = h.one_shows;
    another_shows = h.another_shows;
  }

  pub refer-Tally :
      (p : Prober) (server : String) (servers : List String) (r : Message) (round : Round)
      {H : Net → Type 0}
      → IsLasting H
      → Finds
          (Both (Tally At round (server ∷ servers)) H)
          (λ next. Both (Tally At next servers) H)
          (refer p r round)
  unfolding refer
  refer-Tally p server servers r round kept =
      Finds-after
        (referral_servers-Lasting p (Both-lasting (Tally-lasts At-IsEvidence round _) kept) r)
        λ next. Finds-pure _ λ net h. (Counted-skip At-IsEvidence _ _ server servers net h.0, h.1)

  module _ (p : Prober) (name : String) (typ : ℕ) (step : Step) {H : Net → Type 0}
      (kept : IsLasting H)
      (counts : (server : String) (servers : List String) (r : Message) (round : Round)
        → contains servers server ≡ false
        → Finds
            (Both
              (Replied (question server name typ false) r)
              (Both (Tally At round (server ∷ servers)) H))
            (λ next. Both (Tally At next servers) H)
            (step server r round)) where
    -- The loop returns only when two different servers have shown it in one round.
    pub parent_rounds-TwoShow :
        (what few : String) (rounds : ℕ) (servers : List String)
        → Distinct servers
        → Finds H
            (λ _. Both (TwoShow At 0) H)
            (parent_rounds p what few name typ step rounds servers)
    unfolding parent_rounds
    parent_rounds-TwoShow what few zero servers d = Finds-fail _
    parent_rounds-TwoShow what few (suc rounds) servers d =
        let again = λ (referrals : List String).
          parent_rounds-TwoShow what few rounds (unique referrals) (unique-Distinct referrals) in
        Finds-bind
          (Finds-from (λ net h. (tt, h))
            (ask_all-Tally At-IsEvidence p name typ step kept counts servers empty_round d))
          λ round.
            Finds-decide (leb 2 round.verified)
              (λ e.
                Finds-pure _
                  λ net h. (any_bound _ net (two-Counted _ round.verified _ [] net e h.0), h.1))
              λ none_or_one.
                Finds-decide (ltb 0 round.verified) (λ one. Finds-fail _)
                  λ none_found.
                    Finds-decide (length (unique round.referrals) == 0)
                      (λ e. Finds-last round.last (λ e. Finds-fail e) (Finds-fail _))
                      λ e. Finds-from (λ net h. h.1) (again round.referrals)

module _ (p : Prober) (name : String) (want : List String) where
  -- The server has answered with exactly the wanted names of the delegation.
  pub record DelegatedAt (server : String) (net : Net) : Type 0 where
    pub reply : Message
    pub replied : Replied (question server name type_ns false) reply net
    pub shows : delegated_ns p.dns reply name ≡ want

  DelegatedAt-lasting : (server : String) → IsLasting (DelegatedAt server)
  DelegatedAt-lasting server = record {
    stable = λ e net h. record { reply = h.reply; replied = Memᴰ.tail h.replied; shows = h.shows };
  }

  delegation_step-Tally :
      (server : String) (servers : List String) (r : Message) (round : Round)
      → contains servers server ≡ false
      → Finds
          (Both
            (Replied (question server name type_ns false) r)
            (Both (Tally (At DelegatedAt-lasting) round (server ∷ servers)) (λ _. Unit {0})))
          (λ next. Both (Tally (At DelegatedAt-lasting) next servers) (λ _. Unit {0}))
          (delegation_step p name want server r round)
  unfolding delegation_step
  delegation_step-Tally server servers r round fresh =
      Finds-decide (ltb 0 (length (delegated_ns p.dns r name)))
        (λ some.
          Finds-decide (not (equal_lists (delegated_ns p.dns r name) want)) (λ other. Finds-fail _)
            λ same. Finds-pure _ λ net h. (
              Counted-add (At-IsEvidence DelegatedAt-lasting) round.verified round.highest_ttl _
                  server servers net (omega arith) fresh
                  (record {
                    reply = r;
                    replied = h.0;
                    shows = equal_lists-eq _ want (not-false _ same);
                  })
                  h.1.0,
              tt,
            ))
        λ none.
          Finds-from (λ net h. h.1)
            (refer-Tally DelegatedAt-lasting p server servers r round anything)

-- Two different servers have answered with exactly the wanted names, which are at least two.
pub record DelegationShown (p : Prober) (zone : String) (expected : List String) (net : Net)
    : Type 0 where
  pub enough : 2 ≤ length (wanted_ns p expected)
  pub servers : TwoShow (λ _. DelegatedAt p (p.dns.fqdn zone) (wanted_ns p expected)) 0 net

at_least_two : (n : ℕ) → ltb n 2 ≡ false → 2 ≤ n
at_least_two n e = ground arith

pub collect_delegation-Finds :
    (p : Prober) (zone : String) (expected : List String)
    → Finds
        (λ net. Unit {0})
        (λ _. DelegationShown p zone expected)
        (collect_delegation p zone expected)
unfolding collect_delegation
collect_delegation-Finds p zone expected =
    let name = p.dns.fqdn zone in
    let want = wanted_ns p expected in
    Finds-checked (ltb (length want) 2) _ λ enough.
      Finds-weaken
        (parent_rounds-TwoShow (DelegatedAt-lasting p name want) p name type_ns
          (delegation_step p name want) anything (delegation_step-Tally p name want) _ _
          referral_depth root_servers (refl, (refl, tt)))
        λ _ net shown. record { enough = at_least_two (length want) enough; servers = shown.0 }
