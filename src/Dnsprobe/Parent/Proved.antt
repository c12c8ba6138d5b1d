-- ===== src/Dnsprobe/Parent/Proved.antt =====
-- `AuthoritativeDSEvidence` and `DelegationEvidence` of internal/dnsprobe/probe.go: what the parent has
-- shown when the evidence is given.
use mathlib.Core.List.{Memᴰ}
use dnssec_keyrotation.Base.{
  ℕ, zero, suc, ◌*◌, ◌≤◌, ◌<◌, String, true, false, ◌&&◌, ◌≡◌, refl, Option, none, some, List, [],
  ◌∷◌, nat_eq, string_eq, ◌==◌, ltb, leb, length, if◌then◌else◌, arith, and_true, contains,
}
use dnssec_keyrotation.Base.Order.{Slashed}
use dnssec_keyrotation.Errors.{Error, ok}
use dnssec_keyrotation.Model.{Key, Duration, second}
use dnssec_keyrotation.Exec.{Action}
use dnssec_keyrotation.Exec.Keeps.{Keeps-lift}
use dnssec_keyrotation.Exec.Finds.{
  Finds, Finds-bind, Finds-pure, Finds-fail, Finds-lift, Finds-decide, Finds-outcome, Finds-either,
  Finds-from, Finds-after, Finds-weaken, Finds-computed,
}
use dnssec_keyrotation.Dnsprobe.Message.{Message, type_ds, type_soa}
use dnssec_keyrotation.Dnsprobe.Network.{Net, Prober}
use dnssec_keyrotation.Dnsprobe.Checks.{expected_ds, rrset_ttl, has_type, unique}
use dnssec_keyrotation.Dnsprobe.Checks.Sound.{ShowsDs, exact_ds-ShowsDs}
use dnssec_keyrotation.Dnsprobe.Checks.Distinct.{Distinct, unique-Distinct}
use dnssec_keyrotation.Dnsprobe.Log.{Replied, Both, question, anything, referral_servers-Lasting}
use dnssec_keyrotation.Dnsprobe.Parent.{
  Round, empty_round, ds_step, ds_refer, ds_rounds, collect_parent_ds, root_servers, referral_depth,
}
use dnssec_keyrotation.Dnsprobe.Parent.Tally.{
  IsEvidence, TwoShow, Counted, Tally, Tally-lasts, Counted-skip, Counted-add, ask_all-Tally,
}

module _ {S A : Type 0} {H : S → Type 0} {Q : A → S → Type 0} where
  pub Finds-last :
      (o : Option Error) {f : Error → Action S A} {m : Action S A}
      → ((e : Error) → Finds H Q (f e))
      → Finds H Q m
      → Finds H Q (elim o [ some e ↦ f e | none ↦ m ])
  Finds-last none ff fm = fm
  Finds-last (some e) ff fm = ff e

above :
    (low observed : ℕ)
    → (low ≤ (if ltb low observed then observed else low))
      × (observed ≤ (if ltb low observed then observed else low))
above low observed = ground arith

pub two-Counted :
    (P : ℕ → String → Net → Type 0) (n bound : ℕ) (servers : List String) (net : Net)
    → leb 2 n ≡ true
    → Counted P n bound servers net
    → TwoShow P bound net
two-Counted P zero bound servers net e h = cc
two-Counted P (suc zero) bound servers net e h = cc
two-Counted P (suc (suc n)) bound servers net e h = h

module _ (p : Prober) (name : String) where
  -- The server has answered authoritatively with exactly the wanted DS records, and a TTL in the bound.
  pub record ParentDsAt (want : List Slashed) (bound : ℕ) (server : String) (net : Net)
      : Type 0 where
    pub reply : Message
    pub replied : Replied (question server name type_ds false) reply net
    pub shows : ShowsDs p.dns p.rr reply want true
    pub bounded : rrset_ttl reply.answer type_ds ≤ bound

  module _ (want : List Slashed) where
    ParentDsAt-IsEvidence : IsEvidence (ParentDsAt want)
    ParentDsAt-IsEvidence = record {
      lasts = λ bound server. record {
        stable = λ e net h. record {
          reply = h.reply;
          replied = Memᴰ.tail h.replied;
          shows = h.shows;
          bounded = h.bounded;
        };
      };
      raise = λ low high server net le h. record {
        reply = h.reply;
        replied = h.replied;
        shows = h.shows;
        bounded = let bounded = h.bounded in omega arith;
      };
    }

    ds_refer-Tally :
        (server : String) (servers : List String) (r : Message) (round : Round)
        → Finds
            (Tally (ParentDsAt want) round (server ∷ servers))
            (λ next net. Tally (ParentDsAt want) next servers net × Unit {0})
            (ds_refer p name r round)
    unfolding ds_refer
    ds_refer-Tally server servers r round =
        let skip = λ (net : Net). Counted-skip ParentDsAt-IsEvidence _ _ server servers net in
        Finds-after (referral_servers-Lasting p (Tally-lasts ParentDsAt-IsEvidence round _) r)
          λ next.
            Finds-decide (ltb 0 (length next)) (λ e. Finds-pure _ λ net h. (skip net h, tt))
              λ e.
                Finds-decide (has_type r.authority type_soa) (λ soa. Finds-fail _)
                  λ nothing. Finds-pure _ λ net h. (skip net h, tt)

    ds_step-Tally :
        (server : String) (servers : List String) (r : Message) (round : Round)
        → contains servers server ≡ false
        → Finds
            (Both
              (Replied (question server name type_ds false) r)
              (Both (Tally (ParentDsAt want) round (server ∷ servers)) (λ _. Unit {0})))
            (λ next net. Tally (ParentDsAt want) next servers net × Unit {0})
            (ds_step p name want server r round)
    unfolding ds_step
    ds_step-Tally server servers r round fresh =
        Finds-decide (has_type r.answer type_ds)
          (λ present.
            Finds-bind
              (Finds-outcome {Q = λ _ _. ShowsDs p.dns p.rr r want true}
                (Finds-lift _ λ _ e net h. (exact_ds-ShowsDs p.dns p.rr r want name true).at tt e)
                (Keeps-lift _))
              λ outcome.
                Finds-either outcome
                  (λ e.
                    Finds-pure _ λ net h.
                      (Counted-skip ParentDsAt-IsEvidence _ _ server servers net h.1.0, tt))
                  (λ _. Finds-pure _ λ net h. (
                    let higher = above round.highest_ttl (rrset_ttl r.answer type_ds) in
                        Counted-add ParentDsAt-IsEvidence round.verified round.highest_ttl _ server
                          servers net higher.0 fresh
                          (record { reply = r; replied = h.1.0; shows = h.0; bounded = higher.1 })
                          h.1.1.0,
                    tt,
                  )))
          λ absent. Finds-from (λ net h. h.1.0) (ds_refer-Tally server servers r round)

  -- Two different servers have shown the DS records, and the duration is the highest TTL.
  pub record ParentShows (want : List Slashed) (d : Duration) (net : Net) : Type 0 where
    pub ttl : ℕ
    pub value : d ≡ ttl * second
    pub positive : 0 < ttl
    pub servers : TwoShow (ParentDsAt want) ttl net

  positive_max : (n : ℕ) → ltb 0 n ≡ true → 0 < n
  positive_max n e = ground arith

  ds_rounds-ParentShows :
      (want : List Slashed) (rounds : ℕ) (servers : List String)
      → Distinct servers
      → Finds (λ net. Unit {0}) (ParentShows want) (ds_rounds p name want rounds servers)
  unfolding ds_rounds
  ds_rounds-ParentShows want zero servers d = Finds-fail _
  ds_rounds-ParentShows want (suc rounds) servers d =
      let again = λ (referrals : List String).
        ds_rounds-ParentShows want rounds (unique referrals) (unique-Distinct referrals) in
      Finds-bind
        (Finds-from (λ net h. (tt, h))
          (ask_all-Tally (ParentDsAt-IsEvidence want) p name type_ds (ds_step p name want) anything
            (ds_step-Tally want) servers empty_round d))
        λ round.
          Finds-decide (leb 2 round.verified && ltb 0 round.highest_ttl)
            (λ e. Finds-pure _ λ net h. record {
              ttl = round.highest_ttl;
              value = refl;
              positive = positive_max _ (and_true _ _ e).1;
              servers = two-Counted _ round.verified _ [] net (and_true _ _ e).0 h.0;
            })
            λ few.
              Finds-decide (ltb 0 round.verified) (λ one. Finds-fail _)
                λ none_found.
                  Finds-last round.last (λ e. Finds-fail e)
                    (Finds-decide (length (unique round.referrals) == 0) (λ e. Finds-fail _)
                      λ e. Finds-from (λ net h. tt) (again round.referrals))

module _ (p : Prober) where
  -- The parent's side of the DS records of the keys.
  pub record ParentDsShown (zone : String) (keys : List Key) (d : Duration) (net : Net)
      : Type 0 where
    pub want : List Slashed
    pub derived : expected_ds p.dns p.rr (p.dns.fqdn zone) keys ≡ ok want
    pub shown : ParentShows p (p.dns.fqdn zone) want d net

  pub collect_parent_ds-Finds :
      (zone : String) (keys : List Key)
      → Finds (λ net. Unit {0}) (ParentDsShown zone keys) (collect_parent_ds p zone keys)
  unfolding collect_parent_ds
  collect_parent_ds-Finds zone keys = Finds-computed _ λ want derived.
      Finds-weaken
        (ds_rounds-ParentShows p (p.dns.fqdn zone) want referral_depth root_servers
          (refl, (refl, tt)))
        λ d net shown. record { want = want; derived = derived; shown = shown }
