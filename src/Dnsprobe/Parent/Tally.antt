-- ===== src/Dnsprobe/Parent/Tally.antt =====
-- The loops of internal/dnsprobe/probe.go over the servers of a round: the servers that have counted.
use dnssec_keyrotation.Base.{
  ℕ, zero, suc, ◌+◌, ◌≤◌, String, false, ◌≡◌, subst, arith, List, [], ◌∷◌, string_eq, ◌==◌,
  contains,
}
use dnssec_keyrotation.Exec.Finds.{
  Finds, Finds-bind, Finds-pure, Finds-outcome, Finds-either, Finds-from,
}
use dnssec_keyrotation.Dnsprobe.Message.{Message}
use dnssec_keyrotation.Dnsprobe.Network.{Net, Prober}
use dnssec_keyrotation.Dnsprobe.Checks.Distinct.{Distinct, differs, rest-contains}
use dnssec_keyrotation.Dnsprobe.Log.{
  IsLasting, Replied, Both, Both-lasting, question, query-Finds, query-Lasting,
}
use dnssec_keyrotation.Dnsprobe.Parent.{Round, Step, ask_all, failed_with}

-- What a server shows with a TTL, later as well, and for a higher bound.
pub record IsEvidence (P : ℕ → String → Net → Type 0) : Type 0 where
  pub lasts : (bound : ℕ) (server : String) → IsLasting (P bound server)
  pub raise :
      (low high : ℕ) (server : String) (net : Net)
      → low ≤ high
      → P low server net
      → P high server net

module _ (P : ℕ → String → Net → Type 0) where
  -- Two different servers show it.
  pub record TwoShow (bound : ℕ) (net : Net) : Type 0 where
    pub one : String
    pub another : String
    pub distinct : (one == another) ≡ false
    pub one_shows : P bound one net
    pub another_shows : P bound another net

  -- A server that is not asked again shows it.
  pub record OneShows (bound : ℕ) (servers : List String) (net : Net) : Type 0 where
    pub one : String
    pub asked_before : contains servers one ≡ false
    pub one_shows : P bound one net

  -- The servers that have been counted, while the others are still to be asked.
  abbrev pub Counted : ℕ → ℕ → List String → Net → Type 0
  Counted zero bound servers net = Unit {0}
  Counted (suc zero) bound servers net = OneShows bound servers net
  Counted (suc (suc n)) bound servers net = TwoShow bound net

  abbrev pub Tally : Round → List String → Net → Type 0
  Tally round servers net = Counted round.verified round.highest_ttl servers net

module _ {P : ℕ → String → Net → Type 0} (evidence : IsEvidence P) where
  Counted-lasts : (n bound : ℕ) (servers : List String) → IsLasting (Counted P n bound servers)
  Counted-lasts zero bound servers = record { stable = λ e net h. tt }
  Counted-lasts (suc zero) bound servers = record {
    stable = λ e net h. record {
      one = h.one;
      asked_before = h.asked_before;
      one_shows = (evidence.lasts bound h.one).stable e net h.one_shows;
    };
  }
  Counted-lasts (suc (suc n)) bound servers = record {
    stable = λ e net h. record {
      one = h.one;
      another = h.another;
      distinct = h.distinct;
      one_shows = (evidence.lasts bound h.one).stable e net h.one_shows;
      another_shows = (evidence.lasts bound h.another).stable e net h.another_shows;
    };
  }

  pub Tally-lasts : (round : Round) (servers : List String) → IsLasting (Tally P round servers)
  Tally-lasts round servers = Counted-lasts round.verified round.highest_ttl servers

  -- A server that does not count.
  pub Counted-skip :
      (n bound : ℕ) (server : String) (servers : List String) (net : Net)
      → Counted P n bound (server ∷ servers) net
      → Counted P n bound servers net
  Counted-skip zero bound server servers net h = tt
  Counted-skip (suc zero) bound server servers net h = record {
    one = h.one;
    asked_before = rest-contains server h.one servers h.asked_before;
    one_shows = h.one_shows;
  }
  Counted-skip (suc (suc n)) bound server servers net h = h

  Counted-raise :
      (n low high : ℕ) (servers : List String) (net : Net)
      → low ≤ high
      → Counted P n low servers net
      → Counted P n high servers net
  Counted-raise zero low high servers net le h = tt
  Counted-raise (suc zero) low high servers net le h = record {
    one = h.one;
    asked_before = h.asked_before;
    one_shows = evidence.raise low high h.one net le h.one_shows;
  }
  Counted-raise (suc (suc n)) low high servers net le h = record {
    one = h.one;
    another = h.another;
    distinct = h.distinct;
    one_shows = evidence.raise low high h.one net le h.one_shows;
    another_shows = evidence.raise low high h.another net le h.another_shows;
  }

  count_one :
      (n bound : ℕ) (server : String) (servers : List String) (net : Net)
      → contains servers server ≡ false
      → P bound server net
      → Counted P n bound (server ∷ servers) net
      → Counted P (suc n) bound servers net
  count_one zero bound server servers net fresh shows h = record {
    one = server;
    asked_before = fresh;
    one_shows = shows;
  }
  count_one (suc zero) bound server servers net fresh shows h = record {
    one = server;
    another = h.one;
    distinct = differs server h.one servers h.asked_before;
    one_shows = shows;
    another_shows = h.one_shows;
  }
  count_one (suc (suc n)) bound server servers net fresh shows h = h

  suc_add : (n : ℕ) → suc n ≡ n + 1
  suc_add n = omega arith

  -- A server that counts, at a bound that may be higher.
  pub Counted-add :
      (n low high : ℕ) (server : String) (servers : List String) (net : Net)
      → low ≤ high
      → contains servers server ≡ false
      → P high server net
      → Counted P n low (server ∷ servers) net
      → Counted P (n + 1) high servers net
  Counted-add n low high server servers net le fresh shows h =
      subst (λ m. Counted P m high servers net) (suc_add n)
        (count_one n high server servers net fresh shows
          (Counted-raise n low high (server ∷ servers) net le h))

  module _ (p : Prober) (name : String) (typ : ℕ) (step : Step) {H : Net → Type 0}
      (lasting : IsLasting H)
      (counts : (server : String) (servers : List String) (r : Message) (round : Round)
        → contains servers server ≡ false
        → Finds
            (Both
              (Replied (question server name typ false) r)
              (Both (Tally P round (server ∷ servers)) H))
            (λ next. Both (Tally P next servers) H)
            (step server r round)) where
    -- A round that returns has counted two different servers, if it has counted two.
    pub ask_all-Tally :
        (servers : List String) (round : Round)
        → Distinct servers
        → Finds
            (Both (Tally P round servers) H)
            (λ next. Both (Tally P next []) H)
            (ask_all p name typ step round servers)
    unfolding ask_all
    ask_all-Tally [] round d = Finds-pure round λ net h. h
    ask_all-Tally (server ∷ servers) round d =
        let kept = Both-lasting (Tally-lasts round (server ∷ servers)) lasting in
        Finds-bind
          (Finds-outcome (query-Finds p kept server name typ false)
            (query-Lasting p kept server name typ false))
          λ outcome.
            Finds-bind
              (Finds-either outcome
                (λ e.
                  Finds-pure (failed_with e round)
                    λ net h. (Counted-skip _ _ server servers net h.0, h.1))
                (λ r. Finds-from (λ net h. h.0) (counts server servers r round d.0)))
              λ next. ask_all-Tally servers next d.1
