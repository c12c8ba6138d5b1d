-- ===== src/Dnsprobe/Parent.antt =====
-- The iterative lookups at the parent: `AuthoritativeDSEvidence`, `NoDSEvidence` and `DelegationEvidence`
-- of internal/dnsprobe/probe.go. Each follows at most twelve referrals from the root.
pub mod Tally
pub mod Proved
pub mod Agreed
pub mod Absence
use dnssec_keyrotation.Base.{
  ℕ, zero, suc, ◌+◌, ◌*◌, String, true, false, not, ◌&&◌, Option, none, some, List, [], ◌∷◌, ◌++◌,
  map, length, nat_eq, string_eq, ◌==◌, ltb, leb, equal_lists, if◌then◌else◌,
}
use dnssec_keyrotation.Base.Order.{Slashed}
use dnssec_keyrotation.Base.Text.{to_lower, trim_space, sort, compact}
use dnssec_keyrotation.Errors.{Error, errorf, new_error, reject_if, str, num, wrapf}
use dnssec_keyrotation.Model.{Key, Duration, second}
use dnssec_keyrotation.Exec.{pure, fail, lift, attempt, in_contextf, or_else, ◌>>=◌, ◌>>◌}
use dnssec_keyrotation.Dnsprobe.Message.{Message, type_ds, type_soa, type_ns}
use dnssec_keyrotation.Dnsprobe.Network.{N, Prober, query}
use dnssec_keyrotation.Dnsprobe.Checks.{expected_ds, exact_ds, rrset_ttl, has_type, unique}
use dnssec_keyrotation.Dnsprobe.Denial.{verify_no_ds}
use dnssec_keyrotation.Dnsprobe.Referral.{referral_servers, first_resolver, delegated_ns}

-- two of the root servers
abbrev pub root_servers : List String
root_servers = "198.41.0.4:53" ∷ "[2001:503:ba3e::2:30]:53" ∷ []

-- the bound of the loops over the depth
abbrev pub referral_depth : ℕ
referral_depth = 12

-- The variables of one round: the servers that gave the evidence, the next servers, the last error, and
-- the highest TTL of the evidence.
pub record Round : Type 0 where
  pub verified : ℕ
  pub referrals : List String
  pub last : Option Error
  pub highest_ttl : ℕ

abbrev pub empty_round : Round
empty_round = record { verified = 0; referrals = []; last = none; highest_ttl = 0 }

abbrev pub failed_with : Error → Round → Round
failed_with e round = record round { last = some e }

-- What a reply adds to a round.
abbrev pub Step : Type 0
Step = String → Message → Round → N Round

module _ (p : Prober) where
  -- one round: every server is asked; a failed query is the last error
  unfoldable pub ask_all : String → ℕ → Step → Round → List String → N Round
  ask_all name typ step round [] = pure round
  ask_all name typ step round (server ∷ servers) = do
    outcome ← attempt (query p server name typ false)
    next ← or_else outcome (λ e. pure (failed_with e round)) (λ r. step server r round)
    ask_all name typ step next servers

  -- the servers that a referral names
  unfoldable pub refer : Message → Round → N Round
  unfolding referral_servers
  refer r round = do
    next ← referral_servers p r
    pure (record round { referrals = round.referrals ++ next })

  -- the body of the loop of `AuthoritativeDSEvidence`
  unfoldable pub ds_refer : String → Message → Round → N Round
  unfolding referral_servers has_type
  ds_refer name r round = do
    next ← referral_servers p r
    if ltb 0 (length next)
        then pure (record round { referrals = round.referrals ++ next })
        else if has_type r.authority type_soa
        then fail (errorf "authoritative parent has no DS for %s" (str name ∷ []))
        else pure round

  unfoldable pub ds_step : String → List Slashed → Step
  unfolding exact_ds rrset_ttl has_type ds_refer
  ds_step name want server r round =
      if has_type r.answer type_ds
      then (do
        outcome ← attempt (lift (exact_ds p.dns p.rr r want name true))
        or_else outcome
            (λ e. pure (failed_with (wrapf "parent DS via %s" (str server ∷ []) e) round))
            (λ _. pure (record round {
              verified = round.verified + 1;
              highest_ttl =
                  if ltb round.highest_ttl (rrset_ttl r.answer type_ds)
                  then rrset_ttl r.answer type_ds
                  else round.highest_ttl;
            })))
      else ds_refer name r round

  -- the loop over the depth, for `rounds` more rounds
  unfoldable pub ds_rounds : String → List Slashed → ℕ → List String → N Duration
  unfolding ask_all ds_step unique
  ds_rounds name want zero servers = fail (new_error "iterative DS lookup exceeded referral depth")
  ds_rounds name want (suc rounds) servers = do
    round ← ask_all name type_ds (ds_step name want) empty_round servers
    if leb 2 round.verified && ltb 0 round.highest_ttl
        then pure (round.highest_ttl * second)
        else if ltb 0 round.verified
        then fail (
            errorf "only %d authoritative parent DS answer(s); need at least two"
              (num round.verified ∷ []))
        else elim round.last [
          | some e ↦ fail e
          | none ↦
              if length (unique round.referrals) == 0
              then fail (new_error "iterative DS lookup has no referral servers")
              else ds_rounds name want rounds (unique round.referrals)
        ]

  -- `AuthoritativeDSEvidence`
  unfoldable pub collect_parent_ds : String → List Key → N Duration
  unfolding ds_rounds expected_ds
  collect_parent_ds zone keys = do
    let name = p.dns.fqdn zone
    want ← lift (expected_ds p.dns p.rr name keys)
    ds_rounds name want referral_depth root_servers

  -- the body of the loop of `NoDSEvidence`
  unfoldable pub no_ds_step : String → Step
  unfolding has_type verify_no_ds first_resolver refer
  no_ds_step name server r round =
      if has_type r.answer type_ds
      then fail (errorf "authoritative parent already has DS for %s" (str name ∷ []))
      else if has_type r.authority type_soa
      then (do
        resolver ← first_resolver p
        outcome ← attempt (verify_no_ds p r name resolver true)
        or_else outcome
            (λ e. pure (failed_with (wrapf "parent no-DS via %s" (str server ∷ []) e) round))
            (λ _. pure (record round { verified = round.verified + 1 })))
      else refer r round

  -- the body of the loop of `DelegationEvidence`
  unfoldable pub delegation_step : String → List String → Step
  unfolding delegated_ns refer equal_lists
  delegation_step name want server r round =
      let got = delegated_ns p.dns r name in
      if ltb 0 (length got)
      then (if not (equal_lists got want)
          then fail (errorf "parent delegation via %s is %v, want %v" (str server ∷ []))
          else pure (record round { verified = round.verified + 1 }))
      else refer r round

  -- the loop over the depth that `NoDSEvidence` and `DelegationEvidence` share; `what` is the word of
  -- their errors, `few` the format of the error on a single proof
  unfoldable pub parent_rounds :
      String → String → String → ℕ → Step → ℕ → List String → N (Unit {0})
  unfolding ask_all unique
  parent_rounds what few name typ step zero servers =
      fail (errorf "iterative %s lookup exceeded referral depth" (str what ∷ []))
  parent_rounds what few name typ step (suc rounds) servers = do
    round ← ask_all name typ step empty_round servers
    if leb 2 round.verified
        then pure tt
        else if ltb 0 round.verified
        then fail (errorf few (num round.verified ∷ []))
        else if length (unique round.referrals) == 0
        then elim round.last [
          | some e ↦ fail e
          | none ↦ fail (errorf "iterative %s lookup has no referral servers" (str what ∷ []))
        ]
        else parent_rounds what few name typ step rounds (unique round.referrals)

  -- the answers of the resolvers
  unfoldable pub recursive_no_ds : String → List String → N (Unit {0})
  unfolding verify_no_ds
  recursive_no_ds name [] = pure tt
  recursive_no_ds name (resolver ∷ resolvers) = do
    r ←
        in_contextf "recursive no-DS via %s" (str resolver ∷ [])
          (query p resolver name type_ds true)
    in_contextf "recursive no-DS via %s" (str resolver ∷ []) (verify_no_ds p r name resolver false)
    recursive_no_ds name resolvers

  -- `NoDSEvidence`
  unfoldable pub collect_no_ds : String → N (Unit {0})
  unfolding recursive_no_ds parent_rounds no_ds_step
  collect_no_ds zone = do
    let name = p.dns.fqdn zone
    lift (
        reject_if (ltb (length p.resolvers) 2)
          (new_error "at least two validating resolvers are required for no-DS evidence"))
    recursive_no_ds name p.resolvers
    parent_rounds "no-DS" "only %d authoritative parent no-DS proof(s); need at least two" name
        type_ds (no_ds_step name) referral_depth root_servers

  -- the names that `DelegationEvidence` wants
  unfoldable pub wanted_ns : List String → List String
  unfolding to_lower trim_space sort compact
  wanted_ns expected =
      compact (sort (map (λ item. to_lower (p.dns.fqdn (trim_space item))) expected))

  -- `DelegationEvidence`
  unfoldable pub collect_delegation : String → List String → N (Unit {0})
  unfolding parent_rounds delegation_step wanted_ns
  collect_delegation zone expected = do
    let name = p.dns.fqdn zone
    lift (
        reject_if (ltb (length (wanted_ns expected)) 2)
          (new_error "at least two expected delegated nameservers are required"))
    parent_rounds "delegation" "only %d exact parent delegation answer(s); need at least two" name
        type_ns (delegation_step name (wanted_ns expected)) referral_depth root_servers
