-- ===== src/Dnsprobe/Network.antt =====
-- `Probe` and `query` of internal/dnsprobe/probe.go: what the probe is given, and how it asks.
pub mod Retries
use dnssec_keyrotation.Base.{
  ℕ, zero, suc, String, Bool, Option, none, some, List, [], ◌∷◌, nat_eq, ◌==◌, not, if◌then◌else◌,
}
use dnssec_keyrotation.Errors.{Error, Result, ok, errorf, num}
use dnssec_keyrotation.Model.{Time}
use dnssec_keyrotation.Api.{DnsLibrary}
use dnssec_keyrotation.Exec.{Action, pure, fail, attempt, or_else, ◌>>=◌}
use dnssec_keyrotation.Dnsprobe.Message.{Message, RrLibrary}

pub record Question : Type 0 where
  pub server : String
  pub name : String
  pub type : ℕ
  pub recursive : Bool

-- An exchange with its reply, or a reading of the clock.
pub data NetEvent : Type 0 where
  asked : Question → Result Message → NetEvent
  clock_read : NetEvent

-- The latest event comes first.
abbrev pub Net : Type 0
Net = List NetEvent

-- An action of the probe.
abbrev pub N : Type 0 → Type 0
N = Action Net

-- The struct `Probe`, with what it calls: `ExchangeContext`, `ctx.Err`, the clock and the libraries. A
-- reply may depend on all that was asked before.
pub record Prober : Type 0 where
  pub resolvers : List String
  pub authoritative : List String
  pub local_server : String
  pub exchange : Net → Question → Result Message
  pub cancelled : Net → Option Error
  pub clock : Net → Time
  pub dns : DnsLibrary
  pub rr : RrLibrary

-- a reply with an error code is an error
abbrev pub check_rcode : Message → N Message
check_rcode r = if not (r.rcode == 0) then fail (errorf "rcode %s" (num r.rcode ∷ [])) else pure r

module _ (p : Prober) where
  -- `time.Now().UTC()`
  unfoldable pub read_clock : N Time
  read_clock net = (ok (p.clock net), clock_read ∷ net)

  unfoldable pub exchange : Question → N Message
  exchange q net = let reply = p.exchange net q in (reply, asked q reply ∷ net)

  -- `if ctx.Err() != nil { return nil, ctx.Err() }` after an exchange that failed with an error
  unfoldable pub unless_cancelled : N Message → N Message
  unless_cancelled rest net = elim (p.cancelled net) [ none ↦ rest net | some e ↦ fail e net ]

  -- the loop of `query`, with the number of attempts that are left after the next one
  unfoldable pub query_attempts : ℕ → Question → N Message
  unfolding exchange unless_cancelled
  query_attempts zero q = do
    outcome ← attempt (exchange q)
    or_else outcome (λ e. unless_cancelled (fail e)) check_rcode
  query_attempts (suc left) q = do
    outcome ← attempt (exchange q)
    or_else outcome (λ e. unless_cancelled (query_attempts left q)) check_rcode

  -- `query`
  unfoldable pub query : String → String → ℕ → Bool → N Message
  unfolding query_attempts
  query server name typ recursive =
      query_attempts 2 (record { server = server; name = name; type = typ; recursive = recursive })
