-- ===== src/Dnsprobe/Network/Retries.antt =====
-- The loop of `query` of internal/dnsprobe/probe.go as a relation: how the attempts may go.
use dnssec_keyrotation.Base.{
  ℕ, zero, suc, ◌+◌, ◌≤◌, ◌<◌, String, Bool, true, false, not, ◌≡◌, refl, Option, none, some, [],
  ◌∷◌, nat_eq, ◌==◌, length, arith, if◌then◌else◌,
}
use dnssec_keyrotation.Errors.{Error, Result, ok, err, errorf, num}
use dnssec_keyrotation.Exec.{attempt, or_else, fail, pure, ◌>>=◌}
use dnssec_keyrotation.Dnsprobe.Message.{Message}
use dnssec_keyrotation.Dnsprobe.Network.{
  N, Net, asked, Prober, Question, exchange, unless_cancelled, check_rcode, query_attempts, query,
}

module _ (p : Prober) (q : Question) where
  -- What the attempts give from a log, with the number that may still follow the next one.
  pub data Tries : ℕ → Net → Result Message → Net → Type 0 where
    answered :
        (left : ℕ) (net : Net) (r : Message)
        → p.exchange net q ≡ ok r
        → (r.rcode == 0) ≡ true
        → Tries left net (ok r) (asked q (ok r) ∷ net)
    -- an error code is not tried again
    refused :
        (left : ℕ) (net : Net) (r : Message)
        → p.exchange net q ≡ ok r
        → (r.rcode == 0) ≡ false
        → Tries left net (err (errorf "rcode %s" (num r.rcode ∷ []))) (asked q (ok r) ∷ net)
    -- the context ended; its error is the result
    stopped :
        (left : ℕ) (net : Net) (e cause : Error)
        → p.exchange net q ≡ err e
        → p.cancelled (asked q (err e) ∷ net) ≡ some cause
        → Tries left net (err cause) (asked q (err e) ∷ net)
    -- the last attempt failed; its error is the result
    exhausted :
        (net : Net) (e : Error)
        → p.exchange net q ≡ err e
        → p.cancelled (asked q (err e) ∷ net) ≡ none
        → Tries 0 net (err e) (asked q (err e) ∷ net)
    retried :
        (left : ℕ) (net : Net) (e : Error) (out : Result Message) (after : Net)
        → p.exchange net q ≡ err e
        → p.cancelled (asked q (err e) ∷ net) ≡ none
        → Tries left (asked q (err e) ∷ net) out after
        → Tries (suc left) net out after

  abbrev pub Gives : ℕ → Net → Result Message × Net → Type 0
  Gives left net out = Tries left net out.0 out.1

  module _ (left : ℕ) (net : Net) where
    after_reply :
        (r : Message) (b : Bool)
        → p.exchange net q ≡ ok r
        → (r.rcode == 0) ≡ b
        → Gives left net (
            (if not b then fail (errorf "rcode %s" (num r.rcode ∷ [])) else pure r)
              (asked q (ok r) ∷ net))
    unfolding fail pure
    after_reply r true e code = answered left net r e code
    after_reply r false e code = refused left net r e code

    after_error :
        (rest : N Message) (e : Error) (c : Option Error)
        → p.exchange net q ≡ err e
        → p.cancelled (asked q (err e) ∷ net) ≡ c
        → (c ≡ none → Gives left net (rest (asked q (err e) ∷ net)))
        → Gives left net (elim c [
          | none ↦ rest (asked q (err e) ∷ net)
          | some cause ↦ fail cause (asked q (err e) ∷ net)
        ])
    unfolding fail
    after_error rest e none failed running go = go refl
    after_error rest e (some cause) failed ended go = stopped left net e cause failed ended

    after_outcome :
        (rest : Error → N Message) (o : Result Message)
        → p.exchange net q ≡ o
        → ((e : Error)
            → p.exchange net q ≡ err e
            → p.cancelled (asked q (err e) ∷ net) ≡ none
            → Gives left net (rest e (asked q (err e) ∷ net)))
        → Gives left net
            (or_else o (λ e. unless_cancelled p (rest e)) check_rcode (asked q o ∷ net))
    unfolding or_else unless_cancelled
    after_outcome rest (ok r) e again = after_reply r _ e refl
    after_outcome rest (err x) e again = after_error (rest x) x _ e refl (again x e)

  query_attempts-Tries : (left : ℕ) (net : Net) → Gives left net (query_attempts p left q net)
  unfolding query_attempts ◌>>=◌ attempt exchange
  query_attempts-Tries zero net =
      after_outcome 0 net (λ e. fail e) _ refl (λ e failed running. exhausted net e failed running)
  query_attempts-Tries (suc left) net = after_outcome (suc left) net _ _ refl (λ e failed running.
      retried left net e _ _ failed running (query_attempts-Tries left (asked q (err e) ∷ net)))

  Tries-length :
      {left : ℕ} {net after : Net} {out : Result Message}
      → Tries left net out after
      → (length net < length after) × (length after ≤ length net + 1 + left)
  Tries-length (answered left net r e c) = omega arith
  Tries-length (refused left net r e c) = omega arith
  Tries-length (stopped left net e cause f c) = omega arith
  Tries-length (exhausted net e f c) = omega arith
  Tries-length (retried left net e out after f c more) = let rest = Tries-length more in omega arith

-- `query` asks once, and again only after an exchange that failed while the context goes on, as the relation
-- says: it returns the first reply, or its error code, or the error of the context, or the last error.
pub query-Tries :
    (p : Prober) (server name : String) (typ : ℕ) (recursive : Bool) (net : Net)
    → Gives p
        (record { server = server; name = name; type = typ; recursive = recursive })
        2
        net
        (query p server name typ recursive net)
unfolding query
query-Tries p server name typ recursive net = query_attempts-Tries p _ 2 net

-- `query` makes at least one exchange and at most three, whatever the servers answer.
pub query-bounded :
    (p : Prober) (server name : String) (typ : ℕ) (recursive : Bool) (net : Net)
    → (length net < length (query p server name typ recursive net).1)
      × (length (query p server name typ recursive net).1 ≤ length net + 3)
query-bounded p server name typ recursive net =
    let counted = Tries-length p _ (query-Tries p server name typ recursive net) in omega arith
