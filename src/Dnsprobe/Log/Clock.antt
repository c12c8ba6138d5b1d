-- ===== src/Dnsprobe/Log/Clock.antt =====
-- The time at which a check of internal/dnsprobe/probe.go is made: `time.Now()` after the reply came.
use dnssec_keyrotation.Base.{◌≡◌, refl, ap, List, [], ◌∷◌, ◌++◌}
use dnssec_keyrotation.Model.{Time}
use dnssec_keyrotation.Exec.Finds.{Finds}
use dnssec_keyrotation.Dnsprobe.Message.{Message}
use dnssec_keyrotation.Dnsprobe.Network.{Net, NetEvent, clock_read, Prober, Question, read_clock}
use dnssec_keyrotation.Dnsprobe.Log.{IsLasting, Replied, Both}

-- A reading of the clock after the question was answered so.
pub record ClockRead (p : Prober) (q : Question) (r : Message) (at : Time) (net : Net)
    : Type 0 where
  pub before : Net
  pub later : List NetEvent
  pub place : later ++ (clock_read ∷ before) ≡ net
  pub replied : Replied q r before
  pub moment : at ≡ p.clock before

module _ (p : Prober) {q : Question} {r : Message} where
  pub ClockRead-later :
      {at : Time} {net : Net} (e : NetEvent) → ClockRead p q r at net → ClockRead p q r at (e ∷ net)
  ClockRead-later e h = record {
    before = h.before;
    later = e ∷ h.later;
    place = ap (λ l. e ∷ l) h.place;
    replied = h.replied;
    moment = h.moment;
  }

module _ (p : Prober) where
  pub read-ClockRead :
      {H : Net → Type 0}
      → IsLasting H
      → (q : Question) (r : Message)
      → Finds (Both (Replied q r) H) (λ at. Both (ClockRead p q r at) H) (read_clock p)
  unfolding read_clock
  read-ClockRead lasting q r = record {
    at = λ net h. (
      record { before = net; later = []; place = refl; replied = h.0; moment = refl },
      lasting.stable _ net h.1,
    );
  }
