-- ===== src/Store.antt =====
-- internal/state/store.go: `Snapshot`, `Update` and the outcome of `writeAtomic`. Values are immutable
-- here, so `cloneState` is the identity; the process lock serialises the calls.
pub mod Atomic
use dnssec_keyrotation.Base.{false, true, ◌∷◌}
use dnssec_keyrotation.Errors.{ok, err}
use dnssec_keyrotation.Model.{State}
use dnssec_keyrotation.Api.{Controller, Call, written, not_renamed, not_synced}
use dnssec_keyrotation.Exec.{M, ◌>>=◌}

unfoldable pub snapshot : M State
snapshot w = (ok w.state, w)

module _ (c : Controller) where
  -- Persists the new state and publishes it only when the write went through.
  unfoldable pub write_atomic : State → M (Unit {0})
  write_atomic s w = elim (c.write_file w.events s) [
    | written ↦ (
      ok tt,
      record {
        state = s;
        disk = s;
        events = record { call = Call.write_state s; succeeded = true } ∷ w.events;
      },
    )
    | not_renamed e ↦ (
      err e,
      record w { events = record { call = Call.write_state s; succeeded = false } ∷ w.events },
    )
    | not_synced e ↦ (
      err e,
      record w {
        disk = s;
        events = record { call = Call.write_state s; succeeded = false } ∷ w.events;
      },
    )
  ]

  -- `Update`: an error of the mutation leaves everything as it was.
  unfoldable pub update : (State → M State) → M (Unit {0})
  unfolding snapshot write_atomic ◌>>=◌
  update mutation = do before ← snapshot; after ← mutation before; write_atomic after
