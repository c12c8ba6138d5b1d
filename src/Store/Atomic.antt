-- ===== src/Store/Atomic.antt =====
-- `Update` of internal/state/store.go: all or nothing.
use dnssec_keyrotation.Base.{◌≡◌, refl}
use dnssec_keyrotation.Errors.{Result, ok, err}
use dnssec_keyrotation.Model.{State}
use dnssec_keyrotation.Api.{Controller, WriteOutcome}
use dnssec_keyrotation.Exec.{World, M, ◌>>=◌}
use dnssec_keyrotation.Store.{snapshot, update, write_atomic}

-- After a success, the state that the mutation returned is published and on disk; after an error, the
-- published state is the one that the mutation left.
abbrev pub IsCommit : Result State × World → Result (Unit {0}) × World → Type 0
IsCommit (mutated, before) (ok done, after) =
    (t : State) × (mutated ≡ ok t) × (after.state ≡ t) × (after.disk ≡ t)
IsCommit (mutated, before) (err e, after) = after.state ≡ before.state

module _ (c : Controller) where
  write-IsCommit : (t : State) (s : World) → IsCommit (ok t, s) (write_atomic c t s)
  unfolding write_atomic
  write-IsCommit t s = outcome (c.write_file s.events t) refl
    where
      outcome :
          (o : WriteOutcome) → c.write_file s.events t ≡ o → IsCommit (ok t, s) (write_atomic c t s)
      outcome WriteOutcome.written e = rw (e, write_atomic) (t, refl, refl, refl)
      outcome (WriteOutcome.not_renamed x) e = rw (e, write_atomic) refl
      outcome (WriteOutcome.not_synced x) e = rw (e, write_atomic) refl

  -- An update publishes the state that its mutation returned, after that state has reached the disk; when
  -- the mutation or the write fails, the published state stays as the mutation found it, if the
  -- mutation itself makes no update.
  pub update-IsCommit :
      (mutation : State → M State) (s : World) → IsCommit (mutation s.state s) (update c mutation s)
  unfolding update snapshot ◌>>=◌
  update-IsCommit mutation s = continue (mutation s.state s).0 (mutation s.state s).1
    where
      continue :
          (r : Result State) (s : World) → IsCommit (r, s) (((λ _. (r, s)) >>= write_atomic c) s)
      continue (ok t) s = write-IsCommit t s
      continue (err e) s = refl
