-- ===== src/Safety/Guards.antt =====
-- The calls that change keys or the parent, and predicates on what has been called.
use dnssec_keyrotation.Base.{Bool, true, false, not, ◌&&◌, ◌≡◌, ◌⊎◌, sym, subst, [], ◌∷◌}
use dnssec_keyrotation.Api.{Call, Event, History}
use dnssec_keyrotation.Exec.{World}

-- A listing of keys begins the work on a zone.
abbrev pub is_listing : Call → Bool
is_listing (Call.list_keys id) = true
is_listing _ = false

-- A mutation of PowerDNS or of the registrar.
abbrev pub is_mutation : Call → Bool
is_mutation (Call.create_key id typ algorithm active) = true
is_mutation (Call.set_key id key active published) = true
is_mutation (Call.delete_key id key) = true
is_mutation (Call.update_dnssec zone keys ctid) = true
is_mutation _ = false

abbrev pub is_harmless : Call → Bool
is_harmless call = not (is_listing call) && not (is_mutation call)

-- The state stays, or is the one that was written.
abbrev pub Moves : Event → World → World → Type 0
Moves e s t = (t.state ≡ s.state) ⊎ (e.call ≡ Call.write_state t.state)

-- A predicate that no harmless call ends.
pub record IsLasting (P : World → Type 0) : Type 0 where
  pub stable :
      (e : Event) (s t : World)
      → is_harmless e.call ≡ true
      → t.events ≡ e ∷ s.events
      → Moves e s t
      → P s
      → P t

abbrev pub On : (History → Type 0) → World → Type 0
On H s = H s.events

-- The same of a predicate on histories.
pub record Endures (H : History → Type 0) : Type 0 where
  pub stable : (e : Event) (past : History) → is_harmless e.call ≡ true → H past → H (e ∷ past)

pub On-lasting : {H : History → Type 0} → Endures H → IsLasting (On H)
On-lasting {H} endures = record {
  stable =
      λ e s t harmless place moves h. subst H (sym place) (endures.stable e s.events harmless h);
}

-- Every call of the history met a condition on what had come before it.
abbrev pub Checked : (Call → History → Type 0) → History → Type 0
Checked condition [] = Unit {0}
Checked condition (e ∷ past) = condition e.call past × Checked condition past

-- The same of the calls that were made after the start.
pub data Made (condition : Call → History → Type 0) (start : History) : History → Type 0 where
  begun : Made condition start start
  made :
      (e : Event) {past : History}
      → condition e.call past
      → Made condition start past
      → Made condition start (e ∷ past)
