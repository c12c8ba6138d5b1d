-- ===== src/Safety/Calls.antt =====
-- The harmless calls and writes keep every lasting predicate.
use dnssec_keyrotation.Base.{ℕ, String, true, ◌≡◌, refl, inl, inr}
use dnssec_keyrotation.Errors.{Error, Result}
use dnssec_keyrotation.Model.{Workflow, Kind, Phase, State, Time, Notification}
use dnssec_keyrotation.Api.{Controller, History, Call, Probe, WriteOutcome}
use dnssec_keyrotation.Exec.{
  World, M, perform, now, list_zones, get_zone, domain_dnssec, job_status, observe, send,
}
use dnssec_keyrotation.Exec.Keeps.{Keeps, Gains, keeps_rules, Keeps-bind}
use dnssec_keyrotation.Store.{snapshot, update, write_atomic}
use dnssec_keyrotation.Controller.Moves.{
  Change, transition, record_retry, block, block_state, complete,
}
use dnssec_keyrotation.Safety.Guards.{IsLasting, is_harmless}

module _ {P : World → Type 0} (lasting : IsLasting P) where
  perform-Lasting :
      {A : Type 0} (call : Call) (reply : History → Result A)
      → is_harmless call ≡ true
      → Keeps (P) (perform call reply)
  unfolding perform
  perform-Lasting call reply harmless = record {
    at = λ s h. lasting.stable _ s _ harmless refl (inl refl) h;
  }

  module _ (c : Controller) where
    pub now-Lasting : Keeps (P) (now c)
    unfolding now
    now-Lasting = perform-Lasting _ _ refl

    pub list_zones-Lasting : Keeps (P) (list_zones c)
    unfolding list_zones
    list_zones-Lasting = perform-Lasting _ _ refl

    pub get_zone-Lasting : (id : String) → Keeps (P) (get_zone c id)
    unfolding get_zone
    get_zone-Lasting id = perform-Lasting _ _ refl

    pub domain_dnssec-Lasting : (zone : String) → Keeps (P) (domain_dnssec c zone)
    unfolding domain_dnssec
    domain_dnssec-Lasting zone = perform-Lasting _ _ refl

    pub job_status-Lasting : (id : ℕ) → Keeps (P) (job_status c id)
    unfolding job_status
    job_status-Lasting id = perform-Lasting _ _ refl

    pub observe-Lasting : (probe : Probe) → Keeps (P) (observe c probe)
    unfolding observe
    observe-Lasting probe = perform-Lasting _ _ refl

    pub send-Lasting : (event : Notification) → Keeps (P) (send c event)
    unfolding send
    send-Lasting event = perform-Lasting _ _ refl

    pub snapshot-Lasting : Keeps (P) snapshot
    unfolding snapshot
    snapshot-Lasting = record { at = λ s h. h }

    write-Lasting : (t : State) → Keeps (P) (write_atomic c t)
    unfolding write_atomic
    write-Lasting t = record { at = λ s h. outcome s h (c.write_file s.events t) refl }
      where
        outcome :
            (s : World)
            → P s
            → (o : WriteOutcome) → c.write_file s.events t ≡ o
            → P (write_atomic c t s).1
        outcome s h WriteOutcome.written e =
            rw (e, write_atomic) (lasting.stable _ s _ refl refl (inr refl) h)
        outcome s h (WriteOutcome.not_renamed x) e =
            rw (e, write_atomic) (lasting.stable _ s _ refl refl (inl refl) h)
        outcome s h (WriteOutcome.not_synced x) e =
            rw (e, write_atomic) (lasting.stable _ s _ refl refl (inl refl) h)

    pub update-Lasting :
        {mutation : State → M State}
        → ((t : State) → Keeps (P) (mutation t))
        → Keeps (P) (update c mutation)
    unfolding update
    update-Lasting km = Keeps-bind snapshot-Lasting (λ t. Keeps-bind (km t) write-Lasting)

    pub transition-Lasting :
        (w : Workflow) (phase : Phase) (next : Time) {mutate : Change}
        → ((x : Workflow) → Keeps (P) (mutate x))
        → Keeps (P) (transition c w phase next mutate)
    unfolding transition
    transition-Lasting w phase next km = search (keeps_rules, now-Lasting, update-Lasting)

    pub record_retry-Lasting : (w : Workflow) (e : Error) → Keeps (P) (record_retry c w e)
    unfolding record_retry
    record_retry-Lasting w e = search (keeps_rules, now-Lasting, update-Lasting)

    block_state-Lasting :
        (zone : String) (kind : Kind) (e : Error) (t : State)
        → Keeps (P) (block_state c zone kind e t)
    unfolding block_state
    block_state-Lasting zone kind e t = search (keeps_rules, now-Lasting)

    pub block-Lasting :
        (A : Type 0) (zone : String) (kind : Kind) (e : Error)
        → Keeps (P) (block c {A = A} zone kind e)
    unfolding block
    block-Lasting A zone kind e = search (keeps_rules, update-Lasting, block_state-Lasting)

    pub complete-Lasting : (w : Workflow) → Keeps (P) (complete c w)
    unfolding complete
    complete-Lasting w = search (keeps_rules, now-Lasting, update-Lasting)

pub ruleset lasting_rules = (
  keeps_rules, now-Lasting, list_zones-Lasting, get_zone-Lasting, domain_dnssec-Lasting,
  job_status-Lasting, observe-Lasting, send-Lasting, snapshot-Lasting, update-Lasting,
  transition-Lasting, record_retry-Lasting, block-Lasting, complete-Lasting,
)
