-- ===== src/Safety/Promises.antt =====
-- What `advance`, `Tick`, `parentReplace`, `enrollParentAdd` and `adoptOrCreate` of internal/controller/controller.go promise to
-- the resolvers and to the registrar.
use dnssec_keyrotation.Base.{List, ◌≡◌, false}
use dnssec_keyrotation.Model.{Key, Zone, Workflow, is_zero}
use dnssec_keyrotation.Api.{Controller}
use dnssec_keyrotation.Exec.{World}
use dnssec_keyrotation.Controller.Candidates.{Wanted}
use dnssec_keyrotation.Controller.Prepublish.{adopt_or_create, attempted_at}
use dnssec_keyrotation.Controller.Parent.{run_parent_replace}
use dnssec_keyrotation.Controller.EnrollParent.{run_enroll_parent_add}
use dnssec_keyrotation.Controller.Schedule.{tick, advance}
use dnssec_keyrotation.Safety.Guards.{begun}
use dnssec_keyrotation.Safety.Once.{
  IsQuiet, parent_replace-Keeps, enroll_parent_add-Keeps, adopt-Keeps,
}
use dnssec_keyrotation.Safety.Conditions.{IsSafe}
use dnssec_keyrotation.Safety.Advance.{advance-Keeps}
use dnssec_keyrotation.Safety.Tick
use dnssec_keyrotation.Safety.Tick.{Rounds, tick-Keeps}

module _ (c : Controller) (zone : Zone) (keys : List Key) (w : Workflow) (s : World) where
  -- Each mutation that an advance of a workflow makes was allowed when it was made, whatever the phase
  -- and whatever the servers, the registrar, the clock and the disk answer. A key is deleted only in
  -- the zone of the advance: it is the recorded old key, no longer active; the recorded new key is
  -- live; since the last listing of keys the DNSKEYs that remain were seen on every path, which are
  -- those of the retirement inventory for a KSK or ZSK rotation and the new KSK, the live new ZSK and
  -- the old key for a split migration, with none asked for in another kind; a new ZSK was seen to sign
  -- the zone, and a new KSK to sign the DNSKEYs, with its DS at the parent. A key is deactivated only
  -- when it is the recorded old key, the recorded new key is live and was seen to sign, a new KSK with
  -- its DS, the new ZSK of a split migration too, and the published DNSKEYs of the listing were seen on
  -- every path, all since that listing. The registrar is written only for the zone, with the recorded
  -- transaction id and the material of one key, the recorded new key outside an enrollment, after the
  -- published DNSKEYs of the listing and a signature of that key on them were seen since that listing,
  -- at the authoritative servers alone only for an initial split migration or an enrollment. A key is
  -- activated or created only in the zone. The write to the registrar and the creation come only where
  -- no attempt was on record, and right after a state reached the disk in which the workflow has the
  -- time of the attempt, which the clock has shown.
  pub advance-IsSafe : IsSafe c zone keys w s.events (advance c zone keys w s).1.events
  advance-IsSafe = (advance-Keeps c s.events zone keys w).at s begun

-- A tick is a sequence of calls that are no mutations, each of which leaves the state or writes it, and of
-- advances: of the one workflow in progress that the state has for a zone, with the keys that PowerDNS
-- has listed for it. So a tick makes no mutation but in an advance.
pub tick-Rounds : (c : Controller) (s : World) → Rounds c s (tick c s).1
tick-Rounds c s = (tick-Keeps c s).at s Tick.begun

module _ (c : Controller) (zone : Zone) (keys : List Key) (w : Workflow) (s : World) where
  -- A parent replacement that has tried its registrar write makes no further mutation, whatever the
  -- registrar, the servers and the clock answer, if there was none before.
  pub parent_replace-IsQuiet :
      is_zero w.registrar_attempted_at ≡ false
      → IsQuiet s.events
      → IsQuiet (run_parent_replace c zone keys w s).1.events
  parent_replace-IsQuiet tried quiet = (parent_replace-Keeps c zone keys w tried).at s quiet

  -- An enrollment that has tried its registrar write makes no further mutation, if there was none before.
  pub enroll_parent_add-IsQuiet :
      is_zero w.registrar_attempted_at ≡ false
      → IsQuiet s.events
      → IsQuiet (run_enroll_parent_add c zone keys w s).1.events
  enroll_parent_add-IsQuiet tried quiet = (enroll_parent_add-Keeps c zone keys w tried).at s quiet

  -- A slot whose key creation was tried is never filled by another creation, if there was no mutation
  -- before: the key is adopted or the handler fails.
  pub adopt-IsQuiet :
      (want : Wanted)
      → is_zero (attempted_at w want.zsk_slot) ≡ false
      → IsQuiet s.events
      → IsQuiet (adopt_or_create c zone w want keys s).1.events
  adopt-IsQuiet want tried quiet = (adopt-Keeps c zone w want tried keys).at s quiet
