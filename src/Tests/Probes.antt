-- ===== src/Tests/Probes.antt =====
-- The theorems on the probe, applied to the network of the demo.
use dnssec_keyrotation.Base.{◌≡◌, refl, true, [], ◌∷◌, ◌*◌, ◌<◌, ◌≤◌, length}
use dnssec_keyrotation.Errors
use dnssec_keyrotation.Errors.{ok}
use dnssec_keyrotation.Exec
use dnssec_keyrotation.Exec.{World, observe, perform, or_else}
use dnssec_keyrotation.Model.{second}
use dnssec_keyrotation.Api
use dnssec_keyrotation.Dnsprobe.Message.{type_soa}
use dnssec_keyrotation.Dnsprobe.Network.{query, read_clock}
use dnssec_keyrotation.Dnsprobe.Network.Retries.{Gives, query-Tries, query-bounded}
use dnssec_keyrotation.Dnsprobe.Evidence.{collect_dnskeys, collect_ds, collect_signatures}
use dnssec_keyrotation.Dnsprobe.Evidence.Keys.{KeysShown}
use dnssec_keyrotation.Dnsprobe.Evidence.Signatures.{SignaturesShown}
use dnssec_keyrotation.Dnsprobe.Parent.{collect_parent_ds, collect_no_ds, collect_delegation}
use dnssec_keyrotation.Dnsprobe.Parent.Proved.{ParentDsShown}
use dnssec_keyrotation.Dnsprobe.Parent.Absence.{NoDsShown}
use dnssec_keyrotation.Dnsprobe.Observer.{run_probe}
use dnssec_keyrotation.Dnsprobe.Observer.Evident.{
  collect_dnskeys-KeysShown, collect_signatures-SignaturesShown, collect_parent_ds-ParentDsShown,
  collect_no_ds-NoDsShown, Observed, run_probe-Observed,
}
use dnssec_keyrotation.Tests.Demo.{key}
use mathlib.Core.List.Perm
use dnssec_keyrotation.Base.{String}
use dnssec_keyrotation.Dnsprobe.Message.{type_ds}
use dnssec_keyrotation.Dnsprobe.Network.{Net}
use dnssec_keyrotation.Dnsprobe.Checks.{ds_key, expected_ds, same_owner_class}
use dnssec_keyrotation.Dnsprobe.Checks.Sound.{ds_of}
use dnssec_keyrotation.Dnsprobe.Evidence.Granted.{AnswersWell, collect_ds-Returns}
use dnssec_keyrotation.Tests.Demo.{dns}
use dnssec_keyrotation.Tests.ProbeDemo.{
  ds_data, reply, answers, library, prober, unsigned_prober, probe_keys,
}

dnskeys_given :
    collect_dnskeys prober "example.org." true probe_keys []
    ≡ (ok (3600 * second), (collect_dnskeys prober "example.org." true probe_keys []).1)
unfolding collect_dnskeys query Exec.◌>>=◌ Errors.◌>>=◌ or_else
dnskeys_given = refl

collect_dnskeys-KeysShown_example :
    KeysShown prober "example.org." true probe_keys
      (3600 * second)
      (collect_dnskeys prober "example.org." true probe_keys []).1
collect_dnskeys-KeysShown_example =
    collect_dnskeys-KeysShown prober "example.org." true probe_keys [] _ _ dnskeys_given

pub ds_given :
    collect_ds prober "example.org." probe_keys []
    ≡ (ok (tt), (collect_ds prober "example.org." probe_keys []).1)
unfolding collect_ds query Exec.◌>>=◌ Errors.◌>>=◌ or_else
ds_given = refl

signatures_given :
    collect_signatures prober "example.org." type_soa (key 1 "ksk" true) true []
    ≡ (ok (tt), (collect_signatures prober "example.org." type_soa (key 1 "ksk" true) true []).1)
unfolding collect_signatures query read_clock Exec.◌>>=◌ Errors.◌>>=◌ or_else
signatures_given = refl

collect_signatures-SignaturesShown_example :
    SignaturesShown prober "example.org." type_soa
      (key 1 "ksk" true)
      true
      (collect_signatures prober "example.org." type_soa (key 1 "ksk" true) true []).1
collect_signatures-SignaturesShown_example =
    collect_signatures-SignaturesShown prober "example.org." type_soa (key 1 "ksk" true) true [] _ _
      signatures_given

parent_ds_given :
    collect_parent_ds prober "example.org." probe_keys []
    ≡ (ok (3600 * second), (collect_parent_ds prober "example.org." probe_keys []).1)
unfolding collect_parent_ds query Exec.◌>>=◌ Errors.◌>>=◌ or_else
parent_ds_given = refl

collect_parent_ds-ParentDsShown_example :
    ParentDsShown prober "example.org." probe_keys
      (3600 * second)
      (collect_parent_ds prober "example.org." probe_keys []).1
collect_parent_ds-ParentDsShown_example =
    collect_parent_ds-ParentDsShown prober "example.org." probe_keys [] _ _ parent_ds_given

no_ds_given :
    collect_no_ds unsigned_prober "example.org." []
    ≡ (ok (tt), (collect_no_ds unsigned_prober "example.org." []).1)
unfolding collect_no_ds query read_clock Exec.◌>>=◌ Errors.◌>>=◌ or_else
no_ds_given = refl

collect_no_ds-NoDsShown_example :
    NoDsShown unsigned_prober "example.org." (collect_no_ds unsigned_prober "example.org." []).1
collect_no_ds-NoDsShown_example =
    collect_no_ds-NoDsShown unsigned_prober "example.org." [] _ _ no_ds_given

delegation_given :
    collect_delegation prober "example.org." ("ns2." ∷ "ns1." ∷ []) []
    ≡ (ok (tt), (collect_delegation prober "example.org." ("ns2." ∷ "ns1." ∷ []) []).1)
unfolding collect_delegation query Exec.◌>>=◌ Errors.◌>>=◌ or_else
delegation_given = refl

request_given :
    run_probe prober (Api.ds_evidence "example.org." probe_keys) []
    ≡ (ok 0, (run_probe prober (Api.ds_evidence "example.org." probe_keys) []).1)
unfolding run_probe query Exec.◌>>=◌ Errors.◌>>=◌ or_else
request_given = refl

run_probe-Observed_example :
    Observed prober
      (Api.ds_evidence "example.org." probe_keys)
      0
      (run_probe prober (Api.ds_evidence "example.org." probe_keys) []).1
run_probe-Observed_example =
    run_probe-Observed prober (Api.ds_evidence "example.org." probe_keys) [] _ _ request_given

query-Tries_example :
    Gives prober
      (record { server = "192.0.2.1:53"; name = "example.org."; type = 43; recursive = true })
      2
      []
      (query prober "192.0.2.1:53" "example.org." 43 true [])
query-Tries_example = query-Tries prober "192.0.2.1:53" "example.org." 43 true []

query-bounded_example :
    (0 < length (query prober "192.0.2.1:53" "example.org." 43 true []).1)
    × (length (query prober "192.0.2.1:53" "example.org." 43 true []).1 ≤ 3)
query-bounded_example = query-bounded prober "192.0.2.1:53" "example.org." 43 true []

answers_well :
    (server : String) (past : Net)
    → AnswersWell prober "example.org." (ds_key ds_data ∷ []) server past
unfolding same_owner_class ds_of
answers_well server past = record {
  reply = reply (answers type_ds "example.org.") [];
  arrives = refl;
  succeeds = refl;
  authenticated = refl;
  owned = (refl, tt);
  exact = Perm.refl (ds_key ds_data ∷ []);
}

ds_derived : expected_ds dns library "example.org." probe_keys ≡ ok (ds_key ds_data ∷ [])
unfolding expected_ds Errors.◌>>=◌
ds_derived = refl

collect_ds-Returns_example :
    (after : Net) × (collect_ds prober "example.org." probe_keys [] ≡ (ok tt, after))
collect_ds-Returns_example =
    collect_ds-Returns prober "example.org." probe_keys (ds_key ds_data ∷ []) [] ds_derived
      (λ server past m. answers_well server past)
