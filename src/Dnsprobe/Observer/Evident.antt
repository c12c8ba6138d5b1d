-- ===== src/Dnsprobe/Observer/Evident.antt =====
-- The evidence that the methods of `Probe` of internal/dnsprobe/probe.go give to the controller.
use dnssec_keyrotation.Base.{ℕ, String, Bool, true, false, ◌≡◌, List}
use dnssec_keyrotation.Errors.{ok}
use dnssec_keyrotation.Model.{Key, Duration}
use dnssec_keyrotation.Api
use dnssec_keyrotation.Api.{Controller, History}
use dnssec_keyrotation.Exec.Finds.{Finds, Finds-bind, Finds-pure, result}
use dnssec_keyrotation.Dnsprobe.Message.{type_dnskey, type_soa}
use dnssec_keyrotation.Dnsprobe.Network.{Net, Prober}
use dnssec_keyrotation.Dnsprobe.Evidence.{collect_dnskeys, collect_ds, collect_signatures}
use dnssec_keyrotation.Dnsprobe.Evidence.Keys.{KeysShown, collect_dnskeys-Finds}
use dnssec_keyrotation.Dnsprobe.Evidence.Trust.{DsShown, collect_ds-Finds}
use dnssec_keyrotation.Dnsprobe.Evidence.Signatures.{SignaturesShown, collect_signatures-Finds}
use dnssec_keyrotation.Dnsprobe.Parent.{collect_parent_ds, collect_no_ds, collect_delegation}
use dnssec_keyrotation.Dnsprobe.Parent.Proved.{ParentDsShown, collect_parent_ds-Finds}
use dnssec_keyrotation.Dnsprobe.Parent.Agreed.{DelegationShown, collect_delegation-Finds}
use dnssec_keyrotation.Dnsprobe.Parent.Absence.{NoDsShown, collect_no_ds-Finds}
use dnssec_keyrotation.Dnsprobe.Observer.{run_probe}

-- When DNSKEY evidence is given, the local server and each authoritative server, and each resolver if they
-- are included, have answered with exactly the DNSKEYs of the inventory, the servers with the authoritative
-- flag and the resolvers with the authenticated one; the duration is a positive number of seconds that no
-- TTL of a server exceeds.
pub collect_dnskeys-KeysShown :
    (p : Prober) (zone : String) (include_resolvers : Bool) (keys : List Key) (before after : Net)
    (d : Duration)
    → collect_dnskeys p zone include_resolvers keys before ≡ (ok d, after)
    → KeysShown p zone include_resolvers keys d after
collect_dnskeys-KeysShown p zone include_resolvers keys before after d e =
    result (collect_dnskeys-Finds p zone include_resolvers keys) before after d tt e

-- When DS evidence is given, each resolver has answered with the authenticated flag and with exactly the DS
-- records that the keys derive to.
pub collect_ds-DsShown :
    (p : Prober) (zone : String) (keys : List Key) (before after : Net) (u : Unit {0})
    → collect_ds p zone keys before ≡ (ok u, after)
    → DsShown p zone keys after
collect_ds-DsShown p zone keys before after u e =
    result (collect_ds-Finds p zone keys) before after u tt e

-- When signature evidence is given, the local server and each authoritative server, and each resolver if they
-- are included, have answered with records of the type, and a signature by the key of the inventory
-- verifies on them that was valid at a reading of the clock after the answer.
pub collect_signatures-SignaturesShown :
    (p : Prober) (name : String) (typ : ℕ) (key : Key) (include_resolvers : Bool)
    (before after : Net) (u : Unit {0})
    → collect_signatures p name typ key include_resolvers before ≡ (ok u, after)
    → SignaturesShown p name typ key include_resolvers after
collect_signatures-SignaturesShown p name typ key include_resolvers before after u e =
    result (collect_signatures-Finds p name typ key include_resolvers) before after u tt e

-- When the parent's DS evidence is given, two different servers have answered authoritatively with exactly the
-- DS records that the keys derive to; the duration is a positive number of seconds that no TTL of the two
-- exceeds.
pub collect_parent_ds-ParentDsShown :
    (p : Prober) (zone : String) (keys : List Key) (before after : Net) (d : Duration)
    → collect_parent_ds p zone keys before ≡ (ok d, after)
    → ParentDsShown p zone keys d after
collect_parent_ds-ParentDsShown p zone keys before after d e =
    result (collect_parent_ds-Finds p zone keys) before after d tt e

-- When evidence of no DS is given, at least two resolvers are configured, and each of them and two different
-- servers of the parent have answered with a proof, by signed NSEC or NSEC3 records, that the zone has no
-- DS; the keys of the parent that sign it come from an answer that a configured resolver has validated.
pub collect_no_ds-NoDsShown :
    (p : Prober) (zone : String) (before after : Net) (u : Unit {0})
    → collect_no_ds p zone before ≡ (ok u, after)
    → NoDsShown p zone after
collect_no_ds-NoDsShown p zone before after u e =
    result (collect_no_ds-Finds p zone) before after u tt e

-- When delegation evidence is given, at least two names are expected, and two different servers have answered
-- with exactly the expected names of the delegation.
pub collect_delegation-DelegationShown :
    (p : Prober) (zone : String) (expected : List String) (before after : Net) (u : Unit {0})
    → collect_delegation p zone expected before ≡ (ok u, after)
    → DelegationShown p zone expected after
collect_delegation-DelegationShown p zone expected before after u e =
    result (collect_delegation-Finds p zone expected) before after u tt e

-- What an answer to the controller's request means in the DNS.
abbrev pub Observed : Prober → Api.Probe → Duration → Net → Type 0
Observed p (Api.dnskey_evidence zone keys) d net = KeysShown p zone true keys d net
Observed p (Api.authoritative_dnskey_evidence zone keys) d net = KeysShown p zone false keys d net
Observed p (Api.no_ds_evidence zone) d net = NoDsShown p zone net
Observed p (Api.ds_evidence zone keys) d net = DsShown p zone keys net
Observed p (Api.authoritative_ds_evidence zone keys) d net = ParentDsShown p zone keys d net
Observed p (Api.rrsig_by zone key) d net = SignaturesShown p (p.dns.fqdn zone) type_soa key true net
Observed p (Api.authoritative_rrsig_by zone key) d net =
    SignaturesShown p (p.dns.fqdn zone) type_soa key false net
Observed p (Api.dnskey_rrsig_by zone key) d net =
    SignaturesShown p (p.dns.fqdn zone) type_dnskey key true net
Observed p (Api.authoritative_dnskey_rrsig_by zone key) d net =
    SignaturesShown p (p.dns.fqdn zone) type_dnskey key false net
Observed p (Api.delegation_evidence zone expected) d net = DelegationShown p zone expected net

run_probe-Finds :
    (p : Prober) (request : Api.Probe)
    → Finds (λ net. Unit {0}) (Observed p request) (run_probe p request)
unfolding run_probe
run_probe-Finds p (Api.dnskey_evidence zone keys) = collect_dnskeys-Finds p zone true keys
run_probe-Finds p (Api.authoritative_dnskey_evidence zone keys) =
    collect_dnskeys-Finds p zone false keys
run_probe-Finds p (Api.authoritative_ds_evidence zone keys) = collect_parent_ds-Finds p zone keys
run_probe-Finds p (Api.no_ds_evidence zone) =
    Finds-bind (collect_no_ds-Finds p zone) λ _. Finds-pure 0 λ net h. h
run_probe-Finds p (Api.ds_evidence zone keys) =
    Finds-bind (collect_ds-Finds p zone keys) λ _. Finds-pure 0 λ net h. h
run_probe-Finds p (Api.rrsig_by zone key) =
    Finds-bind (collect_signatures-Finds p _ type_soa key true) λ _. Finds-pure 0 λ net h. h
run_probe-Finds p (Api.authoritative_rrsig_by zone key) =
    Finds-bind (collect_signatures-Finds p _ type_soa key false) λ _. Finds-pure 0 λ net h. h
run_probe-Finds p (Api.dnskey_rrsig_by zone key) =
    Finds-bind (collect_signatures-Finds p _ type_dnskey key true) λ _. Finds-pure 0 λ net h. h
run_probe-Finds p (Api.authoritative_dnskey_rrsig_by zone key) =
    Finds-bind (collect_signatures-Finds p _ type_dnskey key false) λ _. Finds-pure 0 λ net h. h
run_probe-Finds p (Api.delegation_evidence zone expected) =
    Finds-bind (collect_delegation-Finds p zone expected) λ _. Finds-pure 0 λ net h. h

-- Every request of the controller that the probe answers, on whatever log of earlier answers, is answered on
-- the evidence for that request.
pub run_probe-Observed :
    (p : Prober) (request : Api.Probe) (before after : Net) (d : Duration)
    → run_probe p request before ≡ (ok d, after)
    → Observed p request d after
run_probe-Observed p request before after d e =
    result (run_probe-Finds p request) before after d tt e
