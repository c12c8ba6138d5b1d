-- ===== src/Dnsprobe/Observer.antt =====
-- The methods of `Probe` of internal/dnsprobe/probe.go, by the request of the controller.
pub mod Evident
pub mod Configured
use dnssec_keyrotation.Base.{true, false, []}
use dnssec_keyrotation.Model.{Duration}
use dnssec_keyrotation.Api
use dnssec_keyrotation.Api.{Controller, History}
use dnssec_keyrotation.Exec.{pure, ◌>>◌}
use dnssec_keyrotation.Dnsprobe.Message.{type_dnskey, type_soa}
use dnssec_keyrotation.Dnsprobe.Network.{N, Prober}
use dnssec_keyrotation.Dnsprobe.Evidence.{collect_dnskeys, collect_ds, collect_signatures}
use dnssec_keyrotation.Dnsprobe.Parent.{collect_parent_ds, collect_no_ds, collect_delegation}

-- a method that returns no duration
abbrev timeless : N (Unit {0}) → N Duration
timeless m = do m; pure 0

module _ (p : Prober) where
  -- the methods, by the request
  unfoldable pub run_probe : Api.Probe → N Duration
  unfolding collect_dnskeys collect_ds collect_signatures collect_parent_ds collect_no_ds
      collect_delegation
  run_probe (Api.dnskey_evidence zone keys) = collect_dnskeys p zone true keys
  run_probe (Api.authoritative_dnskey_evidence zone keys) = collect_dnskeys p zone false keys
  run_probe (Api.no_ds_evidence zone) = timeless (collect_no_ds p zone)
  run_probe (Api.ds_evidence zone keys) = timeless (collect_ds p zone keys)
  run_probe (Api.authoritative_ds_evidence zone keys) = collect_parent_ds p zone keys
  run_probe (Api.rrsig_by zone key) =
      timeless (collect_signatures p (p.dns.fqdn zone) type_soa key true)
  run_probe (Api.authoritative_rrsig_by zone key) =
      timeless (collect_signatures p (p.dns.fqdn zone) type_soa key false)
  run_probe (Api.dnskey_rrsig_by zone key) =
      timeless (collect_signatures p (p.dns.fqdn zone) type_dnskey key true)
  run_probe (Api.authoritative_dnskey_rrsig_by zone key) =
      timeless (collect_signatures p (p.dns.fqdn zone) type_dnskey key false)
  run_probe (Api.delegation_evidence zone expected) = timeless (collect_delegation p zone expected)
