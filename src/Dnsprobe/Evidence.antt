-- ===== src/Dnsprobe/Evidence.antt =====
-- `dnskeyEvidence`, `DSEvidence` and `verifySignature` of internal/dnsprobe/probe.go: evidence that every
-- configured server must give.
pub mod Keys
pub mod Trust
pub mod Granted
pub mod Signatures
use dnssec_keyrotation.Base.{
  ℕ, ◌*◌, String, Bool, true, false, not, List, [], ◌∷◌, nat_eq, ◌==◌, ltb, if◌then◌else◌,
}
use dnssec_keyrotation.Base.Order.{Slashed}
use dnssec_keyrotation.Errors.{errorf, new_error, reject_if, str}
use dnssec_keyrotation.Model.{Key, DnssecData, Duration, second}
use dnssec_keyrotation.Exec.{pure, fail, lift, in_context, in_contextf, ◌>>=◌, ◌>>◌}
use dnssec_keyrotation.Inventory.Roles.{key_rr}
use dnssec_keyrotation.Dnsprobe.Message.{Message, PublicKey, type_dnskey, type_ds}
use dnssec_keyrotation.Dnsprobe.Network.{N, Prober, query, read_clock}
use dnssec_keyrotation.Dnsprobe.Checks.{
  expected_dnskeys, expected_ds, verify_dnskey_set, exact_ds, verify_signature, rrset_ttl,
}

module _ (p : Prober) where
  -- the DNSKEYs that one server shows, with their TTL
  unfoldable pub shown_dnskeys : String → List DnssecData → Bool → String → N ℕ
  unfolding verify_dnskey_set rrset_ttl
  shown_dnskeys name expected recursive server = do
    r ← query p server name type_dnskey recursive
    lift (verify_dnskey_set p.dns p.rr r expected recursive (not recursive) name)
    pure (rrset_ttl r.answer type_dnskey)

  -- the loop over the authoritative servers, with the highest TTL so far
  unfoldable pub authoritative_dnskeys : String → List DnssecData → ℕ → List String → N ℕ
  unfolding shown_dnskeys
  authoritative_dnskeys name expected ttl [] = pure ttl
  authoritative_dnskeys name expected ttl (server ∷ servers) = do
    observed ←
        in_contextf "authoritative DNSKEY via %s" (str server ∷ [])
          (shown_dnskeys name expected false server)
    authoritative_dnskeys name expected (if ltb ttl observed then observed else ttl) servers

  -- the loop over the resolvers
  unfoldable pub recursive_dnskeys : String → List DnssecData → List String → N (Unit {0})
  unfolding shown_dnskeys
  recursive_dnskeys name expected [] = pure tt
  recursive_dnskeys name expected (resolver ∷ resolvers) = do
    in_contextf "recursive DNSKEY via %s" (str resolver ∷ [])
        (shown_dnskeys name expected true resolver)
    recursive_dnskeys name expected resolvers

  -- `dnskeyEvidence`
  unfoldable pub collect_dnskeys : String → Bool → List Key → N Duration
  unfolding authoritative_dnskeys recursive_dnskeys expected_dnskeys
  collect_dnskeys zone include_resolvers keys = do
    let name = p.dns.fqdn zone
    expected ← lift (expected_dnskeys p.dns name keys)
    first ←
        in_context "local authoritative DNSKEY" (shown_dnskeys name expected false p.local_server)
    ttl ← authoritative_dnskeys name expected first p.authoritative
    (if include_resolvers then recursive_dnskeys name expected p.resolvers else pure tt)
    if ttl == 0 then fail (new_error "authoritative DNSKEY TTL is zero") else pure (ttl * second)

  -- the DS records that one resolver shows
  unfoldable pub shown_ds : String → List Slashed → String → N (Unit {0})
  unfolding exact_ds
  shown_ds name want resolver = do
    r ← in_contextf "recursive DS via %s" (str resolver ∷ []) (query p resolver name type_ds true)
    lift (
        reject_if (not r.authenticated)
          (errorf "recursive DS via %s lacks authenticated-data" (str resolver ∷ [])))
    in_contextf "recursive DS via %s" (str resolver ∷ [])
        (lift (exact_ds p.dns p.rr r want name false))

  unfoldable pub recursive_ds : String → List Slashed → List String → N (Unit {0})
  unfolding shown_ds
  recursive_ds name want [] = pure tt
  recursive_ds name want (resolver ∷ resolvers) = do
    shown_ds name want resolver
    recursive_ds name want resolvers

  -- `DSEvidence`
  unfoldable pub collect_ds : String → List Key → N (Unit {0})
  unfolding recursive_ds expected_ds
  collect_ds zone keys = do
    let name = p.dns.fqdn zone
    want ← lift (expected_ds p.dns p.rr name keys)
    recursive_ds name want p.resolvers

  -- the check of one reply, at the time of the check
  unfoldable pub check_signature : String → ℕ → PublicKey → Bool → Message → N (Unit {0})
  unfolding verify_signature
  check_signature name typ key recursive r = do
    at ← read_clock p
    lift (verify_signature p.dns p.rr r typ key recursive (not recursive) name at)

  unfoldable pub local_signature : String → ℕ → PublicKey → N (Unit {0})
  unfolding check_signature
  local_signature name typ key =
      in_context "local authoritative signature"
        (do r ← query p p.local_server name typ false; check_signature name typ key false r)

  -- the loops over the authoritative servers and over the resolvers; an error of a query stays bare
  unfoldable pub signatures : String → String → ℕ → PublicKey → Bool → List String → N (Unit {0})
  unfolding check_signature
  signatures format name typ key recursive [] = pure tt
  signatures format name typ key recursive (server ∷ servers) = do
    r ← query p server name typ recursive
    in_contextf format (str server ∷ []) (check_signature name typ key recursive r)
    signatures format name typ key recursive servers

  -- the method `verifySignature`
  unfoldable pub collect_signatures : String → ℕ → Key → Bool → N (Unit {0})
  unfolding local_signature signatures key_rr
  collect_signatures name typ key include_resolvers = do
    rr ← lift (key_rr p.dns name key)
    let signer : PublicKey = record { owner = p.dns.fqdn name; content = rr }
    local_signature name typ signer
    signatures "authoritative signature via %s" name typ signer false p.authoritative
    if include_resolvers
        then signatures "recursive signature via %s" name typ signer true p.resolvers
        else pure tt
