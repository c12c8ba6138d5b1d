-- ===== src/Dnsprobe/Referral.antt =====
-- `referralServers` and `delegatedNS` of internal/dnsprobe/probe.go: where an iterative lookup goes next.
-- A loop over a Go map runs in an unspecified order; here in that of the association list.
use dnssec_keyrotation.Base.{
  ℕ, String, Bool, true, false, none, some, List, [], ◌∷◌, ◌++◌, Assoc, lookup, insert,
  if◌then◌else◌,
}
use dnssec_keyrotation.Base.Text.{to_lower, equal_fold, sort, compact}
use dnssec_keyrotation.Errors.{new_error}
use dnssec_keyrotation.Api.{DnsLibrary}
use dnssec_keyrotation.Exec.{pure, fail, attempt, or_else, ◌>>=◌}
use dnssec_keyrotation.Dnsprobe.Message.{Rr, ns, a, aaaa, Message, type_a, type_aaaa}
use dnssec_keyrotation.Dnsprobe.Network.{N, Prober, query}
use dnssec_keyrotation.Dnsprobe.Checks.{unique}

abbrev pub first_of : List String → N String
first_of [] = fail (new_error "index out of range")
first_of (resolver ∷ rest) = pure resolver

module _ (p : Prober) where
  -- the loop that fills `names`: the targets of the referral, and whether each lies below its zone cut
  unfoldable pub referral_names : Assoc Bool → List Rr → Assoc Bool
  unfolding insert to_lower
  referral_names names [] = names
  referral_names names (ns h target ∷ rrs) =
      let name = to_lower (p.dns.fqdn target) in
      referral_names (insert name (p.rr.is_sub_domain (to_lower (p.dns.fqdn h.name)) name) names)
        rrs
  referral_names names (rr ∷ rrs) = referral_names names rrs

  -- `names[name]`, which is false where the key is missing
  abbrev pub is_glue : Assoc Bool → String → Bool
  is_glue names name = elim (lookup name names) [ none ↦ false | some below ↦ below ]

  -- the addresses that the reply itself holds
  unfoldable pub glue : Assoc Bool → List Rr → List String
  unfolding lookup to_lower
  glue names [] = []
  glue names (a h address ∷ rrs) =
      let rest = glue names rrs in
      if is_glue names (to_lower h.name) then p.rr.dns_address address ∷ rest else rest
  glue names (aaaa h address ∷ rrs) =
      let rest = glue names rrs in
      if is_glue names (to_lower h.name) then p.rr.dns_address address ∷ rest else rest
  glue names (rr ∷ rrs) = glue names rrs

  -- the addresses of an answer
  unfoldable pub addresses : List Rr → List String
  addresses [] = []
  addresses (a h address ∷ rrs) = p.rr.dns_address address ∷ addresses rrs
  addresses (aaaa h address ∷ rrs) = p.rr.dns_address address ∷ addresses rrs
  addresses (rr ∷ rrs) = addresses rrs

  -- `p.resolvers[0]`, which panics where there is none
  unfoldable pub first_resolver : N String
  first_resolver = first_of p.resolvers

  -- one lookup of an address; a failed one is skipped
  unfoldable pub resolve : String → ℕ → N (List String)
  unfolding first_resolver addresses
  resolve name typ = do
    resolver ← first_resolver
    outcome ← attempt (query p resolver name typ true)
    or_else outcome (λ e. pure []) (λ r. pure (addresses r.answer))

  unfoldable pub resolve_all : Assoc Bool → N (List String)
  unfolding resolve
  resolve_all [] = pure []
  resolve_all ((name, below) ∷ names) = do
    v4 ← resolve name type_a
    v6 ← resolve name type_aaaa
    rest ← resolve_all names
    pure (v4 ++ (v6 ++ rest))

  unfoldable pub without_glue : Assoc Bool → List String → N (List String)
  unfolding resolve_all unique
  without_glue names [] = do out ← resolve_all names; pure (unique out)
  without_glue names (found ∷ more) = pure (unique (found ∷ more))

  -- `referralServers`
  unfoldable pub referral_servers : Message → N (List String)
  unfolding referral_names glue without_glue
  referral_servers r =
      let names = referral_names [] r.authority in without_glue names (glue names r.additional)

-- the NS records of a name, in one section
unfoldable pub section_ns : DnsLibrary → String → List Rr → List String
unfolding equal_fold to_lower
section_ns dns name [] = []
section_ns dns name (ns h target ∷ rrs) =
    let rest = section_ns dns name rrs in
    if equal_fold (dns.fqdn h.name) name then to_lower (dns.fqdn target) ∷ rest else rest
section_ns dns name (rr ∷ rrs) = section_ns dns name rrs

-- `delegatedNS`
unfoldable pub delegated_ns : DnsLibrary → Message → String → List String
unfolding section_ns sort compact
delegated_ns dns response name =
    compact (sort (section_ns dns name response.answer ++ section_ns dns name response.authority))
