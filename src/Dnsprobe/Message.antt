-- ===== src/Dnsprobe/Message.antt =====
-- The DNS messages that internal/dnsprobe/probe.go reads, as far as it reads them, and what it calls of
-- the library miekg/dns on them.
use dnssec_keyrotation.Base.{ℕ, String, Bool, Option, List}
use dnssec_keyrotation.Model.{DnssecData, Time}

-- `dns.RR_Header`
pub record Header : Type 0 where
  pub name : String
  pub class : ℕ
  pub rrtype : ℕ
  pub ttl : ℕ  -- uint32

-- `dns.DS`
pub record DsData : Type 0 where
  pub key_tag : ℕ
  pub algorithm : ℕ
  pub digest_type : ℕ
  pub digest : String

-- `dns.RRSIG`; `content` is what the library reads beside these fields
pub record Signature : Type 0 where
  pub type_covered : ℕ
  pub algorithm : ℕ
  pub key_tag : ℕ
  pub signer_name : String
  pub content : String

-- `dns.NSEC3`; `content` is what the library reads beside these fields
pub record Nsec3 : Type 0 where
  pub hash : ℕ
  pub opt_out : Bool  -- Flags & 1
  pub iterations : ℕ
  pub salt : String
  pub types : List ℕ
  pub content : String

-- `dns.RR`, by the Go type of the record; an address is its text
pub data Rr : Type 0 where
  dnskey : Header → DnssecData → Rr
  ds : Header → DsData → Rr
  rrsig : Header → Signature → Rr
  soa : Header → Rr
  ns : Header → String → Rr
  nsec : Header → List ℕ → Rr
  nsec3 : Header → Nsec3 → Rr
  a aaaa : Header → String → Rr
  other : Header → Rr

-- `rr.Header()`
abbrev pub header : Rr → Header
header (dnskey h key) = h
header (ds h d) = h
header (rrsig h s) = h
header (soa h) = h
header (ns h target) = h
header (nsec h types) = h
header (nsec3 h n) = h
header (a h address) = h
header (aaaa h address) = h
header (other h) = h

-- `dns.Msg`
pub record Message : Type 0 where
  pub rcode : ℕ
  pub authoritative : Bool
  pub authenticated : Bool
  pub answer : List Rr
  pub authority : List Rr  -- Ns
  pub additional : List Rr  -- Extra

-- A DNSKEY with the name that it stands at.
pub record PublicKey : Type 0 where
  pub owner : String
  pub content : DnssecData

-- miekg/dns: `IsSubDomain`, `SplitDomainName`, the methods `KeyTag`, `ToDS` with SHA-256,
-- `ValidityPeriod` and `Verify`, `Match` and `Cover` of NSEC3; and `net.JoinHostPort(address, "53")`.
pub record RrLibrary : Type 0 where
  pub is_sub_domain : String → String → Bool
  pub split_domain_name : String → List String
  pub key_tag : DnssecData → ℕ
  pub to_ds : PublicKey → Option DsData
  pub validity_period : Signature → Time → Bool
  pub verify : Header → Signature → PublicKey → List Rr → Bool
  pub matches : Header → Nsec3 → String → Bool
  pub covers : Header → Nsec3 → String → Bool
  pub dns_address : String → String

-- The type codes.
abbrev pub type_a : ℕ
type_a = 1

abbrev pub type_ns : ℕ
type_ns = 2

abbrev pub type_cname : ℕ
type_cname = 5

abbrev pub type_soa : ℕ
type_soa = 6

abbrev pub type_aaaa : ℕ
type_aaaa = 28

abbrev pub type_ds : ℕ
type_ds = 43

abbrev pub type_dnskey : ℕ
type_dnskey = 48
