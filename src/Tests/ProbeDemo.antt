-- ===== src/Tests/ProbeDemo.antt =====
-- A network whose servers answer every question of the probe well.
use dnssec_keyrotation.Base.{
  ℕ, String, true, false, none, some, List, [], ◌∷◌, if◌then◌else◌, ◌==◌, nat_eq,
}
use dnssec_keyrotation.Errors.{ok}
use dnssec_keyrotation.Model.{Key}
use dnssec_keyrotation.Dnsprobe.Message
use dnssec_keyrotation.Dnsprobe.Message.{
  Header, DsData, Signature, Rr, Message, RrLibrary, type_dnskey, type_ds, type_ns, type_soa,
}
use dnssec_keyrotation.Dnsprobe.Network.{Prober}
use dnssec_keyrotation.Tests.Demo.{key, dns}

abbrev header : String → ℕ → Header
header name rrtype = record { name = name; class = 1; rrtype = rrtype; ttl = 3600 }

abbrev signature : ℕ → Rr
signature typ =
    Message.rrsig (header "example.org." 46) (record {
      type_covered = typ;
      algorithm = 13;
      key_tag = 7;
      signer_name = "org.";
      content = "";
    })

abbrev dnskey : String → Rr
dnskey name =
    Message.dnskey (header name type_dnskey)
      (record { flags = 257; protocol = 3; algorithm = 13; public_key = "ksk" })

abbrev pub ds_data : DsData
ds_data = record { key_tag = 7; algorithm = 13; digest_type = 2; digest = "ab" }

abbrev pub answers : ℕ → String → List Rr
answers typ name =
    if typ == type_dnskey
    then dnskey name ∷ signature type_dnskey ∷ []
    else if typ == type_ds
    then Message.ds (header name type_ds) ds_data ∷ []
    else if typ == type_soa
    then Message.soa (header name type_soa) ∷ signature type_soa ∷ []
    else Message.ns (header name type_ns) "ns1." ∷ Message.ns (header name type_ns) "ns2." ∷ []

abbrev pub reply : List Rr → List Rr → Message
reply answer authority = record {
  rcode = 0;
  authoritative = true;
  authenticated = true;
  answer = answer;
  authority = authority;
  additional = [];
}

abbrev pub library : RrLibrary
library = record {
  is_sub_domain = λ parent name. true;
  split_domain_name = λ name. [];
  key_tag = λ content. 7;
  to_ds = λ key. some ds_data;
  validity_period = λ s at. true;
  verify = λ place s key rrs. true;
  matches = λ place n name. false;
  covers = λ place n name. false;
  dns_address = λ address. address;
}

abbrev pub prober : Prober
prober = record {
  resolvers = "192.0.2.1:53" ∷ "192.0.2.2:53" ∷ [];
  authoritative = "192.0.2.3:53" ∷ "192.0.2.4:53" ∷ [];
  local_server = "127.0.0.1:53";
  exchange = λ past q. ok (reply (answers q.type q.name) []);
  cancelled = λ past. none;
  clock = λ past. 5;
  dns = dns;
  rr = library;
}

-- A parent that proves that there is no DS.
abbrev denial : List Rr
denial =
    Message.soa (header "org." type_soa)
    ∷ Message.nsec (header "example.org." 47) (type_ns ∷ [])
    ∷ signature 47
    ∷ []

abbrev pub unsigned_prober : Prober
unsigned_prober = record prober {
  exchange = λ past q.
      ok (if q.type == type_ds then reply [] denial else reply (answers q.type q.name) []);
}

abbrev pub probe_keys : List Key
probe_keys = key 1 "ksk" true ∷ []
