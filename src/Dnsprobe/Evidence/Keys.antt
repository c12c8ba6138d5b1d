-- ===== src/Dnsprobe/Evidence/Keys.antt =====
-- `dnskeyEvidence` and `DSEvidence` of internal/dnsprobe/probe.go: what the servers have shown when the
-- evidence is given.
use mathlib.Core.List.{Memᴰ}
use dnssec_keyrotation.Base.{
  ℕ, ◌≤◌, ◌<◌, ◌*◌, String, Bool, true, false, not, ◌≡◌, refl, List, [], ◌∷◌, All, nat_eq, ◌==◌,
  ltb, if◌then◌else◌, arith,
}
use dnssec_keyrotation.Errors.{ok}
use dnssec_keyrotation.Model.{Key, DnssecData, Duration, second}
use dnssec_keyrotation.Exec.{pure}
use dnssec_keyrotation.Exec.Finds.{
  Finds, Finds-bind, Finds-lift, Finds-pure, Finds-fail, Finds-in_context, Finds-decide,
  Finds-weaken, Finds-computed,
}
use dnssec_keyrotation.Dnsprobe.Message.{Message, type_dnskey}
use dnssec_keyrotation.Dnsprobe.Network.{Net, Prober}
use dnssec_keyrotation.Dnsprobe.Checks.{expected_dnskeys, rrset_ttl}
use dnssec_keyrotation.Dnsprobe.Checks.Sound.{ShowsKeys, verify_dnskey_set-ShowsKeys}
use dnssec_keyrotation.Dnsprobe.Log.{
  IsLasting, Replied, query-Finds, Both, Both-lasting, Every-lasting, anything, IfIncluded,
  question,
}
use dnssec_keyrotation.Dnsprobe.Evidence.{
  shown_dnskeys, authoritative_dnskeys, recursive_dnskeys, collect_dnskeys,
}

module _ (p : Prober) where
  -- The server has answered with exactly the expected DNSKEYs, and their TTL is at most the bound.
  pub record KeysAt (name : String) (expected : List DnssecData) (recursive : Bool) (bound : ℕ)
      (server : String) (net : Net) : Type 0 where
    pub reply : Message
    pub replied : Replied (question server name type_dnskey recursive) reply net
    pub shows : ShowsKeys p.dns p.rr reply expected recursive (not recursive)
    pub bounded : rrset_ttl reply.answer type_dnskey ≤ bound

  KeysAt-lasting :
      (name : String) (expected : List DnssecData) (recursive : Bool) (bound : ℕ) (server : String)
      → IsLasting (KeysAt name expected recursive bound server)
  KeysAt-lasting name expected recursive bound server = record {
    stable = λ e net h. record {
      reply = h.reply;
      replied = Memᴰ.tail h.replied;
      shows = h.shows;
      bounded = h.bounded;
    };
  }

  module _ (name : String) (expected : List DnssecData) where
    KeysAt-raise :
        (recursive : Bool) (server : String) (net : Net) (low high : ℕ)
        → low ≤ high
        → KeysAt name expected recursive low server net
        → KeysAt name expected recursive high server net
    KeysAt-raise recursive server net low high raised h = record {
      reply = h.reply;
      replied = h.replied;
      shows = h.shows;
      bounded = let bounded = h.bounded in omega arith;
    }

    shown-KeysAt :
        {H : Net → Type 0}
        → IsLasting H
        → (recursive : Bool) (server : String)
        → Finds H
            (λ ttl net. KeysAt name expected recursive ttl server net × H net)
            (shown_dnskeys p name expected recursive server)
    unfolding shown_dnskeys
    shown-KeysAt lasting recursive server =
        Finds-bind (query-Finds p lasting server name type_dnskey recursive) λ r.
          Finds-bind
            {Q = λ _ net.
              (Replied (question server name type_dnskey recursive) r net × _)
              × ShowsKeys p.dns p.rr r expected recursive (not recursive)}
            (Finds-lift _ λ _ e net h. (
              h,
              (verify_dnskey_set-ShowsKeys p.dns p.rr r expected recursive (not recursive) name).at
                  tt e,
            ))
            λ _. Finds-pure _ λ net h.
              (record { reply = r; replied = h.0.0; shows = h.1; bounded = omega arith }, h.0.1)

    raised :
        (ttl observed out : ℕ)
        → (if ltb ttl observed then observed else ttl) ≤ out
        → (ttl ≤ out) × (observed ≤ out)
    raised ttl observed out h = ground arith

    authoritative-KeysAt :
        (servers : List String) {H : Net → Type 0}
        → IsLasting H
        → (ttl : ℕ)
        → Finds H
            (λ out.
              Both
                (λ net. All (λ server. KeysAt name expected false out server net) servers)
                (Both (λ _. ttl ≤ out) H))
            (authoritative_dnskeys p name expected ttl servers)
    unfolding authoritative_dnskeys
    authoritative-KeysAt [] lasting ttl = Finds-pure ttl λ net h. (tt, (omega arith, h))
    authoritative-KeysAt (server ∷ servers) lasting ttl =
        Finds-bind (Finds-in_context _ _ (shown-KeysAt lasting false server)) λ observed.
          Finds-weaken
            (authoritative-KeysAt servers
              (Both-lasting (KeysAt-lasting name expected false observed server) lasting)
              (if ltb ttl observed then observed else ttl))
            λ out net h.
              let bounds = raised ttl observed out h.1.0 in
              (
                (KeysAt-raise false server net observed out bounds.1 h.1.1.0, h.0),
                (bounds.0, h.1.1.1),
              )

    -- A resolver has answered so, whatever the TTL.
    abbrev pub KeysVia : String → Net → Type 0
    KeysVia server net = (bound : ℕ) × KeysAt name expected true bound server net

    recursive-KeysVia :
        (servers : List String) {H : Net → Type 0}
        → IsLasting H
        → Finds H
            (λ _ net. All (λ server. KeysVia server net) servers × H net)
            (recursive_dnskeys p name expected servers)
    unfolding recursive_dnskeys
    recursive-KeysVia [] lasting = Finds-pure tt λ net h. (tt, h)
    recursive-KeysVia (server ∷ servers) lasting =
        Finds-bind (Finds-in_context _ _ (shown-KeysAt lasting true server)) λ observed.
          Finds-weaken
            (recursive-KeysVia servers
              (Both-lasting (KeysAt-lasting name expected true observed server) lasting))
            λ _ net h. (((observed, h.1.0), h.0), h.1.1)

    included-KeysVia :
        (include_resolvers : Bool) {H : Net → Type 0}
        → IsLasting H
        → Finds H
            (λ _ net. IfIncluded KeysVia p.resolvers include_resolvers net × H net)
            (if include_resolvers then recursive_dnskeys p name expected p.resolvers else pure tt)
    included-KeysVia true lasting = recursive-KeysVia p.resolvers lasting
    included-KeysVia false lasting = Finds-pure tt λ net h. (tt, h)

  -- Every server has shown exactly the DNSKEYs of the inventory, and the duration is the highest TTL.
  pub record KeysShown (zone : String) (include_resolvers : Bool) (keys : List Key) (d : Duration)
      (net : Net) : Type 0 where
    pub expected : List DnssecData
    pub parsed : expected_dnskeys p.dns (p.dns.fqdn zone) keys ≡ ok expected
    pub ttl : ℕ
    pub value : d ≡ ttl * second
    pub positive : 0 < ttl
    pub local : KeysAt (p.dns.fqdn zone) expected false ttl p.local_server net
    pub servers :
        All (λ server. KeysAt (p.dns.fqdn zone) expected false ttl server net) p.authoritative
    pub resolvers :
        IfIncluded (KeysVia (p.dns.fqdn zone) expected) p.resolvers include_resolvers net

  positive_ttl : (ttl : ℕ) → (ttl == 0) ≡ false → 0 < ttl
  positive_ttl ttl e = ground arith

  pub collect_dnskeys-Finds :
      (zone : String) (include_resolvers : Bool) (keys : List Key)
      → Finds
          (λ net. Unit {0})
          (KeysShown zone include_resolvers keys)
          (collect_dnskeys p zone include_resolvers keys)
  unfolding collect_dnskeys
  collect_dnskeys-Finds zone include_resolvers keys =
      let name = p.dns.fqdn zone in
      Finds-computed _ λ want parsed.
        let at = KeysAt-lasting name want false in
        Finds-bind (Finds-in_context _ _ (shown-KeysAt name want anything false p.local_server))
          λ first.
            Finds-bind
              (authoritative-KeysAt name want p.authoritative
                (Both-lasting (at first p.local_server) anything) first)
              λ ttl.
                Finds-bind
                  (included-KeysVia name want include_resolvers (
                    Both-lasting (Every-lasting (at ttl) p.authoritative) (
                      Both-lasting {H = λ _. first ≤ ttl} (record { stable = λ e net h. h })
                        (Both-lasting (at first p.local_server) anything))))
                  λ _.
                    Finds-decide (ttl == 0) (λ zero_ttl. Finds-fail _)
                      λ nonzero. Finds-pure _ λ net h. record {
                        expected = want;
                        parsed = parsed;
                        ttl = ttl;
                        value = refl;
                        positive = positive_ttl ttl nonzero;
                        local =
                            KeysAt-raise name want false p.local_server net first ttl h.1.1.0
                              h.1.1.1.0;
                        servers = h.1.0;
                        resolvers = h.0;
                      }
