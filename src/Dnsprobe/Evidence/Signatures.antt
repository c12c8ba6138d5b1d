-- ===== src/Dnsprobe/Evidence/Signatures.antt =====
-- The method `verifySignature` of internal/dnsprobe/probe.go: what the servers have shown when it passes.
use dnssec_keyrotation.Base.{
  ℕ, String, Bool, true, false, not, ◌≡◌, List, [], ◌∷◌, All, if◌then◌else◌,
}
use dnssec_keyrotation.Errors.{ok}
use dnssec_keyrotation.Model.{Key, DnssecData, Time}
use dnssec_keyrotation.Inventory.Roles.{key_rr}
use dnssec_keyrotation.Exec.{pure}
use dnssec_keyrotation.Exec.Finds.{
  Finds, Finds-computed, Finds-bind, Finds-lift, Finds-pure, Finds-in_context, Finds-weaken,
}
use dnssec_keyrotation.Dnsprobe.Message.{Message, PublicKey}
use dnssec_keyrotation.Dnsprobe.Network.{Net, Prober}
use dnssec_keyrotation.Dnsprobe.Checks.Signed.{ShowsSignature, verify_signature-Shows}
use dnssec_keyrotation.Dnsprobe.Log.Clock.{ClockRead, ClockRead-later, read-ClockRead}
use dnssec_keyrotation.Dnsprobe.Log.{
  IsLasting, Replied, query-Finds, Both, Both-lasting, Every-lasting, anything, IfIncluded,
  question,
}
use dnssec_keyrotation.Dnsprobe.Evidence.{
  check_signature, local_signature, signatures, collect_signatures,
}

module _ (p : Prober) where
  -- The server has answered with records of the type that the key signs, at the time of the check.
  pub record SignedAt (name : String) (typ : ℕ) (key : PublicKey) (recursive : Bool)
      (server : String) (net : Net) : Type 0 where
    pub reply : Message
    pub at : Time
    pub read : ClockRead p (question server name typ recursive) reply at net
    pub shows : ShowsSignature p.dns p.rr reply typ key recursive (not recursive) name at

  module _ (name : String) (typ : ℕ) (key : PublicKey) (recursive : Bool) where
    SignedAt-lasting : (server : String) → IsLasting (SignedAt name typ key recursive server)
    SignedAt-lasting server = record {
      stable = λ e net h. record {
        reply = h.reply;
        at = h.at;
        read = ClockRead-later p e h.read;
        shows = h.shows;
      };
    }

    check-SignedAt :
        {H : Net → Type 0}
        → IsLasting H
        → (server : String) (r : Message)
        → Finds
            (Both (Replied (question server name typ recursive) r) H)
            (λ _ net. SignedAt name typ key recursive server net × H net)
            (check_signature p name typ key recursive r)
    unfolding check_signature
    check-SignedAt lasting server r = Finds-bind (read-ClockRead p lasting _ r) λ at.
        Finds-lift _ λ _ e net h. (
          record {
            reply = r;
            at = at;
            read = h.0;
            shows =
                (verify_signature-Shows p.dns p.rr r typ key recursive (not recursive) name at).at
                  tt e;
          },
          h.1,
        )

    signatures-SignedAt :
        (format : String) (servers : List String) {H : Net → Type 0}
        → IsLasting H
        → Finds H
            (λ _ net. All (λ server. SignedAt name typ key recursive server net) servers × H net)
            (signatures p format name typ key recursive servers)
    unfolding signatures
    signatures-SignedAt format [] lasting = Finds-pure tt λ net h. (tt, h)
    signatures-SignedAt format (server ∷ servers) lasting =
        Finds-bind (query-Finds p lasting server name typ recursive) λ r.
          Finds-bind (Finds-in_context _ _ (check-SignedAt lasting server r)) λ _.
            Finds-weaken
              (signatures-SignedAt format servers (Both-lasting (SignedAt-lasting server) lasting))
              λ _ net h. ((h.1.0, h.0), h.1.1)

  module _ (name : String) (typ : ℕ) (key : PublicKey) where
    local-SignedAt :
        {H : Net → Type 0}
        → IsLasting H
        → Finds H
            (λ _ net. SignedAt name typ key false p.local_server net × H net)
            (local_signature p name typ key)
    unfolding local_signature
    local-SignedAt lasting = Finds-in_context _ _ (
        Finds-bind (query-Finds p lasting p.local_server name typ false)
          λ r. check-SignedAt name typ key false lasting p.local_server r)

    included-SignedAt :
        (format : String) (include_resolvers : Bool) {H : Net → Type 0}
        → IsLasting H
        → Finds H
            (λ _ net.
              IfIncluded (SignedAt name typ key true) p.resolvers include_resolvers net × H net)
            (if include_resolvers
              then signatures p format name typ key true p.resolvers
              else pure tt)
    included-SignedAt format true lasting =
        signatures-SignedAt name typ key true format p.resolvers lasting
    included-SignedAt format false lasting = Finds-pure tt λ net h. (tt, h)

  -- Every server has answered with records of the type, signed by the key of the inventory.
  pub record SignaturesShown (name : String) (typ : ℕ) (key : Key) (include_resolvers : Bool)
      (net : Net) : Type 0 where
    pub content : DnssecData
    pub parsed : key_rr p.dns name key ≡ ok content
    pub local :
        SignedAt name typ
          (record { owner = p.dns.fqdn name; content = content })
          false
          p.local_server
          net
    pub servers :
        All
          (λ server.
            SignedAt name typ
              (record { owner = p.dns.fqdn name; content = content })
              false
              server
              net)
          p.authoritative
    pub resolvers :
        IfIncluded
          (SignedAt name typ (record { owner = p.dns.fqdn name; content = content }) true)
          p.resolvers
          include_resolvers
          net

  pub collect_signatures-Finds :
      (name : String) (typ : ℕ) (key : Key) (include_resolvers : Bool)
      → Finds
          (λ net. Unit {0})
          (λ _. SignaturesShown name typ key include_resolvers)
          (collect_signatures p name typ key include_resolvers)
  unfolding collect_signatures
  collect_signatures-Finds name typ key include_resolvers = Finds-computed _ λ content parsed.
      let signer : PublicKey = record { owner = p.dns.fqdn name; content = content } in
      let shown = SignedAt-lasting name typ signer false in
      let first = Both-lasting (shown p.local_server) anything in
      Finds-bind (local-SignedAt name typ signer anything) λ _.
        Finds-bind (signatures-SignedAt name typ signer false _ p.authoritative first) λ _.
          Finds-weaken
            (included-SignedAt name typ signer _ include_resolvers
              (Both-lasting (Every-lasting shown p.authoritative) first))
            λ _ net h. record {
              content = content;
              parsed = parsed;
              local = h.1.1.0;
              servers = h.1.0;
              resolvers = h.0;
            }
