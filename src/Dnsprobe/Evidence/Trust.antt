-- ===== src/Dnsprobe/Evidence/Trust.antt =====
-- `DSEvidence` and the method `verifySignature` of internal/dnsprobe/probe.go: what the servers have shown
-- when the evidence is given.
use mathlib.Core.List.{Memᴰ}
use dnssec_keyrotation.Base.{String, true, false, ◌≡◌, List, [], ◌∷◌, All}
use dnssec_keyrotation.Base.Order.{Slashed}
use dnssec_keyrotation.Errors.{ok}
use dnssec_keyrotation.Model.{Key}
use dnssec_keyrotation.Exec.Finds.{
  Finds, Finds-computed, Finds-checked, Finds-bind, Finds-lift, Finds-pure, Finds-in_context,
  Finds-weaken,
}
use dnssec_keyrotation.Dnsprobe.Message.{Message, type_ds}
use dnssec_keyrotation.Dnsprobe.Network.{Net, Prober}
use dnssec_keyrotation.Dnsprobe.Checks.{expected_ds}
use dnssec_keyrotation.Dnsprobe.Checks.Sound.{ShowsDs, exact_ds-ShowsDs, not-false}
use dnssec_keyrotation.Dnsprobe.Log.{
  IsLasting, anything, Replied, query-Finds, Both-lasting, question,
}
use dnssec_keyrotation.Dnsprobe.Evidence.{shown_ds, recursive_ds, collect_ds}

module _ (p : Prober) where
  -- The resolver has validated the answer, which has exactly the wanted DS records.
  pub record DsAt (name : String) (want : List Slashed) (server : String) (net : Net) : Type 0 where
    pub reply : Message
    pub replied : Replied (question server name type_ds true) reply net
    pub authenticated : reply.authenticated ≡ true
    pub shows : ShowsDs p.dns p.rr reply want false

  DsAt-lasting :
      (name : String) (want : List Slashed) (server : String) → IsLasting (DsAt name want server)
  DsAt-lasting name want server = record {
    stable = λ e net h. record {
      reply = h.reply;
      replied = Memᴰ.tail h.replied;
      authenticated = h.authenticated;
      shows = h.shows;
    };
  }

  module _ (name : String) (want : List Slashed) where
    shown-DsAt :
        {H : Net → Type 0}
        → IsLasting H
        → (server : String)
        → Finds H (λ _ net. DsAt name want server net × H net) (shown_ds p name want server)
    unfolding shown_ds
    shown-DsAt lasting server =
        Finds-bind (Finds-in_context _ _ (query-Finds p lasting server name type_ds true)) λ r.
          Finds-checked _ _ λ validated. Finds-in_context _ _ (
            Finds-lift _ λ _ e net h. (
              record {
                reply = r;
                replied = h.0;
                authenticated = not-false _ validated;
                shows = (exact_ds-ShowsDs p.dns p.rr r want name false).at tt e;
              },
              h.1,
            ))

    recursive-DsAt :
        (servers : List String) {H : Net → Type 0}
        → IsLasting H
        → Finds H
            (λ _ net. All (λ server. DsAt name want server net) servers × H net)
            (recursive_ds p name want servers)
    unfolding recursive_ds
    recursive-DsAt [] lasting = Finds-pure tt λ net h. (tt, h)
    recursive-DsAt (server ∷ servers) lasting = Finds-bind (shown-DsAt lasting server) λ _.
        Finds-weaken (recursive-DsAt servers (Both-lasting (DsAt-lasting name want server) lasting))
          λ _ net h. ((h.1.0, h.0), h.1.1)

  -- Every resolver has shown exactly the DS records of the keys.
  pub record DsShown (zone : String) (keys : List Key) (net : Net) : Type 0 where
    pub want : List Slashed
    pub derived : expected_ds p.dns p.rr (p.dns.fqdn zone) keys ≡ ok want
    pub resolvers : All (λ server. DsAt (p.dns.fqdn zone) want server net) p.resolvers

  pub collect_ds-Finds :
      (zone : String) (keys : List Key)
      → Finds (λ net. Unit {0}) (λ _. DsShown zone keys) (collect_ds p zone keys)
  unfolding collect_ds
  collect_ds-Finds zone keys = Finds-computed _ λ want derived.
      Finds-weaken (recursive-DsAt (p.dns.fqdn zone) want p.resolvers anything)
        λ _ net h. record { want = want; derived = derived; resolvers = h.0 }
