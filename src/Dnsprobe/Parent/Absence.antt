-- ===== src/Dnsprobe/Parent/Absence.antt =====
-- `NoDSEvidence` of internal/dnsprobe/probe.go: what has been shown when the evidence is given.
use mathlib.Core.List.{Memᴰ}
use dnssec_keyrotation.Base.{
  ℕ, ◌≤◌, String, Bool, true, false, not, ◌≡◌, refl, List, [], ◌∷◌, All, nat_eq, string_eq, ltb,
  length, arith, contains,
}
use dnssec_keyrotation.Exec.Finds.{
  Finds, Finds-bind, Finds-pure, Finds-fail, Finds-decide, Finds-from, Finds-checked,
  Finds-in_context, Finds-outcome, Finds-either, Finds-weaken,
}
use dnssec_keyrotation.Dnsprobe.Message.{Message, type_ds, type_soa}
use dnssec_keyrotation.Dnsprobe.Network.{Net, Prober}
use dnssec_keyrotation.Dnsprobe.Checks.{has_type}
use dnssec_keyrotation.Dnsprobe.Log.{
  Every-lasting, IsLasting, Replied, Both, Both-lasting, question, anything, query-Finds,
  verify_no_ds-Lasting,
}
use dnssec_keyrotation.Dnsprobe.Referral.{first_resolver, first_of}
use dnssec_keyrotation.Dnsprobe.Parent.{
  Round, no_ds_step, recursive_no_ds, collect_no_ds, root_servers, referral_depth,
}
use dnssec_keyrotation.Dnsprobe.Parent.Tally.{
  TwoShow, Tally, Tally-lasts, Counted-skip, Counted-add,
}
use dnssec_keyrotation.Dnsprobe.Parent.Agreed.{
  At, At-IsEvidence, refer-Tally, parent_rounds-TwoShow,
}
use dnssec_keyrotation.Dnsprobe.Denial.Denied.{Denied, Denied-lasting, verify_no_ds-Denied}

module _ (p : Prober) where
  -- The server has answered with such a proof.
  pub record NoDsAt (name : String) (recursive : Bool) (resolver server : String) (net : Net)
      : Type 0 where
    pub reply : Message
    pub replied : Replied (question server name type_ds recursive) reply net
    pub denied : Denied p reply name resolver (not recursive) net

  NoDsAt-lasting :
      (name : String) (recursive : Bool) (resolver server : String)
      → IsLasting (NoDsAt name recursive resolver server)
  NoDsAt-lasting name recursive resolver server = record {
    stable = λ e net h. record {
      reply = h.reply;
      replied = Memᴰ.tail h.replied;
      denied = (Denied-lasting p h.reply name resolver (not recursive)).stable e net h.denied;
    };
  }

  recursive_no_ds-NoDsAt :
      (name : String) (resolvers : List String) {H : Net → Type 0}
      → IsLasting H
      → Finds H
          (λ _ net. All (λ server. NoDsAt name true server server net) resolvers × H net)
          (recursive_no_ds p name resolvers)
  unfolding recursive_no_ds
  recursive_no_ds-NoDsAt name [] lasting = Finds-pure tt λ net h. (tt, h)
  recursive_no_ds-NoDsAt name (resolver ∷ resolvers) lasting =
      Finds-bind (Finds-in_context _ _ (query-Finds p lasting resolver name type_ds true)) λ r.
        Finds-bind
          (Finds-in_context _ _ (
            verify_no_ds-Denied p r name resolver false (
              Both-lasting {H = Replied (question resolver name type_ds true) r}
                (record { stable = λ e net h. Memᴰ.tail h }) lasting)))
          λ _.
            Finds-weaken
              (Finds-from (λ net h. (record { reply = r; replied = h.1.0; denied = h.0 }, h.1.1))
                (recursive_no_ds-NoDsAt name resolvers
                  (Both-lasting (NoDsAt-lasting name true resolver resolver) lasting)))
              λ _ net h. ((h.1.0, h.0), h.1.1)

  first_resolver-Member :
      {H : Net → Type 0} → Finds H (λ r. Both (λ _. Memᴰ r p.resolvers) H) (first_resolver p)
  unfolding first_resolver
  first_resolver-Member {H} = first p.resolvers
    where
      first :
          (resolvers : List String)
          → Finds H (λ r. Both (λ _. Memᴰ r resolvers) H) (first_of resolvers)
      first [] = Finds-fail _
      first (r ∷ rest) = Finds-pure r λ net h. (Memᴰ.head refl, h)

  -- The server of the parent has answered so, with the keys that a configured resolver has validated.
  pub record ParentNoDsAt (name server : String) (net : Net) : Type 0 where
    pub resolver : String
    pub configured : Memᴰ resolver p.resolvers
    pub shows : NoDsAt name false resolver server net

  ParentNoDsAt-lasting : (name server : String) → IsLasting (ParentNoDsAt name server)
  ParentNoDsAt-lasting name server = record {
    stable = λ e net h. record {
      resolver = h.resolver;
      configured = h.configured;
      shows = (NoDsAt-lasting name false h.resolver server).stable e net h.shows;
    };
  }

  module _ (name server : String) (servers : List String) (r : Message) (round : Round)
      {H : Net → Type 0} (kept : IsLasting H) where
    -- What is known before a reply is counted.
    abbrev Waiting : Net → Type 0
    Waiting =
        Both (Replied (question server name type_ds false) r)
          (Both (Tally (At (ParentNoDsAt-lasting name)) round (server ∷ servers)) H)

    Waiting-lasting : IsLasting Waiting
    Waiting-lasting =
        Both-lasting (record { stable = λ e net h. Memᴰ.tail h })
          (Both-lasting
            (Tally-lasts (At-IsEvidence (ParentNoDsAt-lasting name)) round (server ∷ servers)) kept)

    no_ds_step-Tally :
        contains servers server ≡ false
        → Finds Waiting
            (λ next. Both (Tally (At (ParentNoDsAt-lasting name)) next servers) H)
            (no_ds_step p name server r round)
    unfolding no_ds_step
    no_ds_step-Tally fresh =
        let evidence = At-IsEvidence (ParentNoDsAt-lasting name) in
        Finds-decide (has_type r.answer type_ds) (λ present. Finds-fail _)
          λ absent.
            Finds-decide (has_type r.authority type_soa)
              (λ soa. Finds-bind first_resolver-Member λ resolver.
                let known =
                  Both-lasting {H = λ _. Memᴰ resolver p.resolvers}
                    (record { stable = λ e net h. h }) Waiting-lasting in
                Finds-bind
                  (Finds-outcome (verify_no_ds-Denied p r name resolver true known)
                    (verify_no_ds-Lasting p known r name resolver true))
                  λ outcome.
                    Finds-either outcome
                      (λ e.
                        Finds-pure _
                          λ net h. (Counted-skip evidence _ _ server servers net h.1.1.0, h.1.1.1))
                      (λ _. Finds-pure _ λ net h. (
                        Counted-add evidence round.verified round.highest_ttl _ server servers net
                            (omega arith) fresh
                            (record {
                              resolver = resolver;
                              configured = h.1.0;
                              shows = record { reply = r; replied = h.1.1.0; denied = h.0.0 };
                            })
                            h.1.1.1.0,
                        h.1.1.1.1,
                      )))
              λ referral.
                Finds-from (λ net h. h.1)
                  (refer-Tally (ParentNoDsAt-lasting name) p server servers r round kept)

  -- Every resolver and two different servers of the parent have proved that the zone has no DS.
  pub record NoDsShown (zone : String) (net : Net) : Type 0 where
    pub enough : 2 ≤ length p.resolvers
    pub resolvers : All (λ server. NoDsAt (p.dns.fqdn zone) true server server net) p.resolvers
    pub parent : TwoShow (λ _. ParentNoDsAt (p.dns.fqdn zone)) 0 net

  two_resolvers : (n : ℕ) → ltb n 2 ≡ false → 2 ≤ n
  two_resolvers n e = ground arith

  pub collect_no_ds-Finds :
      (zone : String) → Finds (λ net. Unit {0}) (λ _. NoDsShown zone) (collect_no_ds p zone)
  unfolding collect_no_ds
  collect_no_ds-Finds zone =
      let name = p.dns.fqdn zone in
      Finds-checked (ltb (length p.resolvers) 2) _ λ enough.
        Finds-bind (recursive_no_ds-NoDsAt name p.resolvers anything) λ _.
          let kept = Every-lasting (λ server. NoDsAt-lasting name true server server) p.resolvers in
          Finds-weaken
            (Finds-from (λ net h. h.0)
              (parent_rounds-TwoShow (ParentNoDsAt-lasting name) p name type_ds (no_ds_step p name)
                kept (λ server servers r round. no_ds_step-Tally name server servers r round kept) _
                _ referral_depth root_servers (refl, (refl, tt))))
            λ _ net h. record { enough = two_resolvers _ enough; resolvers = h.1; parent = h.0 }
