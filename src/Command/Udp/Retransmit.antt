-- ===== src/Command/Udp/Retransmit.antt =====
-- Repeated datagrams.
use mathlib.Core.Path.{subst}
use mathlib.Core.Option.{some-injective, none-ne-some}
use go_rtp_cluster.Base.{
  Option-cases, inl, inr, ℕ, ◌≡◌, refl, ◌≢◌, true, false, Option, none, some, List, [], ◌∷◌, ◌++◌,
  Str, arith, str_eq,
}
use go_rtp_cluster.Base.Dict.{lookup, insert, erase, has, lookup-insert, has-insert, has-erase}
use go_rtp_cluster.Externals.{Externals, Cmd}
use go_rtp_cluster.Member.{Member}
use go_rtp_cluster.Cluster.{Cluster, udp, Effect, send_to}
use go_rtp_cluster.Command.Reply.{answer, down_command}
use go_rtp_cluster.Command.Dispatch.{up_command}
use go_rtp_cluster.Command.Udp.{up_command_udp, run_command, cached_response, rcache_purge}

snoc-ne-nil : (s : Str) (b : ℕ) → s ++ b ∷ [] ≢ []
snoc-ne-nil [] b h = ground arith
snoc-ne-nil (x ∷ s) b h = ground arith

module _ ⦃E : Externals⦄ where
  open E use {Float, Rest}

  module _ (rand : Float) (text cookie cmd address : Str) (rest : List Str)
      (split : E.fields_n text 2 ≡ cookie ∷ cmd ∷ rest) where
    -- While the command of a datagram of two fields is in flight, its repetition does nothing.
    pub in_flight-ignored :
        (c : Cluster)
        → has cookie c.commands_inflight ≡ true
        → up_command_udp rand text address c ≡ some (c, [])
    unfolding up_command_udp
    in_flight-ignored c h = rw (split, up_command_udp, run_command, h)

    answered :
        (c : Cluster) (response : Str)
        → has cookie c.commands_inflight ≡ false
        → cached_response cookie c ≡ response
        → response ≢ []
        → up_command_udp rand text address c
          ≡ some (c, send_to (cookie ++ 32 ∷ response) address ∷ [])
    unfolding up_command_udp
    answered c response h e n = rw (split, up_command_udp, run_command, h, e) (ground arith)

    -- What was sent, and what a repetition brings now and after one purge of the cache.
    abbrev pub Repeats : Str → Cluster → List Effect → Type 0
    Repeats sender d es =
        (response : Str) × (es ≡ send_to (cookie ++ 32 ∷ response) sender ∷ [])
        × (up_command_udp rand text address d
            ≡ some (d, send_to (cookie ++ 32 ∷ response) address ∷ []))
        × (up_command_udp rand text address (rcache_purge d)
            ≡ some (rcache_purge d, send_to (cookie ++ 32 ∷ response) address ∷ []))

    sent_Repeats :
        (sender t : Str) (c : Cluster)
        → let d = record c {
          commands_inflight = erase cookie c.commands_inflight;
          l1rcache = insert cookie (t ++ 10 ∷ []) c.l1rcache;
        } in
          Repeats sender d (send_to (cookie ++ 32 ∷ (t ++ 10 ∷ [])) sender ∷ [])
    unfolding cached_response rcache_purge lookup
    sent_Repeats sender t c = (
      t ++ 10 ∷ [],
      refl,
      answered _ (t ++ 10 ∷ []) (ground (arith, has-erase cookie cookie c.commands_inflight))
          (ground (arith, lookup-insert cookie cookie (t ++ 10 ∷ []) c.l1rcache))
          (snoc-ne-nil t 10),
      answered _ (t ++ 10 ∷ []) (ground (arith, has-erase cookie cookie c.commands_inflight))
          (ground (arith, lookup-insert cookie cookie (t ++ 10 ∷ []) c.l1rcache))
          (snoc-ne-nil t 10),
    )

    -- Once `down_command` has answered the command of a datagram of two fields, its repetition gets
    -- the same answer and changes nothing, also after one purge of the cache.
    pub down_command-repeated :
        (result : Str) (sender : Str) (command : Cmd Rest) (m : Option Member) (c d : Cluster)
        (es : List Effect)
        → down_command result (udp cookie sender) command m c ≡ some (d, es)
        → Repeats sender d es
    unfolding down_command
    down_command-repeated result sender command m c d es h =
        elim (Option-cases (answer result command m)) [
          | inl e ↦ absurd (none-ne-some _ (rw (e, down_command) at h))
          | inr (t, e) ↦
              subst (λ (p : Cluster × List Effect). Repeats sender p.0 p.1)
                (some-injective _ _ (rw (e, down_command) at h)) (sent_Repeats sender t c)
        ]

    -- A command that cannot be parsed, is not in flight and has no answer in the cache is not
    -- answered, and stays in flight: a repetition does nothing, also after a purge of the cache.
    pub unparsable-silent :
        (c : Cluster)
        → E.parse_cmd cmd ≡ none
        → has cookie c.commands_inflight ≡ false
        → cached_response cookie c ≡ []
        → (d : Cluster) × (up_command_udp rand text address c ≡ some (d, []))
          × (up_command_udp rand text address d ≡ some (d, []))
          × (up_command_udp rand text address (rcache_purge d) ≡ some (rcache_purge d, []))
    unfolding up_command_udp up_command rcache_purge
    unparsable-silent c bad fresh unknown = (
      record c { commands_inflight = insert cookie true c.commands_inflight },
      dropped,
      in_flight-ignored _ in_flight,
      in_flight-ignored _ in_flight,
    )
      where
        in_flight : has cookie (insert cookie true c.commands_inflight) ≡ true
        in_flight = ground (arith, has-insert cookie cookie true c.commands_inflight)

        dropped :
            up_command_udp rand text address c
            ≡ some (record c { commands_inflight = insert cookie true c.commands_inflight }, [])
        dropped = rw (split, up_command_udp, run_command, fresh, unknown) (ground (arith, bad))
