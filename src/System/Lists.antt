-- ===== src/System/Lists.antt =====
-- The member lists of a running cluster.
use mathlib.Core.Option.{none-ne-some, some-injective}
use go_rtp_cluster.Base.{
  ℕ, ◌≡◌, refl, true, Option, none, some, List, [], ◌∷◌, Str, ◌==◌, str_eq, if_cases, get_elem?,
  Option-cases, inl, inr,
}
use go_rtp_cluster.Base.Dict.{has, insert}
use go_rtp_cluster.Externals.{Externals, IsClient}
use go_rtp_cluster.Cluster.{Cluster, Clim, udp, unix, Callback, down, ignore, merge, merge_stats}
use go_rtp_cluster.Cluster.Invariant.{Inv}
use go_rtp_cluster.Cluster.Invariant.History.{step-Inv}
use go_rtp_cluster.Command.{Outcome}
use go_rtp_cluster.Command.Dispatch.{up_command}
use go_rtp_cluster.Command.Dispatch.Callbacks.{deliver}
use go_rtp_cluster.Command.Udp.{up_command_udp, rcache_purge, run_command, cached_response}
use go_rtp_cluster.System.{
  System, Happening, datagram, line, answered, member_event, purged, sent, remove_at, then_wait,
  happen, happen_all,
}
use go_rtp_cluster.System.Quiet.{Calm, same-Calm, Calm-refl, Calm-trans, Calm-Inv}
use go_rtp_cluster.System.Handled.{Handled-Calm, Handles, Settles, down_command-Settles}
use go_rtp_cluster.System.Handlers.{up_command-Handles}
use go_rtp_cluster.System.Counting.{Collects, Collected-Calm}
use go_rtp_cluster.System.Answers.{merge_results-Collects, merge_stats_results-Collects}

module _ ⦃E : Externals⦄ where
  open E use {Float}

  -- The lists stay in order where there is no panic.
  abbrev Keeps : Cluster → Outcome → Type 0
  Keeps c none = Unit
  Keeps c (some (d, es)) = Calm c d

  Handles-Keeps : (clim : Clim) (c : Cluster) (o : Outcome) → Handles clim c o → Keeps c o
  Handles-Keeps clim c none h = tt
  Handles-Keeps clim c (some (d, es)) h = Handled-Calm clim c d (sent es) h

  Settles-Keeps : (clim : Clim) (c : Cluster) (o : Outcome) → Settles clim c o → Keeps c o
  Settles-Keeps clim c none h = tt
  Settles-Keeps clim c (some (d, es)) h = h.0.calm

  Collects-Keeps : (b : ℕ) (c : Cluster) (o : Outcome) → Collects b c o → Keeps c o
  Collects-Keeps b c none h = tt
  Collects-Keeps b c (some (d, es)) h = Collected-Calm b c d (sent es) h

  Keeps-after : (c d : Cluster) (o : Outcome) → Calm c d → Keeps d o → Keeps c o
  Keeps-after c d none k h = tt
  Keeps-after c d (some (e, es)) k h = Calm-trans c d e k h

  up_command-Keeps :
      (rand : Float) (clim : Clim) (text : Str) (c : Cluster)
      → Keeps c (up_command rand clim text c)
  up_command-Keeps rand clim text c = Handles-Keeps clim c _ (up_command-Handles rand clim text c)

  run_command-Keeps :
      (rand : Float) (cookie text address : Str) (c : Cluster)
      → Keeps c (run_command rand cookie text address c)
  unfolding run_command
  run_command-Keeps rand cookie text address c =
      if_cases (Keeps c) (has cookie c.commands_inflight) (λ _. Calm-refl c)
        (λ _.
          if_cases (Keeps c) (cached_response cookie c == [])
            (λ _.
              Keeps-after c
                (record c { commands_inflight = insert cookie true c.commands_inflight }) _
                (same-Calm _ _ refl refl refl refl)
                (up_command-Keeps rand (udp cookie address) text _))
            (λ _. Calm-refl c))

  up_command_udp-Keeps :
      (rand : Float) (text address : Str) (c : Cluster)
      → Keeps c (up_command_udp rand text address c)
  unfolding up_command_udp
  up_command_udp-Keeps rand text address c = go (E.fields_n text 2) refl
    where
      go : (l : List Str) → E.fields_n text 2 ≡ l → Keeps c (up_command_udp rand text address c)
      go [] e = rw (up_command_udp, e) tt
      go (cookie ∷ []) e = rw (up_command_udp, e) (Calm-refl c)
      go (cookie ∷ cmd ∷ _) e = rw (up_command_udp, e) (run_command-Keeps rand cookie cmd address c)

  deliver-Keeps : (w : Callback) (result : Str) (c : Cluster) → Keeps c (deliver w result c)
  unfolding deliver
  deliver-Keeps (down clim cmd r) result c =
      Settles-Keeps clim c _ (down_command-Settles result clim cmd (some (c.members r)) c)
  deliver-Keeps (ignore r) result c = Calm-refl c
  deliver-Keeps (merge b) result c = Collects-Keeps b c _ (merge_results-Collects result b c)
  deliver-Keeps (merge_stats b) result c =
      Collects-Keeps b c _ (merge_stats_results-Collects result b c)

  abbrev InvOr : Option System → Type 0
  InvOr none = Unit
  InvOr (some s) = Inv s.cluster

  then_wait-Inv :
      (c : Cluster) (ws : List Callback) (o : Outcome) → Inv c → Keeps c o → InvOr (then_wait ws o)
  then_wait-Inv c ws none v k = tt
  then_wait-Inv c ws (some (d, es)) v k = Calm-Inv c d k v

  happen-Inv : IsClient E → (h : Happening) (s : System) → Inv s.cluster → InvOr (happen h s)
  unfolding happen rcache_purge
  happen-Inv client (datagram rand text address) s v =
      then_wait-Inv s.cluster s.waiting _ v (up_command_udp-Keeps rand text address s.cluster)
  happen-Inv client (line rand k text) s v =
      then_wait-Inv s.cluster s.waiting _ v (up_command-Keeps rand (unix k) text s.cluster)
  happen-Inv client (answered i result) s v = elim (Option-cases (get_elem? s.waiting i)) [
    | inl e ↦ rw (happen, e) v
    | inr (w, e) ↦
        rw (happen, e)
          (then_wait-Inv s.cluster (remove_at i s.waiting) _ v (deliver-Keeps w result s.cluster))
  ]
  happen-Inv client (member_event e) s v = step-Inv client e s.cluster v
  happen-Inv client purged s v =
      Calm-Inv s.cluster (rcache_purge s.cluster) (same-Calm _ _ refl refl refl refl) v

  -- With clients that are offline after `GoOffline`, stay online over `GoOnline` and are not
  -- changed in this by `UpdateActive`: commands, answers of the members in any order, changes of
  -- the members and purges of the cache, as they come and if none of them panics, keep the
  -- invariant of the member lists. No member stands in a list twice or in both, those of `active`
  -- are online and those of `pending` offline, and the cluster hears of their changes.
  pub happen_all-Inv :
      IsClient E
      → (hs : List Happening) (s t : System) → Inv s.cluster
      → happen_all hs s ≡ some t
      → Inv t.cluster
  unfolding happen_all
  happen_all-Inv client [] s t v e = rw (← some-injective _ _ e) v
  happen_all-Inv client (h ∷ hs) s t v e = elim (Option-cases (happen h s)) [
    | inl f ↦ absurd (none-ne-some _ (rw (happen_all, f) at e))
    | inr (u, f) ↦
        happen_all-Inv client hs u t (rw f at (happen-Inv client h s v)) (rw (happen_all, f) at e)
  ]
