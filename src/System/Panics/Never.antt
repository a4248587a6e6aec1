-- ===== src/System/Panics/Never.antt =====
-- A running cluster does not panic on commands and answers with a field in them.

use go_rtp_cluster.Base.{
  ℕ, ◌≡◌, refl, ◌≢◌, true, Option, none, some, List, [], ◌∷◌, ◌++◌, Str, ◌==◌, nat_eq, str_eq, All,
  get_elem?, if_cases, Option-cases, inl, inr,
}
use go_rtp_cluster.Base.Dict.{has, insert}
use go_rtp_cluster.Externals.{Externals, Cmd}
use go_rtp_cluster.Cluster.{
  Cluster, Clim, udp, unix, Effect, send_to, Callback, down, ignore, merge, merge_stats,
}
use go_rtp_cluster.Cluster.Pool.{}
use go_rtp_cluster.Cluster.Events.{}
use go_rtp_cluster.Cluster.Invariant.History.{step}
use go_rtp_cluster.Command.{Outcome}
use go_rtp_cluster.Command.Dispatch.{up_command}
use go_rtp_cluster.Command.Dispatch.Callbacks.{deliver, Printable, dispatch-ne-none}
use go_rtp_cluster.Command.Udp.{up_command_udp, rcache_purge, run_command, cached_response}
use go_rtp_cluster.System.{
  System, Happening, datagram, line, answered, member_event, purged, sent, remove_at, then_wait,
  happen, happen_all,
}
use go_rtp_cluster.System.Quiet.{Clean, Quiet-refl}
use go_rtp_cluster.System.Handled.{Fit, Settles, Handles, asked, nil_Asks, down_command-Settles}
use go_rtp_cluster.System.Handlers.{up_command-Handles}
use go_rtp_cluster.System.Counting.{Collects}
use go_rtp_cluster.System.Answers.{merge_results-Collects, merge_stats_results-Collects}
use go_rtp_cluster.System.Aside.{step-Aside}
use go_rtp_cluster.System.Panics.{
  Healthy, same-Fit, Handled-Healthy, Settled-Healthy, Collected-Healthy, All-remove_at, All-get,
  All-map,
}
use go_rtp_cluster.System.Panics.Caches.{Orderly, step-Clean}
use go_rtp_cluster.System.Panics.Delivered.{Answerable, deliver-ne-none}

module _ ⦃E : Externals⦄ where
  open E use {Rest, Float}

  -- Datagrams and answers that `strings.Fields` and the like find something in, and new members
  -- with an orderly cache of statistics.
  abbrev pub Sane : Happening → Type 0
  Sane (datagram rand text address) = E.fields_n text 2 ≢ []
  Sane (line rand k text) = Unit
  Sane (answered i result) = Answerable result
  Sane (member_event e) = Orderly e
  Sane purged = Unit

  -- The handler goes on to a healthy state.
  abbrev Goes : List Callback → Outcome → Type 0
  Goes ws none = ⊥
  Goes ws (some (d, es)) = Healthy d (ws ++ sent es)

  module _ (c : Cluster) (ws : List Callback) (v : Healthy c ws) where
    handled_Goes : (clim : Clim) (o : Outcome) → o ≢ none → Handles clim c o → Goes ws o
    handled_Goes clim none n h = n refl
    handled_Goes clim (some (d, es)) n h = Handled-Healthy c d ws (sent es) v clim h

    settled_Goes : (clim : Clim) (o : Outcome) → o ≢ none → Settles clim c o → Goes ws o
    settled_Goes clim none n h = n refl
    settled_Goes clim (some (d, es)) n h = Settled-Healthy c d ws (sent es) v clim h.0 h.1

    collected_Goes : (b : ℕ) (o : Outcome) → o ≢ none → Collects b c o → Goes ws o
    collected_Goes b none n h = n refl
    collected_Goes b (some (d, es)) n h = Collected-Healthy c d ws (sent es) v b h

    still_Goes : (es : List Effect) → sent es ≡ [] → Goes ws (some (c, es))
    still_Goes es e =
        Handled-Healthy c c ws (sent es) v (unix 0)
          (rw e (asked (Quiet-refl c) (nil_Asks (unix 0))))

  -- The options of an update that was parsed and has the tag of the other side, and so belongs to a
  -- session that exists, can be printed as those of a forced lookup.
  abbrev pub Prints : Type 0
  Prints = (text : Str) (cmd : Cmd Rest) → E.parse_cmd text ≡ some cmd → Printable cmd

  module _ (prints : Prints) where
    up_command-ne-none :
        (rand : Float) (clim : Clim) (text : Str) (c : Cluster) → up_command rand clim text c ≢ none
    unfolding up_command
    up_command-ne-none rand clim text c = elim (Option-cases (E.parse_cmd text)) [
      | inl e ↦ rw (up_command, e) (λ f. cc)
      | inr (cmd, e) ↦
          rw (up_command, e) (dispatch-ne-none rand clim cmd text c (prints text cmd e))
    ]

    module _ (c : Cluster) (ws : List Callback) (v : Healthy c ws) where
      run_Goes :
          (rand : Float) (cookie text address : Str)
          → Goes ws (run_command rand cookie text address c)
      unfolding run_command
      run_Goes rand cookie text address =
          if_cases (Goes ws) (has cookie c.commands_inflight) (λ _. still_Goes c ws v [] refl)
            (λ _.
              if_cases (Goes ws) (cached_response cookie c == [])
                (λ _.
                  handled_Goes flown ws
                    (record {
                      clean = record { filled = v.clean.filled };
                      fit = All-map (Fit c) (Fit flown) ws (same-Fit c flown refl refl) v.fit;
                    })
                    (udp cookie address) _ (up_command-ne-none rand (udp cookie address) text flown)
                    (up_command-Handles rand (udp cookie address) text flown))
                (λ _.
                  still_Goes c ws v
                    (send_to (cookie ++ (b' ' ∷ cached_response cookie c)) address ∷ []) refl))
        where
          flown : Cluster
          flown = record c { commands_inflight = insert cookie true c.commands_inflight }

      datagram_Goes :
          (rand : Float) (text address : Str)
          → E.fields_n text 2 ≢ []
          → Goes ws (up_command_udp rand text address c)
      unfolding up_command_udp
      datagram_Goes rand text address n = go (E.fields_n text 2) refl
        where
          go : (l : List Str) → E.fields_n text 2 ≡ l → Goes ws (up_command_udp rand text address c)
          go [] e = absurd (n e)
          go (cookie ∷ []) e = rw (up_command_udp, e) (still_Goes c ws v [] refl)
          go (cookie ∷ cmd ∷ _) e = rw (up_command_udp, e) (run_Goes rand cookie cmd address)

    deliver-Goes :
        (i : ℕ) (w : Callback) (result : Str) (c : Cluster) (ws : List Callback)
        → Healthy c ws
        → get_elem? ws i ≡ some w
        → Answerable result
        → Goes (remove_at i ws) (deliver w result c)
    unfolding deliver
    deliver-Goes i w result c ws v e a =
        go w (deliver-ne-none w result c v.clean (All-get (Fit c) i ws w v.fit e) a)
      where
        rest : Healthy c (remove_at i ws)
        rest = record { clean = v.clean; fit = All-remove_at (Fit c) i ws v.fit }

        go : (w : Callback) → deliver w result c ≢ none → Goes (remove_at i ws) (deliver w result c)
        go (down clim cmd r) n =
            settled_Goes c (remove_at i ws) rest clim _ n
              (down_command-Settles result clim cmd (some (c.members r)) c)
        go (ignore r) n = still_Goes c (remove_at i ws) rest [] refl
        go (merge b) n =
            collected_Goes c (remove_at i ws) rest b _ n (merge_results-Collects result b c)
        go (merge_stats b) n =
            collected_Goes c (remove_at i ws) rest b _ n (merge_stats_results-Collects result b c)

    abbrev Continues : Option System → Type 0
    Continues o = (t : System) × (o ≡ some t) × Healthy t.cluster t.waiting

    then_wait-Continues :
        (ws : List Callback) (o : Outcome) → Goes ws o → Continues (then_wait ws o)
    then_wait-Continues ws none h = absurd h
    then_wait-Continues ws (some (d, es)) h = (_, refl, h)

    happen-Continues :
        (h : Happening) (s : System) → Healthy s.cluster s.waiting → Sane h → Continues (happen h s)
    unfolding happen rcache_purge
    happen-Continues (datagram rand text address) s v n =
        then_wait-Continues s.waiting _ (datagram_Goes s.cluster s.waiting v rand text address n)
    happen-Continues (line rand k text) s v n = then_wait-Continues s.waiting _ (
        handled_Goes s.cluster s.waiting v (unix k) _
          (up_command-ne-none rand (unix k) text s.cluster)
          (up_command-Handles rand (unix k) text s.cluster))
    happen-Continues (answered i result) s v n = elim (Option-cases (get_elem? s.waiting i)) [
      | inl e ↦ rw (happen, e) (s, refl, v)
      | inr (w, e) ↦
          rw (happen, e)
            (then_wait-Continues (remove_at i s.waiting) _
              (deliver-Goes i w result s.cluster s.waiting v e n))
    ]
    happen-Continues (member_event e) s v n =
        let (f, b, k, m) = step-Aside e s.cluster in
        (
          _,
          refl,
          record {
            clean = step-Clean e s.cluster n v.clean;
            fit =
                All-map (Fit s.cluster) (Fit (step e s.cluster)) s.waiting
                  (same-Fit s.cluster (step e s.cluster) b k) v.fit;
          },
        )
    happen-Continues purged s v n = (
      _,
      refl,
      record {
        clean = record { filled = v.clean.filled };
        fit =
            All-map (Fit s.cluster) (Fit (rcache_purge s.cluster)) s.waiting
              (same-Fit s.cluster (rcache_purge s.cluster) refl refl) v.fit;
      },
    )

    healthy-some :
        (hs : List Happening) (s : System)
        → Healthy s.cluster s.waiting
        → All Sane hs
        → (t : System) × (happen_all hs s ≡ some t)
    unfolding happen_all
    healthy-some [] s v n = (s, refl)
    healthy-some (h ∷ hs) s v (n, ns) =
        let (u, e, k) = happen-Continues h s v n in rw (happen_all, e) (healthy-some hs u k ns)

  -- From a cluster that waits for nothing and whose caches of statistics have no empty answer, and
  -- where the options of every update that parses and has a `to_tag` can be printed as those of a
  -- forced lookup (the program panics on one that cannot): whatever commands, answers of the members, changes of the members and purges of the cache come, in whatever order,
  -- none of them panics, if each datagram has a field, each answer is empty or has a field, and no
  -- member is added with an empty answer in its cache.
  pub happen_all-some :
      Prints
      → (hs : List Happening) (c : Cluster) → Clean c
      → All Sane hs
      → (t : System) × (happen_all hs (record { cluster = c; waiting = [] }) ≡ some t)
  happen_all-some prints hs c v sane =
      healthy-some prints hs (record { cluster = c; waiting = [] }) (record { clean = v; fit = tt })
        sane
