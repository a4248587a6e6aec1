-- ===== src/Command/Broadcasts/Report.antt =====
-- The broadcast of a G command, and its reply.
use mathlib.Core.List.{append-nil}
use go_rtp_cluster.Base.{
  ℕ, suc, ◌+◌, ◌^◌, ◌<◌, ◌≡◌, refl, ◌≢◌, ◌∙◌, ap, Bool, Option, none, some, List, [], ◌∷◌, ℤ, pos,
  dec64, Str, arith, nat_eq, str_eq, length, map, All,
}
use go_rtp_cluster.Text.{join_bar}
use go_rtp_cluster.Externals.{Externals, Cmd}
use go_rtp_cluster.Cluster.{Cluster, Broadcast, Clim, Effect, command, merge_stats, put_broadcast}
use go_rtp_cluster.Command.{Outcome, after_effects}
use go_rtp_cluster.Command.Reply.{down_command}
use go_rtp_cluster.Command.Broadcasts.{
  new_broadcaster, next_id, online, send_each, broadcast_stats, stats_answer, add_stats,
  count_stats, merge_stats_results,
}
use go_rtp_cluster.Command.Broadcasts.Sent.{last_of, send_each_lem}
use go_rtp_cluster.Command.Broadcasts.Statistics.{
  add_one, tally, merge_stats_each, report, Sums, add_stats-Added, stats_answer_frame, unread, read,
  counted-Sums, report_lem, at_lem, merge_stats_at_lem,
}

module _ ⦃E : Externals⦄ where
  open E use {Rest, Stats}

  module _ (b r : ℕ) (clim : Clim) (cmd : Cmd Rest) where
    -- One answer is counted, and the broadcast is as `Sums` says.
    stored :
        (n u k : ℕ) (s : Stats) (x : ℕ) (t : Str) (c : Cluster)
        → suc n + u + k < 2 ^ 63
        → Sums (suc n) u k r s clim cmd (c.broadcasts b)
        → (d : Cluster) × (br : Broadcast) × (m : ℤ) × Sums n
            (unread u (add_one s (x ∷ t)).1)
            (read k (add_one s (x ∷ t)).1)
            r
            (add_one s (x ∷ t)).0
            clim
            cmd
            (record br { bcount = dec64 br.bcount })
          × (m ≡ pos (n + unread u (add_one s (x ∷ t)).1))
          × (merge_stats_results (x ∷ t) b c ≡ count_stats b r d (br, m))
    stored n u k s x t c small w =
        let (e, f) = stats_answer_frame (join_bar (E.all_names s)) r x t c in
        let (q, g, a) = add_stats-Added (c.broadcasts b) s x t w.sum in
        let (v, m) =
          counted-Sums n u k r s clim cmd (c.broadcasts b) (add_one s (x ∷ t)) q small w a in
        (
          (stats_answer (join_bar (E.all_names s)) r (x ∷ t) c).0,
          q.0,
          q.1,
          v,
          m,
          at_lem (x ∷ t) b r s c w.sum w.var
              ∙ merge_stats_at_lem (x ∷ t) b r s (c.broadcasts b) c q
                  (ap (add_stats (c.broadcasts b) s) e ∙ g),
        )

    more :
        (n u k : ℕ) (s : Stats) (d : Cluster) (br : Broadcast) (m : ℤ)
        → Sums (suc n) u k r s clim cmd (record br { bcount = dec64 br.bcount })
        → count_stats b r d (br, m)
          ≡ some (put_broadcast b (record br { bcount = dec64 br.bcount }) d, [])
    unfolding count_stats
    more n u k s d br m w = rw (count_stats, w.count) (ground arith)

    zero_plus : (u : ℕ) → pos (0 + u) ≡ pos u
    zero_plus u = ap pos (omega arith)

    -- The numbers of the answers that add nothing and that add something go up by one in all.
    one_more :
        (n u k : ℕ) (ok : Bool) → suc n + u + k < 2 ^ 63 → n + unread u ok + read k ok < 2 ^ 63
    one_more n u k ok small = ground (arith, small)

    last :
        (u k : ℕ) (s : Stats) (d : Cluster) (br : Broadcast) (m : ℤ)
        → Sums 0 u k r s clim cmd (record br { bcount = dec64 br.bcount })
        → m ≡ pos (0 + u)
        → (e : Cluster) × (count_stats b r d (br, m)
            ≡ down_command (report s k) clim cmd (some (e.members r)) e)
    unfolding count_stats
    last u k s d br m w f = (
      put_broadcast b (record br { bcount = dec64 br.bcount }) d,
      rw (count_stats, w.count, f ∙ zero_plus u, w.sender, w.order, report_lem u k r s clim cmd _ w)
          (ground arith),
    )

    only :
        (o : Outcome)
        → (elim o as (λ _. Outcome) [
          | none ↦ none
          | some (d, es) ↦ after_effects es (some (d, []))
        ])
          ≡ o
    only none = refl
    only (some (d, es)) = ap (λ fs. some (d, fs)) (append-nil es)

    silent : (o : Outcome) → after_effects [] o ≡ o
    silent none = refl
    silent (some (d, es)) = refl

    put_same : (br : Broadcast) (c : Cluster) → (put_broadcast b br c).broadcasts b ≡ br
    unfolding put_broadcast
    put_same br c = ground arith

    -- The answers in turn, the last of them with the reply.
    sums_lem :
        (u k : ℕ) (s : Stats) (a : Str) (rest : List Str) (c : Cluster)
        → All (λ a. a ≢ []) (a ∷ rest)
        → suc (length rest) + u + k < 2 ^ 63
        → Sums (suc (length rest)) u k r s clim cmd (c.broadcasts b)
        → (e : Cluster) × (merge_stats_each b (a ∷ rest) c
            ≡ down_command
                (report (tally s (a ∷ rest)).0 (k + (tally s (a ∷ rest)).1))
                clim
                cmd
                (some (e.members r))
                e)
    unfolding merge_stats_each tally
    sums_lem u k s [] rest c (h, hs) small w = absurd (h refl)
    sums_lem u k s (x ∷ t) [] c (h, hs) small w =
        let (d, br, m, v, f, step) = stored 0 u k s x t c small w in
        let (e, done) = last _ _ _ d br m v f in
        (
          e,
          rw (merge_stats_each, step) (only (count_stats b r d (br, m)))
              ∙ done
              ∙ ap
                  (λ i.
                    down_command (report (add_one s (x ∷ t)).0 i) clim cmd (some (e.members r)) e)
                  (ground arith),
        )
    sums_lem u k s (x ∷ t) (a ∷ rest) c (h, hs) small w =
        let (d, br, m, v, f, step) = stored (suc (length rest)) u k s x t c small w in
        let (e, done) =
          sums_lem (unread u (add_one s (x ∷ t)).1) (read k (add_one s (x ∷ t)).1)
            (add_one s (x ∷ t)).0 a rest
            (put_broadcast b (record br { bcount = dec64 br.bcount }) d) hs
            (one_more (suc (length rest)) u k (add_one s (x ∷ t)).1 small)
            (rw (put_same (record br { bcount = dec64 br.bcount }) d) v) in
        (
          e,
          rw (merge_stats_each, step, more (length rest) _ _ _ d br m v)
              (silent (
                  merge_stats_each b (a ∷ rest)
                    (put_broadcast b (record br { bcount = dec64 br.bcount }) d))
                ∙ done
                ∙ ap
                    (λ i.
                      down_command (report (tally (add_one s (x ∷ t)).0 (a ∷ rest)).0 i) clim cmd
                        (some (e.members r)) e)
                    (ground arith)),
        )

  module _ (clim : Clim) (cmd : Cmd Rest) (s : Stats) (c : Cluster) (r : ℕ) (rs : List ℕ) where
    made : Broadcast
    made = new_broadcaster (pos (length (r ∷ rs))) clim cmd (some s) (some (last_of r rs))

    begun : Cluster
    begun = put_broadcast c.next_broadcast made (next_id c)

    begun-Sums :
        (n : ℕ)
        → n ≡ length rs
        → Sums (suc n) 0 0 (last_of r rs) s clim cmd (begun.broadcasts c.next_broadcast)
    unfolding begun made new_broadcaster put_broadcast
    begun-Sums n e = record {
      count = ground (arith, e);
      errors = ground (arith, e);
      parts = ground (arith, e);
      sum = ground arith;
      var = ground arith;
      sender = ground arith;
      order = ground arith;
    }

    sent_to_all :
        online c ≡ r ∷ rs
        → broadcast_stats clim cmd s c
          ≡ some (
            begun,
            map (λ q. command q (E.cmd_string cmd) (merge_stats c.next_broadcast)) (r ∷ rs),
          )
    unfolding broadcast_stats begun made new_broadcaster
    sent_to_all e =
        ap (λ (qs : List ℕ). outcome (length qs) (sent qs)) e
        ∙ ap (outcome (length (r ∷ rs))) (
            send_each_lem (λ _. some (E.cmd_string cmd)) (λ _. E.cmd_string cmd)
              (merge_stats c.next_broadcast) c.members (λ q. refl) r rs none)
      where
        sent : List ℕ → List Effect × Option ℕ
        sent =
            send_each (λ _. some (E.cmd_string cmd)) (merge_stats c.next_broadcast) c.members none

        outcome : ℕ → List Effect × Option ℕ → Outcome
        outcome n q = some (
          put_broadcast c.next_broadcast (new_broadcaster (pos n) clim cmd (some s) q.1)
              (next_id c),
          q.0,
        )

  -- The broadcast of a G command to one or more online members, fewer than 2^63, sends it once to
  -- each of them, in the order of the active list. If every answer has a byte in it, then
  -- `down_command` is run once all have answered, with the sum of those that are no errors and can
  -- be read, or with E993 if there is none of these.
  pub broadcast_stats_lem :
      (clim : Clim) (cmd : Cmd Rest) (s : Stats) (c : Cluster) (r : ℕ) (rs : List ℕ) (a : Str)
      (answers : List Str)
      → online c ≡ r ∷ rs
      → length answers ≡ length rs
      → suc (length rs) < 2 ^ 63
      → All (λ a. a ≢ []) (a ∷ answers)
      → (d e : Cluster) × (broadcast_stats clim cmd s c
          ≡ some
              (d, map (λ q. command q (E.cmd_string cmd) (merge_stats c.next_broadcast)) (r ∷ rs)))
        × (merge_stats_each c.next_broadcast (a ∷ answers) d
            ≡ down_command
                (report (tally s (a ∷ answers)).0 (tally s (a ∷ answers)).1)
                clim
                cmd
                (some (e.members (last_of r rs)))
                e)
  broadcast_stats_lem clim cmd s c r rs a answers up same small h =
      let (e, f) =
        sums_lem c.next_broadcast (last_of r rs) clim cmd 0 0 s a answers (begun clim cmd s c r rs)
          h (omega (arith, same, small)) (begun-Sums clim cmd s c r rs (length answers) same) in
      (
        begun clim cmd s c r rs,
        e,
        sent_to_all clim cmd s c r rs up,
        f
            ∙ ap
                (λ i.
                  down_command (report (tally s (a ∷ answers)).0 i) clim cmd
                    (some (e.members (last_of r rs))) e)
                (omega arith),
      )
