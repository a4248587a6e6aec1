-- ===== src/System/Sound.antt =====
-- The invariants of a running cluster, over one handler.

use go_rtp_cluster.Base.{
  ℕ, ◌≤◌, ◌<◌, ◌^◌, ◌≡◌, refl, ◌∙◌, ap, Option, none, some, List, [], ◌∷◌, ◌++◌, Str, arith, ◌==◌,
  nat_eq, str_eq, if◌then◌else◌, if_cases, get_elem?, length,
}
use go_rtp_cluster.Base.Dict.{has}
use go_rtp_cluster.Externals.{Externals, Cmd}
use go_rtp_cluster.Cluster.{
  Cluster, Clim, udp, unix, Effect, send_to, Callback, down, ignore, merge, merge_stats,
}
use go_rtp_cluster.Cluster.Invariant.{Inv}
use go_rtp_cluster.Command.{Outcome}
use go_rtp_cluster.Command.Dispatch.{up_command}
use go_rtp_cluster.Command.Dispatch.Callbacks.{deliver}
use go_rtp_cluster.Command.Udp.{up_command_udp, run_command, cached_response}
use go_rtp_cluster.System.{System, sent, remove_at}
use go_rtp_cluster.System.Quiet.{same-Calm, Calm-Inv}
use go_rtp_cluster.System.Handled.{
  direct, parts, Handled-Calm, Handles, Settles, nil_Idle, down_command-Settles,
}
use go_rtp_cluster.System.Handlers.{up_command-Handles}
use go_rtp_cluster.System.Counting.{Collects, Collected-Calm}
use go_rtp_cluster.System.Answers.{merge_results-Collects, merge_stats_results-Collects}
use go_rtp_cluster.System.Outstanding.{Tracked, Free, Flies, Idle-Tracked, handled_Tracked}
use go_rtp_cluster.System.Outstanding.Answered.{
  removed_Tracked, remove_at-Settled, remove_at-Collected, flown, flown-Tracked, flown-Free,
  flown-Flies,
}
use go_rtp_cluster.System.Aside.{length-active}

module _ ⦃E : Externals⦄ where
  open E use {Rest, Float}

  -- Both invariants, and a bound on the members that were ever added.
  pub record Sound (bound : ℕ) (s : System) : Type 0 where
    pub lists : Inv s.cluster
    pub tracked : Tracked s.cluster s.waiting
    pub few : s.cluster.next ≤ bound

  -- What is left of an outcome: the new state with what is waited for then.
  abbrev pub After : ℕ → List Callback → Outcome → Type 0
  After bound ws none = Unit
  After bound ws (some (d, es)) = Sound bound (record { cluster = d; waiting = ws ++ sent es })

  abbrev pub SoundOr : ℕ → Option System → Type 0
  SoundOr bound none = Unit
  SoundOr bound (some s) = Sound bound s

  module _ (bound : ℕ) (c : Cluster) (ws : List Callback)
      (v : Sound bound (record { cluster = c; waiting = ws })) (small : bound < 2 ^ 63) where
    few_active : length c.active < 2 ^ 63
    few_active = omega (arith, length-active c v.lists, v.few, small)

    handled_After :
        (clim : Clim) (o : Outcome)
        → Free clim c ws
        → Flies clim c
        → Handles clim c o
        → After bound ws o
    handled_After clim none free flies h = tt
    handled_After clim (some (d, es)) free flies h = record {
      lists = Calm-Inv c d (Handled-Calm clim c d (sent es) h) v.lists;
      tracked = handled_Tracked clim c d ws (sent es) free flies few_active h v.tracked;
      few = omega (arith, (Handled-Calm clim c d (sent es) h).next, v.few);
    }

    -- A connection has no cookie.
    pub line_After :
        (rand : Float) (k : ℕ) (text : Str) → After bound ws (up_command rand (unix k) text c)
    line_After rand k text =
        handled_After (unix k) (up_command rand (unix k) text c)
          (record {
            no_direct = λ j q. absurd (omega (arith, q));
            no_parts = λ b j q p. absurd (omega (arith, q));
          })
          (λ j q. absurd (omega (arith, q))) (up_command-Handles rand (unix k) text c)

    still_After : (es : List Effect) → sent es ≡ [] → After bound ws (some (c, es))
    still_After es e = record {
      lists = v.lists;
      tracked = rw e (Idle-Tracked c ws [] nil_Idle v.tracked);
      few = v.few;
    }

  module _ (bound : ℕ) (c : Cluster) (ws : List Callback)
      (v : Sound bound (record { cluster = c; waiting = ws })) (small : bound < 2 ^ 63) where
    flown-Sound :
        (k address : Str)
        → Sound bound (record { cluster = flown k address c ws v.tracked; waiting = ws })
    flown-Sound k address = record {
      lists =
          Calm-Inv c (flown k address c ws v.tracked) (same-Calm _ _ refl refl refl refl) v.lists;
      tracked = flown-Tracked k address c ws v.tracked;
      few = v.few;
    }

    run_After :
        (rand : Float) (cookie text address : Str)
        → After bound ws (run_command rand cookie text address c)
    unfolding run_command
    run_After rand cookie text address =
        if_cases (After bound ws) (has cookie c.commands_inflight)
          (λ _. still_After bound c ws v small [] refl)
          (λ h.
            if_cases (After bound ws) (cached_response cookie c == [])
              (λ _.
                handled_After bound _ ws (flown-Sound cookie address) small (udp cookie address) _
                  (flown-Free cookie address c ws v.tracked h)
                  (flown-Flies cookie address c ws v.tracked)
                  (up_command-Handles rand (udp cookie address) text _))
              (λ _.
                still_After bound c ws v small
                  (send_to (cookie ++ (b' ' ∷ cached_response cookie c)) address ∷ []) refl))

    pub datagram_After :
        (rand : Float) (text address : Str) → After bound ws (up_command_udp rand text address c)
    unfolding up_command_udp
    datagram_After rand text address = go (E.fields_n text 2) refl
      where
        go :
            (l : List Str)
            → E.fields_n text 2 ≡ l
            → After bound ws (up_command_udp rand text address c)
        go [] e = rw (up_command_udp, e) tt
        go (cookie ∷ []) e = rw (up_command_udp, e) (still_After bound c ws v small [] refl)
        go (cookie ∷ cmd ∷ _) e = rw (up_command_udp, e) (run_After rand cookie cmd address)

    module _ (i : ℕ) (w : Callback) (e : get_elem? ws i ≡ some w) where
      settled_After :
          (clim : Clim) (cmd : Cmd Rest) (r : ℕ) (o : Outcome)
          → w ≡ down clim cmd r
          → Settles clim c o
          → After bound (remove_at i ws) o
      settled_After clim cmd r none f h = tt
      settled_After clim cmd r (some (d, es)) f h = record {
        lists = Calm-Inv c d h.0.calm v.lists;
        tracked = remove_at-Settled clim cmd r i c d ws (sent es) v.tracked (e ∙ ap some f) h.0 h.1;
        few = omega (arith, h.0.calm.next, v.few);
      }

      collected_After :
          (b : ℕ) (o : Outcome)
          → ((j : Str) → direct j (w ∷ []) ≡ 0)
          → ((a : ℕ) → parts a (w ∷ []) ≡ (if b == a then 1 else 0))
          → Collects b c o
          → After bound (remove_at i ws) o
      collected_After b none f g h = tt
      collected_After b (some (d, es)) f g h = record {
        lists = Calm-Inv c d (Collected-Calm b c d (sent es) h) v.lists;
        tracked = remove_at-Collected b i w c d ws (sent es) f g v.tracked e h;
        few = omega (arith, (Collected-Calm b c d (sent es) h).next, v.few);
      }

    pub deliver-After :
        (i : ℕ) (w : Callback) (result : Str)
        → get_elem? ws i ≡ some w
        → After bound (remove_at i ws) (deliver w result c)
    unfolding deliver
    deliver-After i (down clim cmd r) result e =
        settled_After i _ e clim cmd r _ refl
          (down_command-Settles result clim cmd (some (c.members r)) c)
    deliver-After i (ignore r) result e = record {
      lists = v.lists;
      tracked = Idle-Tracked c (remove_at i ws) [] nil_Idle (removed_Tracked i _ c ws v.tracked e);
      few = v.few;
    }
    deliver-After i (merge b) result e =
        collected_After i _ e b _ (λ j. refl) (λ a. omega arith) (merge_results-Collects result b c)
    deliver-After i (merge_stats b) result e =
        collected_After i _ e b _ (λ j. refl) (λ a. omega arith)
          (merge_stats_results-Collects result b c)
