-- ===== src/System/Answers.antt =====
-- What `merge_results` and `merge_stats_results` leave behind.
use go_rtp_cluster.Base.{
  length-append, ℕ, ◌≡◌, refl, ap, Bool, true, Option, none, some, List, [], ◌∷◌, ℤ, pos, dec64,
  ltb_ℤ, Str, codes, arith, nat_eq, str_eq, if_cases, Option-cases, inl, inr,
}
use go_rtp_cluster.Text.{join_bar}
use go_rtp_cluster.Base.Dict.{lookup-insert}
use go_rtp_cluster.Externals.{Externals}
use go_rtp_cluster.Member.{stats_cache_set}
use go_rtp_cluster.Cluster.{Cluster, Broadcast, put_broadcast}
use go_rtp_cluster.Command.{Outcome}
use go_rtp_cluster.Command.Broadcasts.{
  collect, merged, merge_answer, merge_results, bind_at, failed_merge, member_at, is_error,
  stats_answer, add_stats, stats_reply, count_stats, merge_stats_at, merge_stats_results,
}
use go_rtp_cluster.System.Quiet.{Quiet, Quiet-refl, put-Quiet, bind_session-Quiet}
use go_rtp_cluster.System.Handled.{nil_Idle, Settles, Settles-after, down_command-Settles}
use go_rtp_cluster.System.Counting.{
  Follows, Counted, waits, Collects, complete, put_broadcast-Counted,
}

module _ ⦃E : Externals⦄ where
  open E use {Rest, Stats}

  -- One result binds the session before it goes back.
  one_Settles :
      (result : Str) (br : Broadcast) (c : Cluster) → Settles br.clim c (merged br (result ∷ []) c)
  unfolding merged bind_at
  one_Settles result br c = elim (Option-cases br.rtpp) [
    | inl e ↦ rw (merged, e, bind_at) tt
    | inr (r, e) ↦
        rw (merged, e, bind_at)
          (Settles-after br.clim c _ _ (bind_session-Quiet r br.cmd.call_id br.cmd.kind c)
            (down_command-Settles result br.clim br.cmd _ _))
  ]

  pub collect-Follows :
      (br : Broadcast) (result : Str) (failed : Bool) → Follows br (collect br result failed)
  unfolding collect
  collect-Follows br result failed = record {
    clim = ground arith;
    cmd = ground arith;
    rtpp = ground arith;
    sobj = λ h. ground (arith, h);
    results = λ h. ground (arith, h, length-append br.results (result ∷ []));
  }

  collect_bcount :
      (br : Broadcast) (result : Str) (failed : Bool)
      → (collect br result failed).bcount ≡ dec64 br.bcount
  unfolding collect
  collect_bcount br result failed = ground arith

  merged-Settles :
      (br : Broadcast) (results : List Str) (c : Cluster) → Settles br.clim c (merged br results c)
  unfolding merged failed_merge
  merged-Settles br [] c = down_command-Settles _ br.clim br.cmd (member_at c br.rtpp) c
  merged-Settles br (x ∷ []) c = one_Settles x br c
  merged-Settles br (x ∷ y ∷ xs) c = down_command-Settles _ br.clim br.cmd (member_at c br.rtpp) c

  merge_answer-Collects :
      (b : ℕ) (result : Str) (failed : Bool) (c : Cluster)
      → Collects b c (merge_answer b result failed c)
  unfolding merge_answer
  merge_answer-Collects b result failed c =
      if_cases (Collects b c) (ltb_ℤ (pos 0) br.bcount)
        (λ h. waits one (rw (collect_bcount (c.broadcasts b) result failed) at h) nil_Idle)
        (λ h.
          complete b c (put_broadcast b br c) br.clim (merged br br.results (put_broadcast b br c))
            one (rw (collect_bcount (c.broadcasts b) result failed) at h)
            (collect-Follows (c.broadcasts b) result failed).clim
            (merged-Settles br br.results (put_broadcast b br c)))
    where
      br : Broadcast
      br = collect (c.broadcasts b) result failed

      one : Counted b c (put_broadcast b br c)
      one =
          put_broadcast-Counted b br c c (Quiet-refl c)
            (collect-Follows (c.broadcasts b) result failed)
            (collect_bcount (c.broadcasts b) result failed)

  pub merge_results-Collects :
      (result : Str) (b : ℕ) (c : Cluster) → Collects b c (merge_results result b c)
  unfolding merge_results
  merge_results-Collects [] b c = merge_answer-Collects b (codes "E996") true c
  merge_results-Collects (x ∷ s) b c = merge_answer-Collects b (x ∷ s) (is_error x) c

  stats_answer-Quiet :
      (names : Str) (r : ℕ) (result : Str) (c : Cluster) → Quiet c (stats_answer names r result c).0
  unfolding stats_answer stats_cache_set
  stats_answer-Quiet names r [] c = Quiet-refl c
  stats_answer-Quiet names r (x ∷ s) c =
      if_cases {A = Cluster × Str} (λ p. Quiet c p.0) (is_error x) (λ _. Quiet-refl c)
        (λ _. put-Quiet r _ c refl refl (λ v. record {
          good = λ k.
              ground (arith, v.good k, lookup-insert k names (x ∷ s) (c.members r).stats_cache);
        }))

  -- The sender and the number of expected answers are those of before.
  abbrev pub Same : Broadcast → Option (Broadcast × ℤ) → Type 0
  Same br none = Unit
  Same br (some (br', n)) = Follows br br' × (br'.bcount ≡ br.bcount)

  pub Follows-refl : (br : Broadcast) → Follows br br
  Follows-refl br = record { clim = refl; cmd = refl; rtpp = refl; sobj = λ h. h; results = λ h. h }

  counted-Follows :
      (br : Broadcast) (sobj : Stats) (n : ℤ)
      → Follows br (record br { sobj = some sobj; ecount = n })
  counted-Follows br sobj n = record {
    clim = refl;
    cmd = refl;
    rtpp = refl;
    sobj = λ h e. cc;
    results = λ h. h;
  }

  pub add_stats-Same :
      (br : Broadcast) (sobj : Stats) (text : Str) → Same br (add_stats br sobj text)
  unfolding add_stats
  add_stats-Same br sobj [] = tt
  add_stats-Same br sobj (x ∷ s) =
      if_cases (Same br) (is_error x) (λ _. (Follows-refl br, refl))
        (λ _.
          if_cases (Same br) (E.parse_and_add (x ∷ s) sobj).1 (λ _. (counted-Follows br _ _, refl))
            (λ _. (counted-Follows br _ _, refl)))

  count_stats-Collects :
      (b r : ℕ) (c d : Cluster) (counted : Broadcast × ℤ)
      → Quiet c d
      → Same (c.broadcasts b) (some counted)
      → Collects b c (count_stats b r d counted)
  unfolding count_stats
  count_stats-Collects b r c d (br, ecount) q (e, f) =
      if_cases (Collects b c) (ltb_ℤ (pos 0) br'.bcount) (λ h. waits one (rw f at h) nil_Idle)
        (λ h.
          complete b c _ br.clim _ one (rw f at h) e.clim (
            down_command-Settles (stats_reply br' ecount) br.clim br.cmd _ (put_broadcast b br' d)))
    where
      br' : Broadcast
      br' = record br { bcount = dec64 br.bcount }

      one : Counted b c (put_broadcast b br' d)
      one =
          put_broadcast-Counted b br' c d q
            (record {
              clim = e.clim;
              cmd = e.cmd;
              rtpp = e.rtpp;
              sobj = e.sobj;
              results = e.results;
            })
            (ap dec64 f)

  merge_stats_at-Collects :
      (result : Str) (b : ℕ) (sobj : Stats) (r : ℕ) (c : Cluster)
      → Collects b c (merge_stats_at result b (c.broadcasts b) sobj r c)
  unfolding merge_stats_at
  merge_stats_at-Collects result b sobj r c =
      go (add_stats (c.broadcasts b) sobj answer.1) (add_stats-Same (c.broadcasts b) sobj answer.1)
    where
      answer : Cluster × Str
      answer = stats_answer (join_bar (E.all_names sobj)) r result c

      go :
          (o : Option (Broadcast × ℤ))
          → Same (c.broadcasts b) o
          → Collects b c (elim o as (λ _. Outcome) [
            | none ↦ none
            | some counted ↦ count_stats b r answer.0 counted
          ])
      go none same = tt
      go (some counted) same =
          count_stats-Collects b r c answer.0 counted
            (stats_answer-Quiet (join_bar (E.all_names sobj)) r result c) same

  pub merge_stats_results-Collects :
      (result : Str) (b : ℕ) (c : Cluster) → Collects b c (merge_stats_results result b c)
  unfolding merge_stats_results
  merge_stats_results-Collects result b c = elim (Option-cases (c.broadcasts b).sobj) [
    | inl e ↦ rw (e, merge_stats_results) tt
    | inr (sobj, e) ↦ elim (Option-cases (c.broadcasts b).rtpp) [
      | inl f ↦ rw (merge_stats_results, e, f) tt
      | inr (r, f) ↦ rw (merge_stats_results, e, f) (merge_stats_at-Collects result b sobj r c)
    ]
  ]
