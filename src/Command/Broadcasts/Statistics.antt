-- ===== src/Command/Broadcasts/Statistics.antt =====
-- The answers to the broadcast of a G command, added up one after the other.

use go_rtp_cluster.Base.{
  ℕ, suc, ◌+◌, ◌^◌, ◌<◌, ◌≡◌, refl, ◌∙◌, ap, Bool, false, none, some, List, [], ◌∷◌, ℤ, pos, dec64,
  Str, codes, arith, ◌==◌, nat_eq, str_eq, if◌then◌else◌, Bool-cases, inl, inr,
}
use go_rtp_cluster.Base.Int.{dec64-suc}
use go_rtp_cluster.Text.{join_bar}
use go_rtp_cluster.Externals.{Externals, Cmd}
use go_rtp_cluster.Cluster.{Cluster, Broadcast, Clim, put}
use go_rtp_cluster.Command.{Outcome, after_effects}
use go_rtp_cluster.Command.Broadcasts.{
  is_error, stats_answer, add_stats, stats_reply, count_stats, merge_stats_at, merge_stats_results,
}

module _ ⦃E : Externals⦄ where
  open E use {Rest, Stats}

  -- What one answer adds, and whether it does.
  unfoldable pub add_one : Stats → Str → Stats × Bool
  add_one s [] = (s, false)
  add_one s (x ∷ t) =
      if is_error x then (s, false) else (let (s', ok) = E.parse_and_add (x ∷ t) s in (s', ok))

  -- The sum of the answers and the number of those in it.
  unfoldable pub tally : Stats → List Str → Stats × ℕ
  unfolding add_one
  tally s [] = (s, 0)
  tally s (a ∷ answers) =
      let (s', ok) = add_one s a in let (t, n) = tally s' answers in (t, if ok then suc n else n)

  -- The answers to a broadcast, in the order in which they come in.
  unfoldable pub merge_stats_each : ℕ → List Str → Cluster → Outcome
  merge_stats_each b [] c = some (c, [])
  merge_stats_each b (a ∷ rest) c = elim (merge_stats_results a b c) [
    | none ↦ none
    | some (d, es) ↦ after_effects es (merge_stats_each b rest d)
  ]

  abbrev pub report : Stats → ℕ → Str
  report s k = if k == 0 then codes "E993" else E.stats_string s

  -- A broadcast that waits for `n` answers, where `u` came in that added nothing and `k` that did.
  pub record Sums (n u k r : ℕ) (s : Stats) (clim : Clim) (cmd : Cmd Rest) (br : Broadcast)
      : Type 0 where
    pub count : br.bcount ≡ pos n
    pub errors : br.ecount ≡ pos (n + u)
    pub parts : br.nparts ≡ pos (n + u + k)
    pub sum : br.sobj ≡ some s
    pub var : br.rtpp ≡ some r
    pub sender : br.clim ≡ clim
    pub order : br.cmd ≡ cmd

  -- What `add_stats` makes of the broadcast.
  unfoldable pub Added : Broadcast → Stats × Bool → Broadcast × ℤ → Type 0
  Added br (s, ok) (br', n) =
      (br'.bcount ≡ br.bcount)
      × (br'.nparts ≡ br.nparts)
      × (br'.sobj ≡ some s)
      × (br'.rtpp ≡ br.rtpp)
      × (br'.clim ≡ br.clim)
      × (br'.cmd ≡ br.cmd)
      × (br'.ecount ≡ n)
      × (n ≡ (if ok then dec64 br.ecount else br.ecount))

  pub add_stats-Added :
      (br : Broadcast) (s : Stats) (x : ℕ) (t : Str)
      → br.sobj ≡ some s
      → (q : Broadcast × ℤ) × (add_stats br s (x ∷ t) ≡ some q) × Added br (add_one s (x ∷ t)) q
  unfolding add_stats add_one Added
  add_stats-Added br s x t e = elim (Bool-cases (is_error x)) [
    | inl f ↦ rw f ((br, br.ecount), refl, (refl, refl, e, refl, refl, refl, refl, refl))
    | inr f ↦ elim (Bool-cases (E.parse_and_add (x ∷ t) s).1) [
      | inl g ↦ rw (f, g) (_, refl, (refl, refl, refl, refl, refl, refl, refl, refl))
      | inr g ↦ rw (f, g) (_, refl, (refl, refl, refl, refl, refl, refl, refl, refl))
    ]
  ]

  pub stats_answer_frame :
      (names : Str) (r x : ℕ) (t : Str) (c : Cluster)
      → ((stats_answer names r (x ∷ t) c).1 ≡ x ∷ t)
        × ((stats_answer names r (x ∷ t) c).0.broadcasts ≡ c.broadcasts)
  unfolding stats_answer put
  stats_answer_frame names r x t c = ground arith

  abbrev pub unread : ℕ → Bool → ℕ
  unread u ok = if ok then u else suc u

  abbrev pub read : ℕ → Bool → ℕ
  read k ok = if ok then suc k else k

  -- A broadcast with one answer fewer to wait for.
  pub counted-Sums :
      (n u k r : ℕ) (s : Stats) (clim : Clim) (cmd : Cmd Rest) (br : Broadcast) (one : Stats × Bool)
      (q : Broadcast × ℤ)
      → suc n + u + k < 2 ^ 63
      → Sums (suc n) u k r s clim cmd br
      → Added br one q
      → Sums n
          (unread u one.1)
          (read k one.1)
          r
          one.0
          clim
          cmd
          (record q.0 { bcount = dec64 q.0.bcount })
        × (q.1 ≡ pos (n + unread u one.1))
  unfolding Added
  counted-Sums n u k r s clim cmd br (s', ok) (q, m) small w a = (
    record {
      count = ap dec64 (a.0 ∙ w.count) ∙ dec64-suc n (omega (arith, small));
      errors = a.6 ∙ last;
      parts = a.1 ∙ w.parts ∙ ap pos (ground arith);
      sum = a.2;
      var = a.3 ∙ w.var;
      sender = a.4 ∙ w.sender;
      order = a.5 ∙ w.order;
    },
    last,
  )
    where
      shift : suc n + u ≡ suc (n + u)
      shift = omega arith

      last : m ≡ pos (n + unread u ok)
      last = elim (Bool-cases ok) [
        | inl e ↦
            a.7
            ∙ rw e (
                ap dec64 w.errors
                ∙ (ap (λ i. dec64 (pos i)) shift ∙ dec64-suc (n + u) (omega (arith, small))))
        | inr e ↦ a.7 ∙ rw e (w.errors ∙ ap pos (omega arith))
      ]

  -- The reply once the last answer is in.
  pub report_lem :
      (u k r : ℕ) (s : Stats) (clim : Clim) (cmd : Cmd Rest) (br : Broadcast)
      → Sums 0 u k r s clim cmd br
      → stats_reply br (pos u) ≡ report s k
  unfolding stats_reply
  report_lem u k r s clim cmd br w = rw (stats_reply, w.parts, w.sum) (ground arith)

  pub at_lem :
      (result : Str) (b r : ℕ) (s : Stats) (c : Cluster)
      → (c.broadcasts b).sobj ≡ some s
      → (c.broadcasts b).rtpp ≡ some r
      → merge_stats_results result b c ≡ merge_stats_at result b (c.broadcasts b) s r c
  unfolding merge_stats_results
  at_lem result b r s c e f = simp (merge_stats_results, e, f) refl

  pub merge_stats_at_lem :
      (result : Str) (b r : ℕ) (s : Stats) (br : Broadcast) (c : Cluster) (q : Broadcast × ℤ)
      → add_stats br s (stats_answer (join_bar (E.all_names s)) r result c).1 ≡ some q
      → merge_stats_at result b br s r c
        ≡ count_stats b r (stats_answer (join_bar (E.all_names s)) r result c).0 q
  unfolding merge_stats_at
  merge_stats_at_lem result b r s br c q e = rw (merge_stats_at, e) refl
