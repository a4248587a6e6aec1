-- ===== src/System/Panics/Delivered.antt =====
-- An answer that has a field is delivered without a panic.

use go_rtp_cluster.Base.{
  ℕ, ◌<◌, ◌≡◌, refl, ◌≢◌, ◌∙◌, ap, true, Option, none, some, List, [], ◌∷◌, Str, codes, arith,
  nat_eq, str_eq, length, if_cases, if◌then◌else◌, ltb_ℤ, pos, dec64, ℤ, Bool, Option-cases, inl,
  inr, ℕ_discrete,
}
use go_rtp_cluster.Base.Dict.{lookup}
use go_rtp_cluster.Text.{fields, trim_space, has_byte, join_bar, is_space}
use go_rtp_cluster.Externals.{Externals, Cmd}
use go_rtp_cluster.Member.{Member, stats_cache_get}
use go_rtp_cluster.Cluster.{
  Cluster, Broadcast, Clim, Callback, down, ignore, merge, merge_stats, put_broadcast,
}
use go_rtp_cluster.Command.{Outcome}
use go_rtp_cluster.Command.Reply.{answer, down_command}
use go_rtp_cluster.Command.Reply.Addresses.{answer-eq-none}
use go_rtp_cluster.Command.Broadcasts.{
  collect, merged, merge_answer, merge_results, failed_merge, is_error, is_ul, stats_answer,
  add_stats, count_stats, merge_stats_at, merge_stats_results, cached,
}
use go_rtp_cluster.Command.Dispatch.Callbacks.{deliver, down_command-ne-none}
use go_rtp_cluster.System.Quiet.{Clean, Filled}
use go_rtp_cluster.System.Handled.{Fit}
use go_rtp_cluster.System.Counting.{Follows}
use go_rtp_cluster.System.Answers.{collect-Follows, add_stats-Same, Same}

-- What `down_command` can read: nothing at all, or a text with a field.
abbrev pub Answerable : Str → Type 0
Answerable [] = Unit
Answerable (b ∷ s) = fields (trim_space (b ∷ s)) ≢ []

module _ ⦃E : Externals⦄ where
  open E use {Rest, Stats}

  answer-ne-none :
      (result : Str) (cmd : Cmd Rest) (m : Member)
      → Answerable result
      → answer result cmd (some m) ≢ none
  unfolding answer
  answer-ne-none [] cmd m h e = cc
  answer-ne-none (b ∷ s) cmd m h e = h ((answer-eq-none b s cmd (some m)).0 e).2

  pub down_command-Answerable :
      (result : Str) (clim : Clim) (cmd : Cmd Rest) (m : Member) (c : Cluster)
      → Answerable result
      → down_command result clim cmd (some m) c ≢ none
  down_command-Answerable result clim cmd m c h = elim (Option-cases (answer result cmd (some m))) [
    | inl e ↦ absurd (answer-ne-none result cmd m h e)
    | inr (text, e) ↦ down_command-ne-none result text clim cmd (some m) c e
  ]

  failed_Answerable : (kind : ℕ) → Answerable (if is_ul kind then codes "0" else codes "E995")
  unfolding fields trim_space is_space ℕ_discrete
  failed_Answerable kind = if_cases Answerable (is_ul kind) (λ _ e. cc) (λ _ e. cc)

  failed_merge-ne-none : (br : Broadcast) (c : Cluster) → br.rtpp ≢ none → failed_merge br c ≢ none
  unfolding failed_merge
  failed_merge-ne-none br c h = elim (Option-cases br.rtpp) [
    | inl e ↦ absurd (h e)
    | inr (r, e) ↦
        rw e
          (down_command-Answerable _ br.clim br.cmd (c.members r) c (failed_Answerable br.cmd.kind))
  ]

  merged-ne-none :
      (br : Broadcast) (results : List Str) (c : Cluster)
      → br.rtpp ≢ none
      → 1 < length results
      → merged br results c ≢ none
  unfolding merged
  merged-ne-none br [] c h n = absurd (omega (arith, n))
  merged-ne-none br (x ∷ []) c h n = absurd (omega (arith, n))
  merged-ne-none br (x ∷ y ∷ ys) c h n = failed_merge-ne-none br c h

  merge_answer-ne-none :
      (b : ℕ) (result : Str) (failed : Bool) (c : Cluster)
      → (c.broadcasts b).rtpp ≢ none
      → 1 < length (c.broadcasts b).results
      → merge_answer b result failed c ≢ none
  unfolding merge_answer
  merge_answer-ne-none b result failed c h n =
      if_cases (λ o. o ≢ none) (ltb_ℤ (pos 0) br.bcount) (λ _ e. cc)
        (λ _. merged-ne-none br br.results (put_broadcast b br c) (rw k.rtpp h) (k.results n))
    where
      br : Broadcast
      br = collect (c.broadcasts b) result failed

      k : Follows (c.broadcasts b) br
      k = collect-Follows (c.broadcasts b) result failed

  merge_results-ne-none :
      (result : Str) (b : ℕ) (c : Cluster)
      → (c.broadcasts b).rtpp ≢ none
      → 1 < length (c.broadcasts b).results
      → merge_results result b c ≢ none
  unfolding merge_results
  merge_results-ne-none [] b c h n = merge_answer-ne-none b (codes "E996") true c h n
  merge_results-ne-none (x ∷ s) b c h n = merge_answer-ne-none b (x ∷ s) (is_error x) c h n

  G-ne-none :
      (result : Str) (cmd : Cmd Rest) (m : Member)
      → cmd.kind ≡ b'G'
      → answer result cmd (some m) ≢ none
  unfolding answer has_byte
  G-ne-none [] cmd m g e = cc
  G-ne-none (b ∷ s) cmd m g e =
      absurd (ground (arith, g, ((answer-eq-none b s cmd (some m)).0 e).0))

  reply-ne-none :
      (result : Str) (clim : Clim) (cmd : Cmd Rest) (m : Member) (c : Cluster)
      → cmd.kind ≡ b'G'
      → down_command result clim cmd (some m) c ≢ none
  reply-ne-none result clim cmd m c g = elim (Option-cases (answer result cmd (some m))) [
    | inl e ↦ absurd (G-ne-none result cmd m g e)
    | inr (text, e) ↦ down_command-ne-none result text clim cmd (some m) c e
  ]

  cached-ne-nil : (names : Str) (m : Member) → Filled m → cached names m ≢ []
  unfolding cached stats_cache_get
  cached-ne-nil names m v = elim (Option-cases (lookup names m.stats_cache)) [
    | inl e ↦ rw (cached, e) (λ f. cc)
    | inr (old, e) ↦ rw (cached, e) (λ f. v.good names (e ∙ ap some f))
  ]

  stats_answer-ne-nil :
      (names : Str) (r : ℕ) (result : Str) (c : Cluster)
      → Clean c
      → (stats_answer names r result c).1 ≢ []
  unfolding stats_answer
  stats_answer-ne-nil names r [] c v = cached-ne-nil names (c.members r) (v.filled r)
  stats_answer-ne-nil names r (x ∷ s) c v =
      if_cases {A = Cluster × Str} (λ p. p.1 ≢ []) (is_error x) (λ _ e. cc) (λ _ e. cc)

  add_stats-ne-none :
      (br : Broadcast) (sobj : Stats) (text : Str) → text ≢ [] → add_stats br sobj text ≢ none
  unfolding add_stats
  add_stats-ne-none br sobj [] h = λ e. h refl
  add_stats-ne-none br sobj (x ∷ s) h =
      if_cases (λ o. o ≢ none) (is_error x) (λ _ e. cc)
        (λ _. if_cases (λ o. o ≢ none) (E.parse_and_add (x ∷ s) sobj).1 (λ _ e. cc) (λ _ e. cc))

  count_stats-ne-none :
      (b r : ℕ) (c : Cluster) (counted : Broadcast × ℤ)
      → counted.0.cmd.kind ≡ b'G'
      → count_stats b r c counted ≢ none
  unfolding count_stats
  count_stats-ne-none b r c (br, ecount) g =
      if_cases (λ o. o ≢ none) (ltb_ℤ (pos 0) (dec64 br.bcount)) (λ _ e. cc)
        (λ _. reply-ne-none _ br.clim br.cmd _ _ g)

  merge_stats_at-ne-none :
      (result : Str) (b : ℕ) (sobj : Stats) (r : ℕ) (c : Cluster)
      → Clean c
      → (c.broadcasts b).cmd.kind ≡ b'G'
      → merge_stats_at result b (c.broadcasts b) sobj r c ≢ none
  unfolding merge_stats_at
  merge_stats_at-ne-none result b sobj r c v g =
      go (add_stats (c.broadcasts b) sobj text.1) (add_stats-Same (c.broadcasts b) sobj text.1) (
        add_stats-ne-none (c.broadcasts b) sobj text.1
          (stats_answer-ne-nil (join_bar (E.all_names sobj)) r result c v))
    where
      text : Cluster × Str
      text = stats_answer (join_bar (E.all_names sobj)) r result c

      go :
          (o : Option (Broadcast × ℤ))
          → Same (c.broadcasts b) o
          → o ≢ none
          → elim o as (λ _. Outcome) [ none ↦ none | some counted ↦ count_stats b r text.0 counted ]
            ≢ none
      go none same h = absurd (h refl)
      go (some counted) same h =
          count_stats-ne-none b r text.0 counted (ap (λ cmd. cmd.kind) same.0.cmd ∙ g)

  merge_stats_results-ne-none :
      (result : Str) (b : ℕ) (c : Cluster)
      → Clean c
      → (c.broadcasts b).rtpp ≢ none
      → (c.broadcasts b).sobj ≢ none
      → (c.broadcasts b).cmd.kind ≡ b'G'
      → merge_stats_results result b c ≢ none
  unfolding merge_stats_results
  merge_stats_results-ne-none result b c v h k g = elim (Option-cases (c.broadcasts b).sobj) [
    | inl e ↦ absurd (k e)
    | inr (sobj, e) ↦ elim (Option-cases (c.broadcasts b).rtpp) [
      | inl f ↦ absurd (h f)
      | inr (r, f) ↦ rw (merge_stats_results, e, f) (merge_stats_at-ne-none result b sobj r c v g)
    ]
  ]

  -- The answer of a member does not stop the program if it is empty or has a field.
  pub deliver-ne-none :
      (w : Callback) (result : Str) (c : Cluster)
      → Clean c
      → Fit c w
      → Answerable result
      → deliver w result c ≢ none
  unfolding deliver
  deliver-ne-none (down clim cmd r) result c v f h =
      down_command-Answerable result clim cmd (c.members r) c h
  deliver-ne-none (ignore r) result c v f h = λ e. cc
  deliver-ne-none (merge b) result c v f h = merge_results-ne-none result b c f.1 f.2
  deliver-ne-none (merge_stats b) result c v f h =
      merge_stats_results-ne-none result b c v f.1 f.2 f.3
