-- ===== src/Command/Broadcasts/Merging.antt =====
-- The answers to a broadcast command, merged one after the other.

use mathlib.Core.List.{append-nil}
use go_rtp_cluster.Base.{
  ℕ, suc, ◌^◌, ◌≤◌, ◌<◌, ◌≡◌, refl, ◌∙◌, Bool, true, Option, none, some, List, [], ◌∷◌, ◌++◌, pos,
  dec64, Str, codes, arith, nat_eq, str_eq, str_dec, ℕ_discrete, if◌then◌else◌, length,
  length-append, Bool-cases, inl, inr, ap,
}
use go_rtp_cluster.Base.Int.{dec64-suc}
use go_rtp_cluster.Text.{to_upper, fields, trim_space, is_space}
use go_rtp_cluster.Externals.{Externals, Cmd}
use go_rtp_cluster.Member.{Member}
use go_rtp_cluster.Cluster.{Cluster, Broadcast, put_broadcast}
use go_rtp_cluster.Command.{Outcome, after_effects}
use go_rtp_cluster.Command.Reply.{answer, send_clim, close_clim}
use go_rtp_cluster.Command.Reply.Sending.{closed, closed_frame, down_command_lem}
use go_rtp_cluster.Command.Broadcasts.{
  is_ul, is_error, merge_results, merge_answer, collect, merged, failed_merge,
}

zero_fields : fields (trim_space (codes "0")) ≡ codes "0" ∷ []
unfolding fields trim_space is_space ℕ_discrete
zero_fields = refl

module _ ⦃E : Externals⦄ where
  open E use {Rest}

  answer_zero : (cmd : Cmd Rest) (m : Member) → answer (codes "0") cmd (some m) ≡ some (codes "0")
  unfolding answer
  answer_zero cmd m = ground (arith, zero_fields)

  answer_e995 :
      (cmd : Cmd Rest) (m : Option Member) → answer (codes "E995") cmd m ≡ some (codes "E995")
  unfolding answer to_upper str_dec
  answer_e995 cmd m = ground arith

  -- What the sender of a broadcast command reads in the end.
  abbrev pub verdict : Cmd Rest → Str
  verdict cmd = if is_ul cmd.kind then codes "0" else codes "E995"

  answer-verdict :
      (cmd : Cmd Rest) (m : Member) → answer (verdict cmd) cmd (some m) ≡ some (verdict cmd)
  answer-verdict cmd m = elim (Bool-cases (is_ul cmd.kind)) [
    | inl e ↦ rw e (answer_zero cmd m)
    | inr e ↦ rw e (answer_e995 cmd (some m))
  ]

  failed_merge_lem :
      (br : Broadcast) (r : ℕ) (c : Cluster)
      → br.rtpp ≡ some r
      → failed_merge br c
        ≡ some (
          closed br.clim (verdict br.cmd ++ 10 ∷ []) c,
          send_clim br.clim (verdict br.cmd ++ 10 ∷ []) ++ close_clim br.clim,
        )
  unfolding failed_merge
  failed_merge_lem br r c e = rw e (
      down_command_lem (verdict br.cmd) (verdict br.cmd) br.clim br.cmd (some (c.members r)) c
        (answer-verdict br.cmd (c.members r)))

  merged_many :
      (br : Broadcast) (results : List Str) (c : Cluster)
      → 1000 ≤ length results
      → merged br results c ≡ failed_merge br c
  unfolding merged
  merged_many br [] c h = refl
  merged_many br (x ∷ []) c h = absurd (omega arith)
  merged_many br (x ∷ y ∷ results) c h = refl

  -- A broadcast that waits for `n` answers.
  pub record Waits (n b r : ℕ) (br : Broadcast) (c : Cluster) : Type 0 where
    pub count : (c.broadcasts b).bcount ≡ pos n
    pub full : 1000 ≤ length (c.broadcasts b).results
    pub var : (c.broadcasts b).rtpp ≡ some r
    pub clim : (c.broadcasts b).clim ≡ br.clim
    pub cmd : (c.broadcasts b).cmd ≡ br.cmd

  collect_frame :
      (br : Broadcast) (a : Str) (failed : Bool)
      → ((collect br a failed).bcount ≡ dec64 br.bcount)
        × (length br.results ≤ length (collect br a failed).results)
        × ((collect br a failed).rtpp ≡ br.rtpp)
        × ((collect br a failed).clim ≡ br.clim)
        × ((collect br a failed).cmd ≡ br.cmd)
  unfolding collect
  collect_frame br a failed = ground (arith, length-append br.results (a ∷ []))

  module _ (b r : ℕ) (br : Broadcast) (a : Str) (failed : Bool) (c : Cluster) where
    abbrev next_br : Broadcast
    next_br = collect (c.broadcasts b) a failed

    collected :
        (n : ℕ)
        → suc n < 2 ^ 63
        → Waits (suc n) b r br c
        → (next_br.bcount ≡ pos n) × Waits n b r br (put_broadcast b next_br c)
    unfolding put_broadcast
    collected n small w =
        ground (arith, collect_frame (c.broadcasts b) a failed, dec64-suc n small, ap dec64 w.count)

    merge_answer-more :
        (n : ℕ)
        → suc (suc n) < 2 ^ 63
        → Waits (suc (suc n)) b r br c
        → merge_answer b a failed c ≡ some (put_broadcast b next_br c, [])
    unfolding merge_answer
    merge_answer-more n small w = ground (arith, collected (suc n) small w)

    merge_answer-last :
        Waits 1 b r br c
        → merge_answer b a failed c
          ≡ some (
            closed br.clim (verdict br.cmd ++ 10 ∷ []) (put_broadcast b next_br c),
            send_clim br.clim (verdict br.cmd ++ 10 ∷ []) ++ close_clim br.clim,
          )
    unfolding merge_answer
    merge_answer-last w =
        ground (arith, collected 0 (omega arith) w)
        ∙ (merged_many next_br next_br.results (put_broadcast b next_br c)
              (omega (arith, f.1, w.full))
            ∙ (failed_merge_lem next_br r (put_broadcast b next_br c) (f.2 ∙ w.var)
                ∙ rw (f.3 ∙ w.clim, f.4 ∙ w.cmd)))
      where
        f :
            (next_br.bcount ≡ dec64 (c.broadcasts b).bcount)
            × (length (c.broadcasts b).results ≤ length next_br.results)
            × (next_br.rtpp ≡ (c.broadcasts b).rtpp)
            × (next_br.clim ≡ (c.broadcasts b).clim)
            × (next_br.cmd ≡ (c.broadcasts b).cmd)
        f = collect_frame (c.broadcasts b) a failed

  -- The answers to a broadcast, in the order in which they come in.
  unfoldable pub merge_each : ℕ → List Str → Cluster → Outcome
  merge_each b [] c = some (c, [])
  merge_each b (a ∷ rest) c = elim (merge_results a b c) [
    | none ↦ none
    | some (d, es) ↦ after_effects es (merge_each b rest d)
  ]

  -- An answer is counted as it came, and an empty one as an error.
  shown : Str → Str
  shown [] = codes "E996"
  shown (x ∷ s) = x ∷ s

  rejected : Str → Bool
  rejected [] = true
  rejected (x ∷ s) = is_error x

  merge_results_lem :
      (a : Str) (b : ℕ) (c : Cluster)
      → merge_results a b c ≡ merge_answer b (shown a) (rejected a) c
  unfolding merge_results shown rejected
  merge_results_lem [] b c = refl
  merge_results_lem (x ∷ s) b c = refl

  -- A broadcast that waits for as many answers as come in, with its list of results as
  -- `newBroadcaster` made it or longer, ends with one message to its sender once the last is in: 0
  -- for a U or L command and E995 for another, whatever the answers are. No member changes; the
  -- session is not bound to a member that knew it.
  pub merge_each_lem :
      (b r : ℕ) (br : Broadcast) (a : Str) (rest : List Str) (c : Cluster)
      → suc (length rest) < 2 ^ 63
      → Waits (suc (length rest)) b r br c
      → (d : Cluster) × (merge_each b (a ∷ rest) c
          ≡ some (d, send_clim br.clim (verdict br.cmd ++ 10 ∷ []) ++ close_clim br.clim))
        × (d.members ≡ c.members)
  unfolding merge_each put_broadcast
  merge_each_lem b r br a [] c small w = (
    closed br.clim (verdict br.cmd ++ 10 ∷ [])
        (put_broadcast b (collect (c.broadcasts b) (shown a) (rejected a)) c),
    rw (merge_results_lem a b c, merge_answer-last b r br (shown a) (rejected a) c w, merge_each)
        (ground (
          arith,
          append-nil (send_clim br.clim (verdict br.cmd ++ 10 ∷ []) ++ close_clim br.clim),
        )),
    (closed_frame br.clim (verdict br.cmd ++ 10 ∷ [])
        (put_broadcast b (collect (c.broadcasts b) (shown a) (rejected a)) c)).0,
  )
  merge_each_lem b r br a (a' ∷ rest) c small w =
      let c' = put_broadcast b (collect (c.broadcasts b) (shown a) (rejected a)) c in
      let (d, e, m) =
        merge_each_lem b r br a' rest c' (omega arith)
          (collected b r br (shown a) (rejected a) c (suc (length rest)) small w).1 in
      (
        d,
        rw
            (
              merge_results_lem a b c,
              merge_answer-more b r br (shown a) (rejected a) c (length rest) small w,
              merge_each,
            )
            (ground (arith, e)),
        m,
      )
