-- ===== src/Command/Dispatch/Callbacks.antt =====
-- The answer of a member on its way to the function that waits for it, and the handlers' freedom
-- from panics.
use mathlib.Core.Option.{some-ne-none}
use go_rtp_cluster.Base.{
  ℕ, ◌≡◌, refl, ◌≢◌, ◌∙◌, sym, true, false, Option, none, some, List, [], ◌∷◌, ◌++◌, Str, codes,
  arith, nat_eq, str_eq, str_dec, Option-cases, inl, inr,
}
use go_rtp_cluster.Text.{has_byte, to_upper}
use go_rtp_cluster.Externals.{Externals, Cmd}
use go_rtp_cluster.Member.{Member, unbind_session}
use go_rtp_cluster.Cluster.{Cluster, Clim, Effect, Callback, down, ignore, merge, merge_stats, put}
use go_rtp_cluster.Command.{Outcome, after_effects}
use go_rtp_cluster.Command.Reply.{answer, down_command, send_clim, close_clim}
use go_rtp_cluster.Command.Reply.Sending.{closed, down_command_lem}
use go_rtp_cluster.Command.Pick.{pick_proxy}
use go_rtp_cluster.Command.Broadcasts.{
  broadcast, broadcast_stats, merge_results, merge_stats_results,
}
use go_rtp_cluster.Command.Dispatch.{
  owner, is_new_session, forward, notify_and_forward, delete_session, known_session, new_session,
  unknown_session, session_command, stats_command, brief_stats, other_command, dispatch,
}
use go_rtp_cluster.Command.Dispatch.Routing.{forward-Sent, notify_SentRedirected}

module _ ⦃E : Externals⦄ where
  open E use {Rest, Float}

  -- The function of a sent command is run on its answer; `ignore_response` only logs it.
  unfoldable pub deliver : Callback → Str → Cluster → Outcome
  deliver (down clim cmd r) result c = down_command result clim cmd (some (c.members r)) c
  deliver (ignore r) result c = some (c, [])
  deliver (merge b) result c = merge_results result b c
  deliver (merge_stats b) result c = merge_stats_results result b c

  pub down_command-ne-none :
      (result text : Str) (clim : Clim) (cmd : Cmd Rest) (m : Option Member) (c : Cluster)
      → answer result cmd m ≡ some text
      → down_command result clim cmd m c ≢ none
  down_command-ne-none result text clim cmd m c e h =
      some-ne-none _ (sym (down_command_lem result text clim cmd m c e) ∙ h)

  answer_e998 : (cmd : Cmd Rest) → answer (codes "E998") cmd none ≡ some (codes "E998")
  unfolding answer to_upper str_dec
  answer_e998 cmd = ground arith

  answer_e999 : (cmd : Cmd Rest) → answer (codes "E999") cmd none ≡ some (codes "E999")
  unfolding answer to_upper str_dec
  answer_e999 cmd = ground arith

  answer_other :
      (b : ℕ) (s : Str) (cmd : Cmd Rest)
      → has_byte (codes "UL") cmd.kind ≡ false
      → answer (b ∷ s) cmd none ≡ some (b ∷ s)
  unfolding answer
  answer_other b s cmd h = ground (arith, h)

  forward-ne-none :
      (callback : Callback) (r kind : ℕ) (orig : Str) (c : Cluster)
      → forward callback r kind orig c ≢ none
  forward-ne-none callback r kind orig c h =
      some-ne-none _ (sym (forward-Sent callback r kind orig c).1 ∙ h)

  notify-ne-none :
      (clim : Clim) (r : ℕ) (cmd : Cmd Rest) (orig : Str) (c : Cluster)
      → notify_and_forward clim r cmd orig c ≢ none
  notify-ne-none clim r cmd orig c h =
      some-ne-none _ (sym (notify_SentRedirected clim r cmd orig c).1 ∙ h)

  new_session-ne-none :
      (rand : Float) (clim : Clim) (cmd : Cmd Rest) (orig : Str) (c : Cluster)
      → new_session rand clim cmd orig c ≢ none
  unfolding new_session
  new_session-ne-none rand clim cmd orig c h = elim (Option-cases (pick_proxy rand c)) [
    | inl e ↦ down_command-ne-none _ _ clim cmd none c (answer_e998 cmd) (rw (e, new_session) at h)
    | inr (r, e) ↦ notify-ne-none clim r cmd orig _ (rw (e, new_session) at h)
  ]

  after-ne-none : (es : List Effect) (o : Outcome) → o ≢ none → after_effects es o ≢ none
  after-ne-none es none h e = h refl
  after-ne-none es (some (c, fs)) h e = cc

  is_D-other : (cmd : Cmd Rest) → cmd.kind ≡ b'D' → has_byte (codes "UL") cmd.kind ≡ false
  unfolding has_byte
  is_D-other cmd k = ground arith

  pub answer_zero :
      (cmd : Cmd Rest) → cmd.kind ≡ b'D' → answer (codes "0") cmd none ≡ some (codes "0")
  answer_zero cmd k = answer_other b'0' [] cmd (is_D-other cmd k)

  delete_session-ne-none :
      (clim : Clim) (r : ℕ) (cmd : Cmd Rest) (orig : Str) (c : Cluster)
      → cmd.kind ≡ b'D'
      → delete_session clim r cmd orig c ≢ none
  unfolding delete_session
  delete_session-ne-none clim r cmd orig c k h = ground (
    arith,
    h,
    forward-ne-none (down clim cmd r) r cmd.kind orig c',
    down_command_lem (codes "0") (codes "0") clim cmd none c' (answer_zero cmd k),
    forward-ne-none (ignore r) r cmd.kind orig (closed clim (codes "0\n") c'),
    after-ne-none (send_clim clim (codes "0\n") ++ close_clim clim)
        (forward (ignore r) r cmd.kind orig (closed clim (codes "0\n") c')),
  )
    where
      c' : Cluster
      c' = put r (unbind_session cmd.call_id (c.members r)) c

  -- The options of an update of a session can be printed as those of a forced lookup.
  abbrev pub Printable : Cmd Rest → Type 0
  Printable cmd =
      cmd.kind ≡ b'U' → cmd.ul_opts.to_tag ≢ [] → E.get_str cmd.ul_opts cmd.call_id true true ≢ none

  unknown_session-ne-none :
      (clim : Clim) (cmd : Cmd Rest) (orig : Str) (c : Cluster)
      → Printable cmd
      → is_new_session cmd ≡ false
      → unknown_session clim cmd orig c ≢ none
  unfolding unknown_session broadcast
  unknown_session-ne-none clim cmd orig c total old h = ground (arith, total, old, h)

  session_command-ne-none :
      (rand : Float) (clim : Clim) (cmd : Cmd Rest) (orig : Str) (c : Cluster)
      → Printable cmd
      → session_command rand clim cmd orig c ≢ none
  unfolding session_command known_session
  session_command-ne-none rand clim cmd orig c total h = elim (Option-cases (owner cmd c).1) [
    | inl e ↦ ground (
      arith,
      e,
      h,
      new_session-ne-none rand clim cmd orig (owner cmd c).0,
      unknown_session-ne-none clim cmd orig (owner cmd c).0 total,
    )
    | inr (r, e) ↦ ground (
      arith,
      e,
      h,
      delete_session-ne-none clim r cmd orig (owner cmd c).0,
      notify-ne-none clim r cmd orig (owner cmd c).0,
    )
  ]

  is_I-other : (cmd : Cmd Rest) → cmd.kind ≡ b'I' → has_byte (codes "UL") cmd.kind ≡ false
  unfolding has_byte
  is_I-other cmd k = ground arith

  down_command-other :
      (result : Str) (clim : Clim) (cmd : Cmd Rest) (c : Cluster)
      → has_byte (codes "UL") cmd.kind ≡ false
      → down_command result clim cmd none c ≢ none
  unfolding answer
  down_command-other [] clim cmd c e = down_command-ne-none [] _ clim cmd none c refl
  down_command-other (b ∷ s) clim cmd c e =
      down_command-ne-none (b ∷ s) _ clim cmd none c (answer_other b s cmd e)

  stats_command-ne-none :
      (clim : Clim) (cmd : Cmd Rest) (c : Cluster) → stats_command clim cmd c ≢ none
  unfolding stats_command broadcast_stats
  stats_command-ne-none clim cmd c h = ground (arith, h)

  other_command-ne-none :
      (first : ℕ) (clim : Clim) (cmd : Cmd Rest) (orig : Str) (c : Cluster)
      → other_command first clim cmd orig c ≢ none
  unfolding other_command
  other_command-ne-none first clim cmd orig c h = ground (
    arith,
    h,
    λ (k : cmd.kind ≡ b'I'). down_command-other (brief_stats c) clim cmd c (is_I-other cmd k),
    stats_command-ne-none clim cmd c,
    forward-ne-none (down clim cmd first) first cmd.kind orig c,
  )

  -- The dispatch of a parsed command does not panic, whatever the state of the cluster, if the
  -- options of an update of a session can be printed as those of a forced lookup.
  pub dispatch-ne-none :
      (rand : Float) (clim : Clim) (cmd : Cmd Rest) (orig : Str) (c : Cluster)
      → Printable cmd
      → dispatch rand clim cmd orig c ≢ none
  unfolding dispatch
  dispatch-ne-none rand clim cmd orig c total h = go c.active refl
    where
      go : (l : List ℕ) → c.active ≡ l → ⊥
      go [] e = ground (
        arith,
        e,
        h,
        down_command-ne-none (codes "E999") (codes "E999") clim cmd none c (answer_e999 cmd),
      )
      go (first ∷ rest) e = ground (
        arith,
        e,
        h,
        session_command-ne-none rand clim cmd orig c total,
        other_command-ne-none first clim cmd orig c,
      )
