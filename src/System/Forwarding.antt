-- ===== src/System/Forwarding.antt =====
-- What the handlers of a command for one member leave behind.
use go_rtp_cluster.Base.{
  ℕ, ◌≡◌, refl, none, some, [], ◌∷◌, ◌++◌, Str, codes, arith, ◌==◌, nat_eq, str_eq, if_cases,
  Option-cases, inl, inr,
}
use go_rtp_cluster.Externals.{Externals, Cmd}
use go_rtp_cluster.Member.{is_online, unbind_session}
use go_rtp_cluster.Cluster.{Cluster, Clim, command, down, ignore, put}
use go_rtp_cluster.Command.{Outcome, after_effects}
use go_rtp_cluster.Command.Reply.{down_command, answer, send_clim, close_clim}
use go_rtp_cluster.Command.Reply.Sending.{closed, down_command_lem}
use go_rtp_cluster.Command.Pick.{pick_proxy}
use go_rtp_cluster.Command.Notify.{Notified, rewrite_notify, passed, given_up}
use go_rtp_cluster.Command.Broadcasts.{member_command}
use go_rtp_cluster.Command.Dispatch.{
  forward, notify_and_forward, delete_session, known_session, new_session,
}
use go_rtp_cluster.System.Quiet.{Quiet-refl, bind_session-Quiet, unbind_session-Quiet}
use go_rtp_cluster.System.Handled.{
  Idle, Asks, Handled, asked, Handles, Handles-after, nil_Idle, nil_Asks, answered_Handled,
  down_command-Handles,
}

module _ ⦃E : Externals⦄ where
  open E use {Rest, Float, Stats}

  pub dropped_Handled : (clim : Clim) (c : Cluster) → Handled clim c c []
  dropped_Handled clim c = asked (Quiet-refl c) (nil_Asks clim)

  down_Asks : (clim : Clim) (cmd : Cmd Rest) (r : ℕ) → Asks clim (down clim cmd r ∷ [])
  down_Asks clim cmd r = record { one_direct = λ j. omega arith; no_parts = λ b. refl }

  ignore_Idle : (r : ℕ) → Idle (ignore r ∷ [])
  ignore_Idle r = record { no_direct = λ j. refl; no_parts = λ b. refl }

  -- The command is asked of one member, or dropped.
  pub forward-Handles :
      (clim : Clim) (cmd : Cmd Rest) (r kind : ℕ) (orig : Str) (c : Cluster)
      → Handles clim c (forward (down clim cmd r) r kind orig c)
  unfolding forward
  forward-Handles clim cmd r kind orig c =
      elim (Option-cases (member_command kind orig (c.members r))) [
        | inl e ↦ rw (e, forward) (dropped_Handled clim c)
        | inr (out, e) ↦ rw (e, forward) (asked (Quiet-refl c) (down_Asks clim cmd r))
      ]

  notify_Handles :
      (clim : Clim) (r : ℕ) (cmd : Cmd Rest) (orig : Str) (c : Cluster)
      → Handles clim c (notify_and_forward clim r cmd orig c)
  unfolding notify_and_forward
  notify_Handles clim r cmd orig c = go (rewrite_notify c.dnrelay (c.members r) cmd orig)
    where
      go :
          (notified : Notified)
          → Handles clim c (elim notified as (λ _. Outcome) [
            | given_up ↦ some (c, [])
            | passed cmd' orig' ↦ forward (down clim cmd' r) r cmd'.kind orig' c
          ])
      go given_up = dropped_Handled clim c
      go (passed cmd' orig') = forward-Handles clim cmd' r cmd'.kind orig' c

  -- An offline member is told in the background, after the answer.
  told_Handles :
      (clim : Clim) (text : Str) (r kind : ℕ) (orig : Str) (c d : Cluster)
      → d ≡ closed clim text c
      → Handles clim c (
          after_effects (send_clim clim text ++ close_clim clim) (forward (ignore r) r kind orig d))
  unfolding forward
  told_Handles clim text r kind orig c d e =
      elim (Option-cases (member_command kind orig (d.members r))) [
        | inl f ↦ rw (f, forward, e) (answered_Handled clim text c [] nil_Idle)
        | inr (out, f) ↦
            rw (f, forward, e)
              (answered_Handled clim text c (command r out (ignore r) ∷ []) (ignore_Idle r))
      ]

  after_Handles :
      (clim : Clim) (result : Str) (cmd : Cmd Rest) (r : ℕ) (orig : Str) (c : Cluster)
      → Handles clim c (elim (down_command result clim cmd none c) as (λ _. Outcome) [
        | none ↦ none
        | some (d, es) ↦ after_effects es (forward (ignore r) r cmd.kind orig d)
      ])
  unfolding down_command
  after_Handles clim result cmd r orig c = elim (Option-cases (answer result cmd none)) [
    | inl e ↦ rw (e, down_command) tt
    | inr (text, e) ↦
        rw (down_command_lem result text clim cmd none c e)
          (told_Handles clim (text ++ 10 ∷ []) r cmd.kind orig c _ refl)
  ]

  delete_session-Handles :
      (clim : Clim) (r : ℕ) (cmd : Cmd Rest) (orig : Str) (c : Cluster)
      → Handles clim c (delete_session clim r cmd orig c)
  unfolding delete_session
  delete_session-Handles clim r cmd orig c =
      Handles-after clim c _ _ (unbind_session-Quiet r cmd.call_id c) (
        if_cases (Handles clim c') (is_online (c'.members r))
          (λ _. forward-Handles clim cmd r cmd.kind orig c')
          (λ _. after_Handles clim (codes "0") cmd r orig c'))
    where
      c' : Cluster
      c' = put r (unbind_session cmd.call_id (c.members r)) c

  pub known_session-Handles :
      (clim : Clim) (r : ℕ) (cmd : Cmd Rest) (orig : Str) (c : Cluster)
      → Handles clim c (known_session clim r cmd orig c)
  unfolding known_session
  known_session-Handles clim r cmd orig c =
      if_cases (Handles clim c) (cmd.kind == b'D') (λ _. delete_session-Handles clim r cmd orig c)
        (λ _. notify_Handles clim r cmd orig c)

  pub new_session-Handles :
      (rand : Float) (clim : Clim) (cmd : Cmd Rest) (orig : Str) (c : Cluster)
      → Handles clim c (new_session rand clim cmd orig c)
  unfolding new_session
  new_session-Handles rand clim cmd orig c = elim (Option-cases (pick_proxy rand c)) [
    | inl e ↦ rw (e, new_session) (down_command-Handles (codes "E998") clim cmd none c)
    | inr (r, e) ↦
        rw (e, new_session)
          (Handles-after clim c _ _ (bind_session-Quiet r cmd.call_id cmd.kind c)
            (notify_Handles clim r cmd orig _))
  ]
