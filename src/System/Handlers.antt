-- ===== src/System/Handlers.antt =====
-- What `up_command` leaves behind.
use go_rtp_cluster.Base.{
  ℕ, ◌≡◌, true, none, List, [], ◌∷◌, Str, codes, arith, ◌==◌, nat_eq, str_eq, if◌then◌else◌,
  if_cases, not, ◌&&◌, Option-cases, inl, inr,
}
use go_rtp_cluster.Text.{has_byte, to_lower}
use go_rtp_cluster.Externals.{Externals, Cmd}
use go_rtp_cluster.Cluster.{Cluster, Clim}
use go_rtp_cluster.Command.{Outcome}
use go_rtp_cluster.Command.Reply.{down_command}
use go_rtp_cluster.Command.Broadcasts.{}
use go_rtp_cluster.Command.Dispatch.{
  owner, is_new_session, unknown_session, session_command, stats_command, brief_stats,
  other_command, dispatch, up_command,
}
use go_rtp_cluster.System.Quiet.{owner-Quiet}
use go_rtp_cluster.System.Handled.{Handles, Handles-after, down_command-Handles}
use go_rtp_cluster.System.Forwarding.{
  forward-Handles, known_session-Handles, new_session-Handles, dropped_Handled,
}
use go_rtp_cluster.System.Spreading.{broadcast-Handles, broadcast_stats-Handles}

module _ ⦃E : Externals⦄ where
  open E use {Rest, Float}

  unknown_session-Handles :
      (clim : Clim) (cmd : Cmd Rest) (orig : Str) (c : Cluster)
      → Handles clim c (unknown_session clim cmd orig c)
  unfolding unknown_session
  unknown_session-Handles clim cmd orig c =
      if_cases (Handles clim c) (cmd.kind == b'U')
        (λ _. elim (Option-cases (E.get_str cmd.ul_opts cmd.call_id true true)) [
          | inl e ↦ rw e tt
          | inr (s, e) ↦ rw e (broadcast-Handles clim cmd (b'L' ∷ s) c)
        ])
        (λ _. broadcast-Handles clim cmd orig c)

  session_command-Handles :
      (rand : Float) (clim : Clim) (cmd : Cmd Rest) (orig : Str) (c : Cluster)
      → Handles clim c (session_command rand clim cmd orig c)
  unfolding session_command
  session_command-Handles rand clim cmd orig c = elim (Option-cases (owner cmd c).1) [
    | inl e ↦
        rw (e, session_command)
          (Handles-after clim c _ _ (owner-Quiet cmd c) (
            if_cases (Handles clim (owner cmd c).0) (is_new_session cmd)
              (λ _. new_session-Handles rand clim cmd orig (owner cmd c).0)
              (λ _. unknown_session-Handles clim cmd orig (owner cmd c).0)))
    | inr (r, e) ↦
        rw (e, session_command)
          (Handles-after clim c _ _ (owner-Quiet cmd c) (known_session-Handles clim r cmd orig _))
  ]

  stats_command-Handles :
      (clim : Clim) (cmd : Cmd Rest) (c : Cluster)
      → cmd.kind ≡ b'G'
      → Handles clim c (stats_command clim cmd c)
  unfolding stats_command
  stats_command-Handles clim cmd c g =
      if_cases (Handles clim c)
        (not (cmd.command_opts == []) && to_lower cmd.command_opts == codes "v")
        (λ _. broadcast_stats-Handles clim _ _ c g) (λ _. broadcast_stats-Handles clim _ _ c g)

  other_command-Handles :
      (first : ℕ) (clim : Clim) (cmd : Cmd Rest) (orig : Str) (c : Cluster)
      → Handles clim c (other_command first clim cmd orig c)
  unfolding other_command
  other_command-Handles first clim cmd orig c =
      if_cases (Handles clim c) (cmd.kind == b'I' && cmd.command_opts == codes "b")
        (λ _. down_command-Handles (brief_stats c) clim cmd none c)
        (λ _.
          if_cases (Handles clim c) (cmd.kind == b'G')
            (λ h. stats_command-Handles clim cmd c (ground (arith, h)))
            (λ _. forward-Handles clim cmd first cmd.kind orig c))

  dispatch-Handles :
      (rand : Float) (clim : Clim) (cmd : Cmd Rest) (orig : Str) (c : Cluster)
      → Handles clim c (dispatch rand clim cmd orig c)
  unfolding dispatch
  dispatch-Handles rand clim cmd orig c = go c.active
    where
      go :
          (l : List ℕ)
          → Handles clim c (elim l as (λ _. Outcome) [
            | [] ↦ down_command (codes "E999") clim cmd none c
            | first ∷ rest ↦
                if has_byte (codes "ULDPSRCQ") cmd.kind
                then session_command rand clim cmd orig c
                else other_command first clim cmd orig c
          ])
      go [] = down_command-Handles (codes "E999") clim cmd none c
      go (first ∷ rest) =
          if_cases (Handles clim c) (has_byte (codes "ULDPSRCQ") cmd.kind)
            (λ _. session_command-Handles rand clim cmd orig c)
            (λ _. other_command-Handles first clim cmd orig c)

  -- Every command of the signalling side is answered, asked of one member, asked of the members of
  -- a new broadcast, or dropped.
  pub up_command-Handles :
      (rand : Float) (clim : Clim) (orig : Str) (c : Cluster)
      → Handles clim c (up_command rand clim orig c)
  unfolding up_command
  up_command-Handles rand clim orig c = elim (Option-cases (E.parse_cmd orig)) [
    | inl e ↦ rw (e, up_command) (dropped_Handled clim c)
    | inr (cmd, e) ↦ rw (e, up_command) (dispatch-Handles rand clim cmd orig c)
  ]
