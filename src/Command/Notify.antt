-- ===== src/Command/Notify.antt =====
-- The part of `up_command` that redirects the disconnect notification of a session to the relay.
pub mod RoundTrip
use go_rtp_cluster.Base.{
  ℕ, ◌≡◌, Bool, true, false, ◌&&◌, not, Option, none, some, List, [], ◌∷◌, ◌++◌, Str, codes, ◌==◌,
  str_eq, if◌then◌else◌, length, drop,
}
use go_rtp_cluster.Text.{has_prefix, has_byte}
use go_rtp_cluster.Text.Url.{query_escape, query_unescape}
use go_rtp_cluster.Externals.{Externals, Cmd, UlOpts}
use go_rtp_cluster.Member.{Member}
use go_rtp_cluster.Relay.{Relay}

module _ ⦃E : Externals⦄ where
  open E use {Rest}

  -- The command and its text as they go on, or the end of the handler with an error in the log.
  pub data Notified : Type 0 where
    passed : Cmd Rest → Str → Notified
    given_up : Notified

  -- New options for the command, whose text is then printed anew.
  printed : Cmd Rest → Str → Str → Notified
  printed cmd socket tag =
      let cmd' : Cmd Rest = record cmd {
        ul_opts = record cmd.ul_opts { notify_socket = socket; notify_tag = tag };
      } in
      passed cmd' (E.cmd_string cmd')

  redirect : Relay → Cmd Rest → Notified
  unfolding printed
  redirect d cmd = elim (query_unescape cmd.ul_opts.notify_tag) [
    | none ↦ given_up
    | some tag ↦
        let path = drop (length d.dest_sprefix) cmd.ul_opts.notify_socket in
        printed cmd (codes "tcp:%%CC_SELF%%:" ++ E.port_string d.in_address)
          (query_escape (path ++ (b' ' ∷ tag)))
  ]

  local_or_drop : Member → Cmd Rest → Str → Notified
  unfolding printed
  local_or_drop m cmd orig = if E.is_local m.client then passed cmd orig else printed cmd [] []

  relayed : Option Relay → Member → Cmd Rest → Str → Notified
  unfolding redirect local_or_drop
  relayed none m cmd orig = local_or_drop m cmd orig
  relayed (some d) m cmd orig =
      if E.wdnt_supported m.client
        && not (E.is_local m.client)
        && has_prefix cmd.ul_opts.notify_socket d.dest_sprefix
      then redirect d cmd
      else local_or_drop m cmd orig

  unfoldable pub rewrite_notify : Option Relay → Member → Cmd Rest → Str → Notified
  unfolding relayed
  rewrite_notify relay m cmd orig =
      if has_byte (codes "UL") cmd.kind && not (cmd.ul_opts.notify_socket == [])
      then relayed relay m cmd orig
      else passed cmd orig
