-- ===== src/Command/Dispatch.antt =====
-- `up_command`: where a command goes.
pub mod Routing
pub mod Sticky
pub mod Known
pub mod Offline
pub mod Callbacks
use mathlib.Core.Option
use go_rtp_cluster.Base.{
  ℕ, suc, ◌≡◌, Bool, true, false, ◌&&◌, ◌||◌, not, Option, none, some, List, [], ◌∷◌, ◌++◌, ℤ, pos,
  add64, ltb_ℤ, map, Str, codes, ◌==◌, nat_eq, str_eq, if◌then◌else◌,
}
use go_rtp_cluster.Text.{to_lower, has_byte, fields}
use go_rtp_cluster.Text.Decimal.{itoa}
use go_rtp_cluster.Externals.{Externals, Cmd}
use go_rtp_cluster.Member.{Member, is_online, is_yours, bind_session, unbind_session}
use go_rtp_cluster.Cluster.{Cluster, Clim, Effect, Callback, command, down, ignore, put}
use go_rtp_cluster.Command.{Outcome, after_effects}
use go_rtp_cluster.Command.Reply.{down_command}
use go_rtp_cluster.Command.Pick.{pick_proxy}
use go_rtp_cluster.Command.Notify.{rewrite_notify, passed, given_up}
use go_rtp_cluster.Command.Broadcasts.{online, is_ul, member_command, broadcast, broadcast_stats}

module _ ⦃E : Externals⦄ where
  open E use {Rest, Float}

  -- The first member of a list that knows the call; each one that is asked may move the call to its
  -- new map.
  unfoldable pub find_yours : Str → List ℕ → Cluster → Cluster × Option ℕ
  find_yours call_id [] c = (c, none)
  find_yours call_id (r ∷ rs) c =
      let (m, yours) = is_yours call_id (c.members r) in
      let rest = find_yours call_id rs (put r m c) in if yours then (put r m c, some r) else rest

  -- The end of `up_command`: the command goes to one member. A command that cannot be parsed again
  -- is dropped.
  unfoldable pub forward : Callback → ℕ → ℕ → Str → Cluster → Outcome
  forward callback r kind orig c = elim (member_command kind orig (c.members r)) [
    | none ↦ some (c, [])
    | some out ↦ some (c, command r out callback ∷ [])
  ]

  unfoldable pub notify_and_forward : Clim → ℕ → Cmd Rest → Str → Cluster → Outcome
  notify_and_forward clim r cmd orig c = elim (rewrite_notify c.dnrelay (c.members r) cmd orig) [
    | given_up ↦ some (c, [])
    | passed cmd' orig' ↦ forward (down clim cmd' r) r cmd'.kind orig' c
  ]

  -- A D command unbinds the call. An offline member is told in the background, and the answer is
  -- sent at once.
  unfoldable pub delete_session : Clim → ℕ → Cmd Rest → Str → Cluster → Outcome
  delete_session clim r cmd orig c =
      let c' = put r (unbind_session cmd.call_id (c.members r)) c in
      if is_online (c'.members r)
      then forward (down clim cmd r) r cmd.kind orig c'
      else elim (down_command (codes "0") clim cmd none c') [
        | none ↦ none
        | some (d, es) ↦ after_effects es (forward (ignore r) r cmd.kind orig d)
      ]

  unfoldable pub known_session : Clim → ℕ → Cmd Rest → Str → Cluster → Outcome
  known_session clim r cmd orig c =
      if cmd.kind == b'D'
      then delete_session clim r cmd orig c
      else notify_and_forward clim r cmd orig c

  unfoldable pub new_session : Float → Clim → Cmd Rest → Str → Cluster → Outcome
  new_session rand clim cmd orig c = elim (pick_proxy rand c) [
    | none ↦ down_command (codes "E998") clim cmd none c
    | some r ↦
        notify_and_forward clim r cmd orig
          (put r (bind_session cmd.call_id cmd.kind (c.members r)) c)
  ]

  -- A session that no member knows: an update becomes a forced lookup.
  unfoldable pub unknown_session : Clim → Cmd Rest → Str → Cluster → Outcome
  unknown_session clim cmd orig c =
      if cmd.kind == b'U'
      then elim (E.get_str cmd.ul_opts cmd.call_id true true) [
        | none ↦ none
        | some s ↦ broadcast clim cmd (b'L' ∷ s) c
      ]
      else broadcast clim cmd orig c

  abbrev pub is_new_session : Cmd Rest → Bool
  is_new_session cmd = cmd.kind == b'U' && cmd.ul_opts.to_tag == []

  -- The active members are asked first, and the offline ones if the command opens no session.
  unfoldable pub owner : Cmd Rest → Cluster → Cluster × Option ℕ
  owner cmd c =
      let (c', r) = find_yours cmd.call_id c.active c in
      elim r [
        | some q ↦ (c', some q)
        | none ↦ if is_new_session cmd then (c', none) else find_yours cmd.call_id c'.pending c'
      ]

  unfoldable pub session_command : Float → Clim → Cmd Rest → Str → Cluster → Outcome
  session_command rand clim cmd orig c =
      let (c', r) = owner cmd c in
      elim r [
        | some q ↦ known_session clim q cmd orig c'
        | none ↦
            if is_new_session cmd
            then new_session rand clim cmd orig c'
            else unknown_session clim cmd orig c'
      ]

  record Totals : Type 0 where
    sessions_created : ℤ
    active_sessions : ℤ
    active_streams : ℤ
    preceived : ℤ
    ptransmitted : ℤ

  -- A member with no statistics yet is skipped.
  add_member_stats : Totals → Member → Totals
  add_member_stats t m = if ltb_ℤ (E.active_sessions m.client) (pos 0) then t else record {
    sessions_created = add64 t.sessions_created (E.sessions_created m.client);
    active_sessions = add64 t.active_sessions (E.active_sessions m.client);
    active_streams = add64 t.active_streams (E.active_streams m.client);
    preceived = add64 t.preceived (E.preceived m.client);
    ptransmitted = add64 t.ptransmitted (E.ptransmitted m.client);
  }

  totals : Totals → List Member → Totals
  unfolding add_member_stats
  totals t [] = t
  totals t (m ∷ ms) = totals (add_member_stats t m) ms

  unfoldable pub brief_stats : Cluster → Str
  unfolding totals
  brief_stats c =
      let t =
        totals
          (record {
            sessions_created = pos 0;
            active_sessions = pos 0;
            active_streams = pos 0;
            preceived = pos 0;
            ptransmitted = pos 0;
          })
          (map c.members (online c)) in
      codes "sessions created: "
      ++ (itoa t.sessions_created
          ++ (codes "\nactive sessions: "
              ++ (itoa t.active_sessions
                  ++ (codes "\nactive streams: "
                      ++ (itoa t.active_streams
                          ++ (codes "\npackets received: "
                              ++ (itoa t.preceived
                                  ++ (codes "\npackets transmitted: " ++ itoa t.ptransmitted))))))))

  unfoldable pub stats_command : Clim → Cmd Rest → Cluster → Outcome
  stats_command clim cmd c =
      let sobj = E.new_stats (fields cmd.args) in
      if not (cmd.command_opts == []) && to_lower cmd.command_opts == codes "v"
      then broadcast_stats clim (record cmd { command_opts = []; nretr = 0 }) (E.set_verbose sobj) c
      else broadcast_stats clim (record cmd { nretr = 0 }) sobj c

  -- Commands that concern no session, and the first active member for those that go to any.
  unfoldable pub other_command : ℕ → Clim → Cmd Rest → Str → Cluster → Outcome
  unfolding brief_stats stats_command
  other_command first clim cmd orig c =
      if cmd.kind == b'I' && cmd.command_opts == codes "b"
      then down_command (brief_stats c) clim cmd none c
      else if cmd.kind == b'G'
      then stats_command clim cmd c
      else forward (down clim cmd first) first cmd.kind orig c

  unfoldable pub dispatch : Float → Clim → Cmd Rest → Str → Cluster → Outcome
  dispatch rand clim cmd orig c = elim c.active [
    | [] ↦ down_command (codes "E999") clim cmd none c
    | first ∷ rest ↦
        if has_byte (codes "ULDPSRCQ") cmd.kind
        then session_command rand clim cmd orig c
        else other_command first clim cmd orig c
  ]

  -- `up_command`. A command that cannot be parsed is logged and dropped.
  unfoldable pub up_command : Float → Clim → Str → Cluster → Outcome
  up_command rand clim orig c = elim (E.parse_cmd orig) [
    | none ↦ some (c, [])
    | some cmd ↦ dispatch rand clim cmd orig c
  ]
