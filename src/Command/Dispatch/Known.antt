-- ===== src/Command/Dispatch/Known.antt =====
-- The commands of a call that an active member serves.
use go_rtp_cluster.Base.{
  ℕ, ◌≡◌, ◌∙◌, true, false, some, List, [], ◌∷◌, Str, codes, arith, ◌==◌, nat_eq, str_eq, elem,
}
use go_rtp_cluster.Text.{has_byte}
use go_rtp_cluster.Externals.{Externals, Cmd}
use go_rtp_cluster.Member.{Member, is_online, unbind_session}
use go_rtp_cluster.Cluster.{Cluster, Clim, Effect, down, put}
use go_rtp_cluster.Command.Dispatch.{
  owner, known_session, delete_session, session_command, dispatch,
}
use go_rtp_cluster.Command.Dispatch.Routing.{
  first_knowing, Sent, SentRedirected, notify_SentRedirected, forward-Sent,
}
use go_rtp_cluster.Command.Dispatch.Sticky.{owner-active, dispatch_session}

module _ ⦃E : Externals⦄ where
  open E use {Rest, Float}

  first_knowing-elem :
      (id : Str) (members : ℕ → Member) (rs : List ℕ) (r : ℕ)
      → first_knowing id members rs ≡ some r
      → elem r rs ≡ true
  unfolding first_knowing
  first_knowing-elem id members [] r h = cc
  first_knowing-elem id members (q ∷ rs) r h = ground (arith, first_knowing-elem id members rs r)

  session_known :
      (rand : Float) (clim : Clim) (cmd : Cmd Rest) (orig : Str) (c : Cluster) (r : ℕ)
      → (owner cmd c).1 ≡ some r
      → session_command rand clim cmd orig c ≡ known_session clim r cmd orig (owner cmd c).0
  unfolding session_command
  session_known rand clim cmd orig c r e = ground (arith, e)

  module _ (rand : Float) (clim : Clim) (cmd : Cmd Rest) (orig : Str) (c : Cluster) (r : ℕ)
      (session : has_byte (codes "ULDPSRCQ") cmd.kind ≡ true)
      (serves : first_knowing cmd.call_id c.members c.active ≡ some r) where
    dispatch_owned : dispatch rand clim cmd orig c ≡ known_session clim r cmd orig (owner cmd c).0
    dispatch_owned =
        dispatch_session rand clim cmd orig c r session
          (first_knowing-elem cmd.call_id c.members c.active r serves)
        ∙ session_known rand clim cmd orig c r (owner-active cmd c r serves)

    -- A session command other than D whose call an active member knows is sent to the first such
    -- member of the active list and to no other, in the text that `rewrite_notify` and
    -- `member_command` make for it; nothing is sent exactly where one of them fails. Beyond the
    -- lookup of the call nothing changes.
    pub dispatch-known :
        (cmd.kind == b'D') ≡ false
        → (es : List Effect) × (dispatch rand clim cmd orig c ≡ some ((owner cmd c).0, es))
          × SentRedirected clim r cmd orig (owner cmd c).0 es
    unfolding known_session
    dispatch-known other =
        let (es, e, s) = notify_SentRedirected clim r cmd orig (owner cmd c).0 in
        (es, dispatch_owned ∙ (rw (other, known_session) e), s)

    -- A D command whose call an active member knows, where the first such member is online: that
    -- member is unbound from the call, and is sent the command in the text that `member_command`
    -- makes for it; nothing is sent exactly where that fails. No other member is sent anything, and
    -- beyond the lookup of the call nothing else changes.
    pub dispatch-delete :
        (cmd.kind == b'D') ≡ true
        → is_online ((owner cmd c).0.members r) ≡ true
        → (es : List Effect) × (dispatch rand clim cmd orig c
            ≡ some (
              put r (unbind_session cmd.call_id ((owner cmd c).0.members r)) (owner cmd c).0,
              es,
            ))
          × Sent
              (down clim cmd r)
              r
              cmd.kind
              orig
              (put r (unbind_session cmd.call_id ((owner cmd c).0.members r)) (owner cmd c).0)
              es
    unfolding known_session delete_session put unbind_session
    dispatch-delete delete online =
        let (es, e, s) =
          forward-Sent (down clim cmd r) r cmd.kind orig
            (put r (unbind_session cmd.call_id ((owner cmd c).0.members r)) (owner cmd c).0) in
        (es, dispatch_owned ∙ (rw (delete, known_session) (ground (arith, online, e))), s)
