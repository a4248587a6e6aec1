-- ===== src/Command/Dispatch/Offline.antt =====
-- The end of a call whose member is offline, and so pending.
use go_rtp_cluster.Base.{
  ℕ, ◌≡◌, refl, ◌≢◌, ◌∙◌, ap, false, none, some, List, [], ◌∷◌, ◌++◌, Str, codes, arith, nat_eq,
  str_eq,
}
use go_rtp_cluster.Text.{has_byte}
use go_rtp_cluster.Externals.{Externals, Cmd}
use go_rtp_cluster.Member.{is_online, unbind_session}
use go_rtp_cluster.Cluster.{Cluster, Clim, Effect, ignore, put}
use go_rtp_cluster.Command.Reply.{send_clim, close_clim}
use go_rtp_cluster.Command.Reply.Sending.{closed, down_command_lem}
use go_rtp_cluster.Command.Dispatch.{
  find_yours, owner, forward, known_session, delete_session, session_command, dispatch,
}
use go_rtp_cluster.Command.Dispatch.Routing.{
  find_yours-Same, find_yours_lem, first_knowing, first_knowing-congr, Sent, forward-Sent,
}
use go_rtp_cluster.Command.Dispatch.Callbacks.{answer_zero}

module _ ⦃E : Externals⦄ where
  open E use {Rest, Float}

  -- The offline members are asked after the active ones.
  owner-pending :
      (cmd : Cmd Rest) (c : Cluster) (r : ℕ)
      → cmd.kind ≡ b'D'
      → first_knowing cmd.call_id c.members c.active ≡ none
      → first_knowing cmd.call_id c.members c.pending ≡ some r
      → (owner cmd c).1 ≡ some r
  unfolding owner
  owner-pending cmd c r delete unknown serves = ground (
    arith,
    delete,
    find_yours_lem cmd.call_id c.active c,
    find_yours_lem cmd.call_id c'.pending c',
    later,
  )
    where
      c' : Cluster
      c' = (find_yours cmd.call_id c.active c).0

      later : first_knowing cmd.call_id c'.members c'.pending ≡ some r
      later =
          let (_, pending, knows) = find_yours-Same cmd.call_id c.active c in
          ap (first_knowing cmd.call_id c'.members) pending
          ∙ (first_knowing-congr cmd.call_id c'.members c.members c.pending
                (λ q. knows q cmd.call_id)
              ∙ serves)

  dispatch_D :
      (rand : Float) (clim : Clim) (cmd : Cmd Rest) (orig : Str) (c : Cluster) (r : ℕ)
      → cmd.kind ≡ b'D'
      → c.active ≢ []
      → (owner cmd c).1 ≡ some r
      → dispatch rand clim cmd orig c ≡ delete_session clim r cmd orig (owner cmd c).0
  unfolding dispatch session_command known_session has_byte
  dispatch_D rand clim cmd orig c r delete some_active serves = go c.active refl
    where
      go :
          (l : List ℕ)
          → c.active ≡ l
          → dispatch rand clim cmd orig c ≡ delete_session clim r cmd orig (owner cmd c).0
      go [] e = absurd (some_active e)
      go (first ∷ rest) e = ground (arith, e, delete, serves)

  delete_session_offline :
      (clim : Clim) (r : ℕ) (cmd : Cmd Rest) (orig : Str) (c d : Cluster) (es : List Effect)
      → cmd.kind ≡ b'D'
      → is_online (c.members r) ≡ false
      → closed clim (codes "0\n") (put r (unbind_session cmd.call_id (c.members r)) c) ≡ d
      → forward (ignore r) r cmd.kind orig d ≡ some (d, es)
      → delete_session clim r cmd orig c
        ≡ some (d, (send_clim clim (codes "0\n") ++ close_clim clim) ++ es)
  unfolding delete_session put unbind_session
  delete_session_offline clim r cmd orig c d es delete offline left sent = ground (
    arith,
    offline,
    down_command_lem (codes "0") (codes "0") clim cmd none
        (put r (unbind_session cmd.call_id (c.members r)) c) (answer_zero cmd delete),
    left,
    sent,
  )

  -- A D command for a call that no active member knows, though there are active ones, where the first
  -- pending member that knows it is not online: the sender gets the answer 0 at once, that member is
  -- unbound from the call, and then it is sent the command, in the text that `member_command` makes
  -- for it, with its answer ignored. It is sent nothing exactly where that text cannot be made.
  pub dispatch-delete_offline :
      (rand : Float) (clim : Clim) (cmd : Cmd Rest) (orig : Str) (c : Cluster) (r : ℕ)
      → cmd.kind ≡ b'D'
      → c.active ≢ []
      → first_knowing cmd.call_id c.members c.active ≡ none
      → first_knowing cmd.call_id c.members c.pending ≡ some r
      → is_online ((owner cmd c).0.members r) ≡ false
      → (d : Cluster) × (es : List Effect) × (dispatch rand clim cmd orig c
          ≡ some (d, (send_clim clim (codes "0\n") ++ close_clim clim) ++ es))
        × (d
            ≡ closed clim
                (codes "0\n")
                (put r (unbind_session cmd.call_id ((owner cmd c).0.members r)) (owner cmd c).0))
        × Sent (ignore r) r cmd.kind orig d es
  dispatch-delete_offline rand clim cmd orig c r delete some_active unknown serves offline =
      let (es, run, sent) = forward-Sent (ignore r) r cmd.kind orig d in
      (
        d,
        es,
        dispatch_D rand clim cmd orig c r delete some_active
              (owner-pending cmd c r delete unknown serves)
            ∙ delete_session_offline clim r cmd orig (owner cmd c).0 d es delete offline refl run,
        refl,
        sent,
      )
    where
      d : Cluster
      d =
          closed clim (codes "0\n")
            (put r (unbind_session cmd.call_id ((owner cmd c).0.members r)) (owner cmd c).0)
