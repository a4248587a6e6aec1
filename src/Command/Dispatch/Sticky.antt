-- ===== src/Command/Dispatch/Sticky.antt =====
-- A new session, and the later commands of its call.
use mathlib.Core.Path.{subst}
use go_rtp_cluster.Base.{
  ℕ, ◌≡◌, ◌∙◌, sym, ap, true, none, some, List, Str, codes, arith, nat_eq, str_eq, elem,
}
use go_rtp_cluster.Text.{has_byte}
use go_rtp_cluster.Externals.{Externals, Cmd}
use go_rtp_cluster.Member.{bind_session}
use go_rtp_cluster.Cluster.{Cluster, Clim, Effect, put}
use go_rtp_cluster.Command.Pick.{pick_proxy}
use go_rtp_cluster.Command.Pick.Choice.{pick_proxy-Eligible}
use go_rtp_cluster.Command.Dispatch.{
  find_yours, owner, is_new_session, notify_and_forward, new_session, session_command, dispatch,
}
use go_rtp_cluster.Command.Dispatch.Routing.{
  Same, find_yours-Same, find_yours_lem, first_knowing, first_knowing-none, first_knowing-one,
  first_knowing-congr, bind_session-knows, SentRedirected, notify_SentRedirected,
}

module _ ⦃E : Externals⦄ where
  open E use {Rest, Float}

  -- The owner of a new session's call, if an active member knows it.
  owner-new :
      (cmd : Cmd Rest) (c : Cluster)
      → is_new_session cmd ≡ true
      → first_knowing cmd.call_id c.members c.active ≡ none
      → ((owner cmd c).1 ≡ none) × Same c (owner cmd c).0
  unfolding owner
  owner-new cmd c new unknown = (
    ground (arith, find_yours_lem cmd.call_id c.active c),
    subst (Same c) (sym searched) (find_yours-Same cmd.call_id c.active c),
  )
    where
      searched : (owner cmd c).0 ≡ (find_yours cmd.call_id c.active c).0
      searched = ground (arith, find_yours_lem cmd.call_id c.active c)

  pub owner-active :
      (cmd : Cmd Rest) (c : Cluster) (r : ℕ)
      → first_knowing cmd.call_id c.members c.active ≡ some r
      → (owner cmd c).1 ≡ some r
  unfolding owner
  owner-active cmd c r h = ground (arith, find_yours_lem cmd.call_id c.active c)

  placed : ℕ → Cmd Rest → Cluster → Cluster
  placed r cmd c = put r (bind_session cmd.call_id cmd.kind (c.members r)) c

  -- Where the members of the list do not know the call, the one that it is bound to is the only one
  -- that does.
  placed-owner :
      (r : ℕ) (cmd next : Cmd Rest) (c : Cluster)
      → next.call_id ≡ cmd.call_id
      → elem r c.active ≡ true
      → first_knowing cmd.call_id c.members c.active ≡ none
      → (owner next (placed r cmd c)).1 ≡ some r
  unfolding placed put
  placed-owner r cmd next c same here unknown = owner-active next (placed r cmd c) r (
      rw same (
        first_knowing-one cmd.call_id (placed r cmd c).members c.active r here
          (ground (arith, bind_session-knows cmd.call_id cmd.kind (c.members r)))
          (λ q i n. ground (arith, first_knowing-none cmd.call_id c.members c.active q unknown i))))

  session_new :
      (rand : Float) (clim : Clim) (cmd : Cmd Rest) (orig : Str) (c : Cluster)
      → is_new_session cmd ≡ true
      → (owner cmd c).1 ≡ none
      → session_command rand clim cmd orig c ≡ new_session rand clim cmd orig (owner cmd c).0
  unfolding session_command
  session_new rand clim cmd orig c new none_yet = ground (arith, new, none_yet)

  is_new-U :
      (cmd : Cmd Rest) → is_new_session cmd ≡ true → has_byte (codes "ULDPSRCQ") cmd.kind ≡ true
  unfolding has_byte
  is_new-U cmd new = ground arith

  pub dispatch_session :
      (rand : Float) (clim : Clim) (cmd : Cmd Rest) (orig : Str) (c : Cluster) (r : ℕ)
      → has_byte (codes "ULDPSRCQ") cmd.kind ≡ true
      → elem r c.active ≡ true
      → dispatch rand clim cmd orig c ≡ session_command rand clim cmd orig c
  unfolding dispatch
  dispatch_session rand clim cmd orig c r h here = ground (arith, h, here)

  -- A command that opens a session no active member knows, where `pick_proxy` gives a member: it
  -- is sent to that member and to no other, in the text that `rewrite_notify` and `member_command`
  -- make for it; nothing is sent exactly where one of them fails. A next command of the same call
  -- has that member as its owner.
  pub dispatch-sticky :
      (rand : Float) (clim : Clim) (cmd next : Cmd Rest) (orig : Str) (c : Cluster) (r : ℕ)
      → is_new_session cmd ≡ true
      → first_knowing cmd.call_id c.members c.active ≡ none
      → pick_proxy rand (owner cmd c).0 ≡ some r
      → next.call_id ≡ cmd.call_id
      → (d : Cluster) × (es : List Effect) × (dispatch rand clim cmd orig c ≡ some (d, es))
        × SentRedirected clim r cmd orig d es
        × ((owner next d).1 ≡ some r)
  unfolding new_session placed
  dispatch-sticky rand clim cmd next orig c r new unknown picked same_call = (
    placed r cmd c',
    sent.0,
    dispatch_session rand clim cmd orig c r (is_new-U cmd new)
          (subst (λ l. elem r l ≡ true) same.0 here)
        ∙ (session_new rand clim cmd orig c new first.0 ∙ rw (picked, new_session) sent.1),
    sent.2,
    placed-owner r cmd next c' same_call here still_unknown,
  )
    where
      c' : Cluster
      c' = (owner cmd c).0

      first : ((owner cmd c).1 ≡ none) × Same c (owner cmd c).0
      first = owner-new cmd c new unknown

      same : Same c c'
      same = first.1

      here : elem r c'.active ≡ true
      here = (pick_proxy-Eligible rand c' picked).0

      still_unknown : first_knowing cmd.call_id c'.members c'.active ≡ none
      still_unknown =
          ap (first_knowing cmd.call_id c'.members) same.0
          ∙ (first_knowing-congr cmd.call_id c'.members c.members c.active
                (λ q. same.2 q cmd.call_id)
              ∙ unknown)

      sent :
          (es : List Effect) × (notify_and_forward clim r cmd orig (placed r cmd c')
            ≡ some (placed r cmd c', es))
          × SentRedirected clim r cmd orig (placed r cmd c') es
      sent = notify_SentRedirected clim r cmd orig (placed r cmd c')
