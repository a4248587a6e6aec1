-- ===== src/Command/Dispatch/Routing.antt =====
-- Sessions stay with their member: the member that gets a new session is the one that later
-- commands of the call go to.
use go_rtp_cluster.Base.{
  ℕ, ◌≡◌, refl, ◌≢◌, true, false, Option, none, some, List, [], ◌∷◌, Str, arith, nat_eq, str_eq,
  if◌then◌else◌, elem, inl, inr, ◌⊎◌, Option-cases,
}
use go_rtp_cluster.Base.Dict.{has-insert}
use go_rtp_cluster.Externals.{Externals, Cmd}
use go_rtp_cluster.Member.{Member, is_yours, bind_session}
use go_rtp_cluster.Member.Sessions.{knows, is_yours_known}
use go_rtp_cluster.Cluster.{Cluster, Clim, Effect, Callback, command, down, put}
use go_rtp_cluster.Command.Notify.{Notified, rewrite_notify, passed, given_up}
use go_rtp_cluster.Command.Broadcasts.{member_command}
use go_rtp_cluster.Command.Dispatch.{find_yours, forward, notify_and_forward}

module _ ⦃E : Externals⦄ where
  open E use {Rest}

  -- A lookup changes no list, and nothing of what the members know.
  abbrev pub Same : Cluster → Cluster → Type 0
  Same c d =
      (d.active ≡ c.active)
      × (d.pending ≡ c.pending)
      × ((q : ℕ) (j : Str) → knows j (d.members q) ≡ knows j (c.members q))

  asked : Str → ℕ → Cluster → Cluster
  asked id r c = put r (is_yours id (c.members r)).0 c

  asked-Same : (id : Str) (r : ℕ) (c : Cluster) → Same c (asked id r c)
  unfolding asked put
  asked-Same id r c = (refl, refl, λ q j. ground (arith, (is_yours_known id j (c.members r)).1))

  pub find_yours-Same : (id : Str) (rs : List ℕ) (c : Cluster) → Same c (find_yours id rs c).0
  unfolding find_yours asked
  find_yours-Same id [] c = (refl, refl, λ q j. refl)
  find_yours-Same id (r ∷ rs) c =
      let one = asked-Same id r c in
      let more = find_yours-Same id rs (asked id r c) in
      (
        ground (arith, one, more),
        ground (arith, one, more),
        λ q j. ground (arith, one.2 q j, more.2 q j),
      )

  -- The member that is found is the first of the list that knows the call.
  unfoldable pub first_knowing : Str → (ℕ → Member) → List ℕ → Option ℕ
  first_knowing id members [] = none
  first_knowing id members (r ∷ rs) =
      if knows id (members r) then some r else first_knowing id members rs

  pub first_knowing-congr :
      (id : Str) (m n : ℕ → Member) (rs : List ℕ)
      → ((q : ℕ) → knows id (m q) ≡ knows id (n q))
      → first_knowing id m rs ≡ first_knowing id n rs
  unfolding first_knowing
  first_knowing-congr id m n [] h = refl
  first_knowing-congr id m n (r ∷ rs) h = ground (arith, h r, first_knowing-congr id m n rs h)

  pub find_yours_lem :
      (id : Str) (rs : List ℕ) (c : Cluster)
      → (find_yours id rs c).1 ≡ first_knowing id c.members rs
  unfolding find_yours first_knowing asked
  find_yours_lem id [] c = refl
  find_yours_lem id (r ∷ rs) c = ground (
    arith,
    is_yours_known id id (c.members r),
    find_yours_lem id rs (asked id r c),
    first_knowing-congr id (asked id r c).members c.members rs
        (λ (q : ℕ). (asked-Same id r c).2 q id),
  )

  pub first_knowing-none :
      (id : Str) (members : ℕ → Member) (rs : List ℕ) (q : ℕ)
      → first_knowing id members rs ≡ none
      → elem q rs ≡ true
      → knows id (members q) ≡ false
  unfolding first_knowing
  first_knowing-none id members [] q h e = ground arith
  first_knowing-none id members (r ∷ rs) q h e = ground (arith, first_knowing-none id members rs q)

  pub first_knowing-one :
      (id : Str) (members : ℕ → Member) (rs : List ℕ) (r : ℕ)
      → elem r rs ≡ true
      → knows id (members r) ≡ true
      → ((q : ℕ) → elem q rs ≡ true → r ≢ q → knows id (members q) ≡ false)
      → first_knowing id members rs ≡ some r
  unfolding first_knowing
  first_knowing-one id members [] r e k other = ground arith
  first_knowing-one id members (q ∷ rs) r e k other = ground (
    arith,
    other q (ground arith),
    first_knowing-one id members rs r,
    λ (p : ℕ) (i : elem p rs ≡ true). other p (ground arith),
  )

  pub bind_session-knows :
      (id : Str) (kind : ℕ) (m : Member) → knows id (bind_session id kind m) ≡ true
  unfolding bind_session
  bind_session-knows id kind m =
      ground (arith, has-insert id id true m.call_id_map, has-insert id id true m.call_id_map_old)

  -- One member is sent the command in the text made for it; nothing is sent if that text cannot be
  -- made.
  abbrev pub Sent : Callback → ℕ → ℕ → Str → Cluster → List Effect → Type 0
  Sent callback r kind orig c es =
      ((member_command kind orig (c.members r) ≡ none) × (es ≡ []))
      ⊎ ((text : Str) × (member_command kind orig (c.members r) ≡ some text)
          × (es ≡ command r text callback ∷ []))

  -- The same of a command whose notification is redirected first; its answer goes to the sender.
  abbrev pub SentRedirected : Clim → ℕ → Cmd Rest → Str → Cluster → List Effect → Type 0
  SentRedirected clim r cmd orig c es =
      ((rewrite_notify c.dnrelay (c.members r) cmd orig ≡ given_up) × (es ≡ []))
      ⊎ ((cmd' : Cmd Rest) × (orig' : Str) × (rewrite_notify c.dnrelay (c.members r) cmd orig
            ≡ passed cmd' orig')
          × Sent (down clim cmd' r) r cmd'.kind orig' c es)

  pub forward-Sent :
      (callback : Callback) (r kind : ℕ) (orig : Str) (c : Cluster)
      → (es : List Effect) × (forward callback r kind orig c ≡ some (c, es))
        × Sent callback r kind orig c es
  unfolding forward
  forward-Sent callback r kind orig c =
      elim (Option-cases (member_command kind orig (c.members r))) [
        | inl e ↦ ([], rw (e, forward), inl (e, refl))
        | inr (out, e) ↦ (command r out callback ∷ [], rw (e, forward), inr (out, e, refl))
      ]

  pub notify_SentRedirected :
      (clim : Clim) (r : ℕ) (cmd : Cmd Rest) (orig : Str) (c : Cluster)
      → (es : List Effect) × (notify_and_forward clim r cmd orig c ≡ some (c, es))
        × SentRedirected clim r cmd orig c es
  unfolding notify_and_forward
  notify_SentRedirected clim r cmd orig c =
      go (rewrite_notify c.dnrelay (c.members r) cmd orig) refl
    where
      go :
          (n : Notified)
          → rewrite_notify c.dnrelay (c.members r) cmd orig ≡ n
          → (es : List Effect) × (notify_and_forward clim r cmd orig c ≡ some (c, es))
            × SentRedirected clim r cmd orig c es
      go given_up e = ([], rw (e, notify_and_forward), inl (e, refl))
      go (passed cmd' orig') e =
          let (es, f, s) = forward-Sent (down clim cmd' r) r cmd'.kind orig' c in
          (es, rw (e, notify_and_forward) f, inr (cmd', orig', e, s))
