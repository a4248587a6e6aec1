-- ===== src/System/Spreading.antt =====
-- What a broadcast leaves behind.
use go_rtp_cluster.Base.{
  All, ◌≢◌, ◌<◌, length-replicate, ℕ, suc, ◌+◌, ◌≤◌, ◌≡◌, refl, Bool, Option, none, some, List, [],
  ◌∷◌, ◌++◌, Str, arith, ◌==◌, nat_eq, str_eq, if◌then◌else◌, length, keep_if, pos, Option-cases,
  inl, inr,
}
use go_rtp_cluster.Externals.{Externals, Cmd}
use go_rtp_cluster.Member.{Member}
use go_rtp_cluster.Cluster.{Cluster, Clim, Effect, Callback, merge, merge_stats, put_broadcast}
use go_rtp_cluster.Command.Broadcasts.{
  online, member_command, send_each, broadcast, broadcast_stats, new_broadcaster, made_results,
}
use go_rtp_cluster.Command.Dispatch.{}
use go_rtp_cluster.System.{sent}
use go_rtp_cluster.System.Quiet.{same-Calm}
use go_rtp_cluster.System.Handled.{
  Fit, direct, parts, direct-append, parts-append, Handled, spread, Handles,
}

module _ ⦃E : Externals⦄ where
  open E use {Rest, Stats}

  -- What is sent to the members of a list, counted by a function that adds up over lists.
  module _ (text : Member → Option Str) (callback : Callback) (members : ℕ → Member) where
    module _ (count : List Callback → ℕ)
        (add : (vs ws : List Callback) → count (vs ++ ws) ≡ count vs + count ws) where
      none_sent :
          count [] ≡ 0
          → count (callback ∷ []) ≡ 0
          → (last : Option ℕ) (rs : List ℕ)
          → count (sent (send_each text callback members last rs).0) ≡ 0
      unfolding send_each
      none_sent z h last [] = z
      none_sent z h last (r ∷ rs) = elim (Option-cases (text (members r))) [
        | inl e ↦ rw (e, send_each) z
        | inr (out, e) ↦
            rw (e, send_each)
              (omega (
                arith,
                h,
                none_sent z h (some r) rs,
                add (callback ∷ []) (sent (send_each text callback members (some r) rs).0),
              ))
      ]

      few_sent :
          count [] ≡ 0
          → count (callback ∷ []) ≤ 1
          → (last : Option ℕ) (rs : List ℕ)
          → count (sent (send_each text callback members last rs).0) ≤ length rs
      unfolding send_each
      few_sent z h last [] = omega (arith, z)
      few_sent z h last (r ∷ rs) = elim (Option-cases (text (members r))) [
        | inl e ↦ rw (e, send_each) (omega (arith, z))
        | inr (out, e) ↦
            rw (e, send_each)
              (omega (
                arith,
                h,
                few_sent z h (some r) rs,
                add (callback ∷ []) (sent (send_each text callback members (some r) rs).0),
              ))
      ]

  -- All that is sent waits with the same function, and where something is sent there is a member.
  module _ (text : Member → Option Str) (callback : Callback) (members : ℕ → Member) where
    all_sent :
        (P : Callback → Type 0)
        → P callback
        → (last : Option ℕ) (rs : List ℕ) → All P (sent (send_each text callback members last rs).0)
    unfolding send_each
    all_sent P h last [] = tt
    all_sent P h last (r ∷ rs) = elim (Option-cases (text (members r))) [
      | inl e ↦ rw (e, send_each) tt
      | inr (out, e) ↦ rw (e, send_each) (h, all_sent P h (some r) rs)
    ]

    last-ne-none :
        (last : Option ℕ) (rs : List ℕ)
        → last ≢ none
        → (send_each text callback members last rs).1 ≢ none
    unfolding send_each
    last-ne-none last [] h = h
    last-ne-none last (r ∷ rs) h = elim (Option-cases (text (members r))) [
      | inl e ↦ rw (e, send_each) (λ f. cc)
      | inr (out, e) ↦ rw (e, send_each) (last-ne-none (some r) rs (λ f. cc))
    ]

    fit_sent :
        (P : Option ℕ → Callback → Type 0)
        → ((last : Option ℕ) → last ≢ none → P last callback)
        → (rs : List ℕ)
        → All
            (P (send_each text callback members none rs).1)
            (sent (send_each text callback members none rs).0)
    unfolding send_each
    fit_sent P h [] = tt
    fit_sent P h (r ∷ rs) =
        all_sent (P (send_each text callback members none (r ∷ rs)).1)
          (h _ (last-ne-none (some r) (r ∷ rs) (λ f. cc))) none (r ∷ rs)

  length-keep_if : (p : ℕ → Bool) (rs : List ℕ) → length (keep_if p rs) ≤ length rs
  length-keep_if p [] = omega arith
  length-keep_if p (r ∷ rs) = ground (arith, length-keep_if p rs)

  -- A new broadcast under the next number, whose callbacks are of one kind.
  module _ (clim : Clim) (cmd : Cmd Rest) (sobj : Option Stats) (text : Member → Option Str)
      (callback : Callback) (c : Cluster) where
    abbrev opening : Option ℕ → Cluster
    opening last =
        put_broadcast c.next_broadcast
          (new_broadcaster (pos (length (online c))) clim cmd sobj last)
          (record c { next_broadcast = suc c.next_broadcast })

    abbrev opened : Cluster × List Effect
    opened =
        let (es, last) = send_each text callback c.members none (online c) in (opening last, es)

    opened_Handled :
        ((j : Str) → direct j (callback ∷ []) ≡ 0)
        → ((b : ℕ) → parts b (callback ∷ []) ≡ (if c.next_broadcast == b then 1 else 0))
        → ((last : Option ℕ) → last ≢ none → Fit (opening last) callback)
        → Handled clim c opened.0 (sent opened.1)
    unfolding put_broadcast new_broadcaster
    opened_Handled h k fit = spread (record {
      calm = same-Calm _ _ refl refl refl refl;
      flight = refl;
      next_book = refl;
      others = λ b n. ground (arith, n);
      sender = ground arith;
      size = length (online c);
      counted = ground arith;
      bounded = length-keep_if _ c.active;
      fits = fit_sent text callback c.members (λ last. Fit (opening last)) fit (online c);
      no_direct = λ j.
          none_sent text callback c.members (direct j) (direct-append j) refl (h j) none (online c);
      few_parts =
          few_sent text callback c.members (parts c.next_broadcast) (parts-append c.next_broadcast)
            refl (ground (arith, k c.next_broadcast)) none (online c);
      no_others = λ b n.
          none_sent text callback c.members (parts b) (parts-append b) refl (ground (arith, k b, n))
            none (online c);
    })

  many_results : 1 < length made_results
  unfolding made_results
  many_results = omega (arith, length-replicate {A = Str} 1000 [])

  pub broadcast-Handles :
      (clim : Clim) (cmd : Cmd Rest) (orig : Str) (c : Cluster)
      → Handles clim c (broadcast clim cmd orig c)
  unfolding broadcast put_broadcast new_broadcaster
  broadcast-Handles clim cmd orig c =
      opened_Handled clim cmd none (member_command cmd.kind orig) (merge c.next_broadcast) c
        (λ j. refl) (λ b. omega arith) (λ last h. ground (arith, h, many_results))

  pub broadcast_stats-Handles :
      (clim : Clim) (cmd : Cmd Rest) (sobj : Stats) (c : Cluster)
      → cmd.kind ≡ b'G'
      → Handles clim c (broadcast_stats clim cmd sobj c)
  unfolding broadcast_stats put_broadcast new_broadcaster
  broadcast_stats-Handles clim cmd sobj c g =
      opened_Handled clim cmd (some sobj) (λ _. some (E.cmd_string cmd))
        (merge_stats c.next_broadcast) c (λ j. refl) (λ b. omega arith)
        (λ last h. ground (arith, h, g))
