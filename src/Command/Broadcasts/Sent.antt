-- ===== src/Command/Broadcasts/Sent.antt =====
-- The sending of a broadcast, and its end.
use go_rtp_cluster.Base.{
  ℕ, suc, ◌^◌, ◌≤◌, ◌<◌, ◌≡◌, refl, ◌∙◌, ap, Option, none, some, List, [], ◌∷◌, ◌++◌, pos, Str,
  arith, nat_eq, length, length-replicate, map,
}
use go_rtp_cluster.Externals.{Externals, Cmd}
use go_rtp_cluster.Member.{Member}
use go_rtp_cluster.Cluster.{
  Cluster, Broadcast, Clim, Effect, Callback, command, merge, put_broadcast,
}
use go_rtp_cluster.Command.{Outcome}
use go_rtp_cluster.Command.Reply.{send_clim, close_clim}
use go_rtp_cluster.Command.Broadcasts.{
  new_broadcaster, made_results, online, member_command, send_each, broadcast, next_id,
}
use go_rtp_cluster.Command.Broadcasts.Merging.{Waits, verdict, merge_each, merge_each_lem}

-- The last value of the shared variable.
abbrev pub last_of : ℕ → List ℕ → ℕ
last_of r [] = r
last_of r (q ∷ qs) = last_of q qs

module _ ⦃E : Externals⦄ where
  open E use {Rest}

  -- If every text can be made, one command goes to each member, in the order of the list, and the
  -- variable that the callbacks share ends as the last member.
  pub send_each_lem :
      (text : Member → Option Str) (out : ℕ → Str) (callback : Callback) (members : ℕ → Member)
      → ((r : ℕ) → text (members r) ≡ some (out r))
      → (r : ℕ) (rs : List ℕ) (var : Option ℕ)
      → send_each text callback members var (r ∷ rs)
        ≡ (map (λ q. command q (out q) callback) (r ∷ rs), some (last_of r rs))
  unfolding send_each
  send_each_lem text out callback members h r [] var = ground (arith, h r)
  send_each_lem text out callback members h r (q ∷ rs) var =
      ground (arith, h r, send_each_lem text out callback members h q rs (some r))

  made_full : 1000 ≤ length made_results
  unfolding made_results
  made_full = omega (arith, length-replicate {A = Str} 1000 [])

  module _ (clim : Clim) (cmd : Cmd Rest) (c : Cluster) (r : ℕ) (rs : List ℕ) where
    made : Broadcast
    made = new_broadcaster (pos (length (r ∷ rs))) clim cmd none (some (last_of r rs))

    begun : Cluster
    begun = put_broadcast c.next_broadcast made (next_id c)

    begun-Waits : Waits (suc (length rs)) c.next_broadcast (last_of r rs) made begun
    unfolding begun made new_broadcaster put_broadcast
    begun-Waits = record {
      count = ground arith;
      full = ground (arith, made_full);
      var = ground arith;
      clim = ground arith;
      cmd = ground arith;
    }

    begun_frame : begun.members ≡ c.members
    unfolding begun put_broadcast
    begun_frame = refl

  -- A broadcast to one or more online members, fewer than 2^63, for each of which the text of the
  -- command can be made, sends it once to each of them, in the order of the active list. Whatever
  -- they answer, the sender gets 0 for a U or L command and E995 for another, once all have
  -- answered, and no member comes to know the call.
  pub broadcast_lem :
      (clim : Clim) (cmd : Cmd Rest) (orig : Str) (out : ℕ → Str) (c : Cluster) (r : ℕ)
      (rs : List ℕ) (a : Str) (answers : List Str)
      → online c ≡ r ∷ rs
      → ((q : ℕ) → member_command cmd.kind orig (c.members q) ≡ some (out q))
      → length answers ≡ length rs
      → suc (length rs) < 2 ^ 63
      → (d e : Cluster) × (broadcast clim cmd orig c
          ≡ some (d, map (λ q. command q (out q) (merge c.next_broadcast)) (r ∷ rs)))
        × (merge_each c.next_broadcast (a ∷ answers) d
            ≡ some (e, send_clim clim (verdict cmd ++ 10 ∷ []) ++ close_clim clim))
        × (e.members ≡ c.members)
  unfolding broadcast begun made new_broadcaster
  broadcast_lem clim cmd orig out c r rs a answers some_online texts as_many small = (
    begun clim cmd c r rs,
    ended.0,
    ap (λ (qs : List ℕ). outcome (length qs) (sent qs)) some_online
        ∙ ap (outcome (length (r ∷ rs))) (
            send_each_lem (member_command cmd.kind orig) out (merge c.next_broadcast) c.members
              texts r rs none),
    ended.1,
    ended.2 ∙ begun_frame clim cmd c r rs,
  )
    where
      sent : List ℕ → List Effect × Option ℕ
      sent = send_each (member_command cmd.kind orig) (merge c.next_broadcast) c.members none

      outcome : ℕ → List Effect × Option ℕ → Outcome
      outcome n q = some (
        put_broadcast c.next_broadcast (new_broadcaster (pos n) clim cmd none q.1) (next_id c),
        q.0,
      )

      ended :
          (e : Cluster) × (merge_each c.next_broadcast (a ∷ answers) (begun clim cmd c r rs)
            ≡ some (e, send_clim clim (verdict cmd ++ 10 ∷ []) ++ close_clim clim))
          × (e.members ≡ (begun clim cmd c r rs).members)
      ended =
          merge_each_lem c.next_broadcast (last_of r rs) (made clim cmd c r rs) a answers
            (begun clim cmd c r rs) (rw as_many small) (rw as_many (begun-Waits clim cmd c r rs))
