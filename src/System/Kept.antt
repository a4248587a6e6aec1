-- ===== src/System/Kept.antt =====
-- The invariants of a running cluster, over any history.
use mathlib.Core.Option.{none-ne-some, some-injective}
use go_rtp_cluster.Base.{
  ℕ, suc, ◌+◌, ◌<◌, ◌^◌, ◌≡◌, refl, none, some, List, [], ◌∷◌, arith, nat_eq, str_eq, get_elem?,
  length, Option-cases, inl, inr,
}
use go_rtp_cluster.Externals.{Externals, IsClient}
use go_rtp_cluster.Cluster.{Cluster, Callback}
use go_rtp_cluster.Cluster.Invariant.{Inv}
use go_rtp_cluster.Cluster.Invariant.History.{step, step-Inv}
use go_rtp_cluster.Command.{Outcome}
use go_rtp_cluster.Command.Udp.{rcache_purge}
use go_rtp_cluster.System.{
  System, Happening, datagram, line, answered, member_event, purged, remove_at, then_wait, happen,
  happen_all,
}
use go_rtp_cluster.System.Quiet.{same-Calm, Calm-Inv}
use go_rtp_cluster.System.Handled.{}
use go_rtp_cluster.System.Outstanding.{Tracked, Tracked-same}
use go_rtp_cluster.System.Outstanding.Answered.{}
use go_rtp_cluster.System.Aside.{step-Aside}
use go_rtp_cluster.System.Sound.{Sound, After, SoundOr, line_After, datagram_After, deliver-After}

module _ ⦃E : Externals⦄ where
  Sound-more : (bound : ℕ) (s : System) → Sound bound s → Sound (suc bound) s
  Sound-more bound s v = record { lists = v.lists; tracked = v.tracked; few = omega (arith, v.few) }

  SoundOr-more :
      (bound : ℕ) (ws : List Callback) (o : Outcome)
      → After bound ws o
      → SoundOr (suc bound) (then_wait ws o)
  SoundOr-more bound ws none h = tt
  SoundOr-more bound ws (some (d, es)) h = Sound-more bound _ h

  happen-Sound :
      IsClient E
      → (bound : ℕ) (h : Happening) (s : System) → bound < 2 ^ 63
      → Sound bound s
      → SoundOr (suc bound) (happen h s)
  unfolding happen rcache_purge
  happen-Sound client bound (datagram rand text address) s small v =
      SoundOr-more bound s.waiting _
        (datagram_After bound s.cluster s.waiting v small rand text address)
  happen-Sound client bound (line rand k text) s small v =
      SoundOr-more bound s.waiting _ (line_After bound s.cluster s.waiting v small rand k text)
  happen-Sound client bound (answered i result) s small v =
      elim (Option-cases (get_elem? s.waiting i)) [
        | inl e ↦ rw (happen, e) (Sound-more bound s v)
        | inr (w, e) ↦
            rw (happen, e)
              (SoundOr-more bound (remove_at i s.waiting) _
                (deliver-After bound s.cluster s.waiting v small i w result e))
      ]
  happen-Sound client bound (member_event e) s small v =
      let (f, b, n, m) = step-Aside e s.cluster in
      record {
        lists = step-Inv client e s.cluster v.lists;
        tracked = Tracked-same s.cluster (step e s.cluster) s.waiting f b n v.tracked;
        few = omega (arith, m, v.few);
      }
  happen-Sound client bound purged s small v = record {
    lists = Calm-Inv s.cluster (rcache_purge s.cluster) (same-Calm _ _ refl refl refl refl) v.lists;
    tracked = Tracked-same s.cluster (rcache_purge s.cluster) s.waiting refl refl refl v.tracked;
    few = omega (arith, v.few);
  }

  happen_all-Sound :
      IsClient E
      → (bound : ℕ) (hs : List Happening) (s t : System) → bound + length hs < 2 ^ 63
      → Sound bound s
      → happen_all hs s ≡ some t
      → Inv t.cluster × Tracked t.cluster t.waiting
  unfolding happen_all
  happen_all-Sound client bound [] s t small v e = rw (← some-injective _ _ e) (v.lists, v.tracked)
  happen_all-Sound client bound (h ∷ hs) s t small v e = elim (Option-cases (happen h s)) [
    | inl f ↦ absurd (none-ne-some _ (rw (happen_all, f) at e))
    | inr (u, f) ↦
        happen_all-Sound client (suc bound) hs u t (omega (arith, small))
          (rw f at (happen-Sound client bound h s (omega (arith, small)) v))
          (rw (happen_all, f) at e)
  ]

  nothing_Tracked : (c : Cluster) → Tracked c []
  nothing_Tracked c = record {
    once = λ j. omega arith;
    flies = λ b j p. absurd (omega (arith, p));
    apart = λ a b j n p. absurd (omega (arith, p));
    known = λ b p. absurd (omega (arith, p));
    expected = λ b p. absurd (omega (arith, p));
  }

  -- From a cluster whose lists are in order and in which nothing is waited for, with clients that
  -- are offline after `GoOffline`, stay online over `GoOnline` and are not changed in this by
  -- `UpdateActive`, and fewer than 2^63 members and happenings in all: after any commands, answers
  -- of the members in any order, changes of the members and purges of the cache, of which none
  -- panics, at most one answer is outstanding for the cookie of a datagram, and then its command is
  -- in flight. It is to come from one member, or from one broadcast, and a broadcast waits for no
  -- more answers than it still expects.
  pub happen_all-Tracked :
      IsClient E
      → (hs : List Happening) (c : Cluster) (t : System) → c.next + length hs < 2 ^ 63
      → Inv c
      → happen_all hs (record { cluster = c; waiting = [] }) ≡ some t
      → Tracked t.cluster t.waiting
  happen_all-Tracked client hs c t small lists e =
      (happen_all-Sound client c.next hs (record { cluster = c; waiting = [] }) t small
        (record { lists = lists; tracked = nothing_Tracked c; few = omega arith }) e).1
