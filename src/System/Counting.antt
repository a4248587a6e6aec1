-- ===== src/System/Counting.antt =====
-- How the answers of a broadcast are counted off, and what the last one leaves behind.
use go_rtp_cluster.Base.{
  ◌<◌, length, ℕ_discrete, ℕ, ◌≡◌, ◌≢◌, true, false, none, some, List, pos, dec64, ltb_ℤ, arith,
  nat_eq, str_eq,
}
use go_rtp_cluster.Externals.{Externals}
use go_rtp_cluster.Cluster.{
  down, ignore, merge, merge_stats, Cluster, Broadcast, Clim, Callback, put_broadcast,
}
use go_rtp_cluster.Command.{Outcome}
use go_rtp_cluster.Command.Broadcasts.{}
use go_rtp_cluster.System.{sent}
use go_rtp_cluster.System.Quiet.{Calm, Calm-trans, Quiet}
use go_rtp_cluster.System.Handled.{Fit, Idle, Settled, Settles}

module _ ⦃E : Externals⦄ where
  open E use {Rest, Stats}

  -- What an answer leaves of a broadcast.
  pub record Follows (old new : Broadcast) : Type 0 where
    pub clim : new.clim ≡ old.clim
    pub cmd : new.cmd ≡ old.cmd
    pub rtpp : new.rtpp ≡ old.rtpp
    pub sobj : old.sobj ≢ none → new.sobj ≢ none
    pub results : 1 < length old.results → 1 < length new.results

  -- One answer fewer is expected for the broadcast.
  pub record Counted (b : ℕ) (c d : Cluster) : Type 0 where
    pub calm : Calm c d
    pub flight : d.commands_inflight ≡ c.commands_inflight
    pub next_book : d.next_broadcast ≡ c.next_broadcast
    pub others : (a : ℕ) → a ≢ b → d.broadcasts a ≡ c.broadcasts a
    pub sender : (d.broadcasts b).clim ≡ (c.broadcasts b).clim
    pub fewer : (d.broadcasts b).bcount ≡ dec64 (c.broadcasts b).bcount
    pub fits : (w : Callback) → Fit c w → Fit d w

  pub data Collected (b : ℕ) (c d : Cluster) (ws : List Callback) : Type 0 where
    waits :
        Counted b c d
        → ltb_ℤ (pos 0) (dec64 (c.broadcasts b).bcount) ≡ true
        → Idle ws
        → Collected b c d ws
    completes :
        (m : Cluster)
        → Counted b c m
        → ltb_ℤ (pos 0) (dec64 (c.broadcasts b).bcount) ≡ false
        → Settled (c.broadcasts b).clim m d
        → Idle ws
        → Collected b c d ws

  abbrev pub Collects : ℕ → Cluster → Outcome → Type 0
  Collects b c none = Unit
  Collects b c (some (d, es)) = Collected b c d (sent es)

  pub complete :
      (b : ℕ) (c m : Cluster) (clim : Clim) (o : Outcome)
      → Counted b c m
      → ltb_ℤ (pos 0) (dec64 (c.broadcasts b).bcount) ≡ false
      → clim ≡ (c.broadcasts b).clim
      → Settles clim m o
      → Collects b c o
  complete b c m clim none k f e h = tt
  complete b c m clim (some (d, es)) k f e h = completes m k f (rw e at h.0) h.1

  put_broadcast-Fit :
      (b : ℕ) (br : Broadcast) (c d : Cluster)
      → Quiet c d
      → Follows (c.broadcasts b) br
      → (w : Callback) → Fit c w
      → Fit (put_broadcast b br d) w
  unfolding put_broadcast
  put_broadcast-Fit b br c d q f (down clim cmd r) h = tt
  put_broadcast-Fit b br c d q f (ignore r) h = tt
  put_broadcast-Fit b br c d q f (merge a) h = elim (ℕ_discrete b a) [
    | yes e ↦ ground (arith, e, f.rtpp, f.results, q.next_book, h)
    | no n ↦ ground (arith, n, q.books, q.next_book, h)
  ]
  put_broadcast-Fit b br c d q f (merge_stats a) h = elim (ℕ_discrete b a) [
    | yes e ↦ ground (arith, e, f.rtpp, f.sobj, f.cmd, q.next_book, h)
    | no n ↦ ground (arith, n, q.books, q.next_book, h)
  ]

  pub put_broadcast-Counted :
      (b : ℕ) (br : Broadcast) (c d : Cluster)
      → Quiet c d
      → Follows (c.broadcasts b) br
      → br.bcount ≡ dec64 (c.broadcasts b).bcount
      → Counted b c (put_broadcast b br d)
  unfolding put_broadcast
  put_broadcast-Counted b br c d q e f = record {
    calm = record {
      active = q.calm.active;
      pending = q.calm.pending;
      next = q.calm.next;
      up = q.calm.up;
      wired = q.calm.wired;
      clean = λ v. record { filled = (q.calm.clean v).filled };
    };
    flight = q.flight;
    next_book = q.next_book;
    others = λ a n. ground (arith, n, q.books);
    sender = ground (arith, e.clim);
    fits = λ w. put_broadcast-Fit b br c d q e w;
    fewer = ground (arith, f);
  }

  pub Collected-Calm : (b : ℕ) (c d : Cluster) (ws : List Callback) → Collected b c d ws → Calm c d
  Collected-Calm b c d ws (waits k h i) = k.calm
  Collected-Calm b c d ws (completes m k h s i) = Calm-trans c m d k.calm s.calm
