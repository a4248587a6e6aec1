-- ===== src/System/Outstanding/Answered.antt =====
-- One of the functions that wait gets its answer, or a new command comes in.
use mathlib.Core.Option.{none-ne-some, some-injective}
use go_rtp_cluster.Base.{
  ℕ, zero, suc, ◌+◌, ◌≤◌, ◌<◌, ◌^◌, ◌≡◌, refl, ◌≢◌, ap, true, false, some, List, [], ◌∷◌, ◌++◌, pos,
  dec64, ltb_ℤ, Str, arith, ◌==◌, nat_eq, str_eq, if◌then◌else◌, get_elem?, ℕ_discrete, sym, ◌∙◌,
  str_dec,
}
use go_rtp_cluster.Base.Int.{dec64-suc}
use go_rtp_cluster.Base.Dict.{has, insert, has-insert}
use go_rtp_cluster.Externals.{Externals, Cmd}
use go_rtp_cluster.Cluster.{Cluster, Clim, udp, Callback, down}
use go_rtp_cluster.System.{remove_at}
use go_rtp_cluster.System.Handled.{claim, direct, parts, direct-append, parts-append, Idle, Settled}
use go_rtp_cluster.System.Counting.{Counted, Collected, waits, completes}
use go_rtp_cluster.System.Outstanding.{
  Tracked, Free, Flies, claim-01, Settled-Tracked, fewer_Tracked, Idle-Tracked,
}

module _ ⦃E : Externals⦄ where
  open E use {Rest}

  -- What is left of a count when one function is taken out.
  count-remove_at :
      (count : List Callback → ℕ)
      → ((vs ws : List Callback) → count (vs ++ ws) ≡ count vs + count ws)
      → (i : ℕ) (w : Callback) (ws : List Callback) → get_elem? ws i ≡ some w
      → count ws ≡ count (w ∷ []) + count (remove_at i ws)
  count-remove_at count add i w [] e = absurd (none-ne-some _ e)
  count-remove_at count add zero w (x ∷ ws) e = rw (← some-injective _ _ e) (add (x ∷ []) ws)
  count-remove_at count add (suc i) w (x ∷ ws) e =
      omega
        (arith, add (x ∷ []) ws, add (x ∷ []) (remove_at i ws), count-remove_at count add i w ws e)

  -- An answer of a broadcast is counted, of which `rest` is what is waited for then.
  module _ (b : ℕ) (c d : Cluster) (ws rest : List Callback) (v : Tracked c ws) (k : Counted b c d)
      (less : (j : Str) → direct j ws ≡ direct j rest) (one : parts b ws ≡ 1 + parts b rest)
      (same : (a : ℕ) → a ≢ b → parts a ws ≡ parts a rest) where
    sender_kept : (a : ℕ) (j : Str) → claim (d.broadcasts a).clim j ≡ claim (c.broadcasts a).clim j
    sender_kept a j = elim (ℕ_discrete a b) [
      | yes e ↦ ground (arith, e, k.sender)
      | no n ↦ ground (arith, k.others a n)
    ]

    weakly : (a : ℕ) → parts a rest ≤ parts a ws
    weakly a = elim (ℕ_discrete a b) [
      | yes e ↦ rw e (omega (arith, one))
      | no n ↦ omega (arith, same a n)
    ]

    -- The number of answers that are still expected.
    left : (n : ℕ) × ((d.broadcasts b).bcount ≡ pos n) × (parts b rest ≤ n) × (n < 2 ^ 63)
    left =
        let (n, e, f, g) = v.expected b (omega (arith, one)) in
        elim n
            as (λ n.
              (c.broadcasts b).bcount ≡ pos n
              → parts b ws ≤ n
              → n < 2 ^ 63
              → (m : ℕ) × ((d.broadcasts b).bcount ≡ pos m) × (parts b rest ≤ m) × (m < 2 ^ 63)) [
                | zero ↦ λ e f g. absurd (omega (arith, one, f))
                | suc m ↦ λ e f g. (
                  m,
                  k.fewer ∙ ap dec64 e ∙ dec64-suc m g,
                  omega (arith, one, f),
                  omega (arith, g),
                )
              ]
          e f g

    counted_Tracked : Tracked d rest
    counted_Tracked = record {
      once = λ j. ground (arith, k.flight, less j, v.once j);
      flies =
          λ a j p q. ground (arith, k.flight, less j, weakly a, sender_kept a j, v.flies a j, p, q);
      apart = λ a e j n p q r.
          ground
            (arith, weakly a, weakly e, sender_kept a j, sender_kept e j, v.apart a e j n, p, q, r);
      known = λ a p. omega (arith, k.next_book, weakly a, v.known a, p);
      expected = λ a p. elim (ℕ_discrete a b) [
        | yes e ↦ rw e left
        | no n ↦ ground (arith, same a n, k.others a n, v.expected a, p)
      ];
    }

    -- The last answer leaves nothing outstanding for the sender.
    completed_Free :
        ltb_ℤ (pos 0) (dec64 (c.broadcasts b).bcount) ≡ false → Free (c.broadcasts b).clim d rest
    completed_Free h = record {
      no_direct = λ j q. ground (arith, v.flies b j (omega (arith, one)) q, less j);
      no_parts = λ a j q p. elim (ℕ_discrete a b) [
        | yes e ↦ absurd (omega (arith, none_left, rw e at p))
        | no n ↦
            ground (arith, sender_kept a j, v.apart b a j (λ e. n (sym e)), one, weakly a, q, p)
      ];
    }
      where
        none_left : parts b rest ≡ 0
        none_left = ground (arith, h, left, k.fewer)

  module _ (i : ℕ) (w : Callback) (c : Cluster) (ws : List Callback) (v : Tracked c ws)
      (e : get_elem? ws i ≡ some w) where
    directly : (j : Str) → direct j ws ≡ direct j (w ∷ []) + direct j (remove_at i ws)
    directly j = count-remove_at (direct j) (direct-append j) i w ws e

    partly : (b : ℕ) → parts b ws ≡ parts b (w ∷ []) + parts b (remove_at i ws)
    partly b = count-remove_at (parts b) (parts-append b) i w ws e

    pub removed_Tracked : Tracked c (remove_at i ws)
    removed_Tracked =
        fewer_Tracked c (remove_at i ws) ws (λ j. omega (arith, directly j))
          (λ b. omega (arith, partly b)) v

    -- The function that sends the only answer to a sender.
    pub down_Free :
        (clim : Clim) (cmd : Cmd Rest) (r : ℕ) → w ≡ down clim cmd r → Free clim c (remove_at i ws)
    down_Free clim cmd r f = record {
      no_direct = λ j q. ground (arith, rw f at (directly j), v.once j, q);
      no_parts = λ b j q p. ground (
        arith,
        rw f at (directly j),
        claim-01 (c.broadcasts b).clim j,
        v.flies b j,
        partly b,
        q,
        p,
      );
    }

  -- The answer to a sender, and that of a member of a broadcast.
  pub remove_at-Settled :
      (clim : Clim) (cmd : Cmd Rest) (r i : ℕ) (c d : Cluster) (ws vs : List Callback)
      → Tracked c ws
      → get_elem? ws i ≡ some (down clim cmd r)
      → Settled clim c d
      → Idle vs
      → Tracked d (remove_at i ws ++ vs)
  remove_at-Settled clim cmd r i c d ws vs v e k idle = Idle-Tracked d (remove_at i ws) vs idle (
      Settled-Tracked clim c d (remove_at i ws) (down_Free i _ c ws v e clim cmd r refl) k
        (removed_Tracked i _ c ws v e))

  pub remove_at-Collected :
      (b i : ℕ) (w : Callback) (c d : Cluster) (ws vs : List Callback)
      → ((j : Str) → direct j (w ∷ []) ≡ 0)
      → ((a : ℕ) → parts a (w ∷ []) ≡ (if b == a then 1 else 0))
      → Tracked c ws
      → get_elem? ws i ≡ some w
      → Collected b c d vs
      → Tracked d (remove_at i ws ++ vs)
  remove_at-Collected b i w c d ws vs f g v e collected = go collected
    where
      less : (j : Str) → direct j ws ≡ direct j (remove_at i ws)
      less j = omega (arith, f j, directly i w c ws v e j)

      one : parts b ws ≡ 1 + parts b (remove_at i ws)
      one = ground (arith, g b, partly i w c ws v e b)

      same : (a : ℕ) → a ≢ b → parts a ws ≡ parts a (remove_at i ws)
      same a n = ground (arith, g a, n, partly i w c ws v e a)

      go : Collected b c d vs → Tracked d (remove_at i ws ++ vs)
      go (waits k h idle) =
          Idle-Tracked d (remove_at i ws) vs idle
            (counted_Tracked b c d ws (remove_at i ws) v k less one same)
      go (completes m k h s idle) = Idle-Tracked d (remove_at i ws) vs idle (
          Settled-Tracked (c.broadcasts b).clim m d (remove_at i ws)
            (completed_Free b c m ws (remove_at i ws) v k less one same h) s
            (counted_Tracked b c m ws (remove_at i ws) v k less one same))

  -- A datagram whose cookie is not in flight.
  module _ (k address : Str) (c : Cluster) (ws : List Callback) (v : Tracked c ws) where
    abbrev pub flown : Cluster
    flown = record c { commands_inflight = insert k true c.commands_inflight }

    pub flown-Tracked : Tracked flown ws
    flown-Tracked = record {
      once = λ j. ground (arith, has-insert j k true c.commands_inflight, v.once j);
      flies = λ b j p q. ground (arith, has-insert j k true c.commands_inflight, v.flies b j p q);
      apart = v.apart;
      known = v.known;
      expected = v.expected;
    }

    pub flown-Free : has k c.commands_inflight ≡ false → Free (udp k address) flown ws
    flown-Free h = record {
      no_direct = λ j q. ground (arith, str_dec k j, v.once j, h, q);
      no_parts = λ b j q p. ground (arith, claim-01 (c.broadcasts b).clim j, v.flies b j, h, q, p);
    }

    pub flown-Flies : Flies (udp k address) flown
    flown-Flies j q = ground (arith, has-insert j k true c.commands_inflight, q)
