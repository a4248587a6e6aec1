-- ===== src/System/Outstanding.antt =====
-- What is outstanding for a command: the functions that wait for an answer to give it to the
-- sender, and the broadcasts that wait for more.
pub mod Answered
use go_rtp_cluster.Base.{
  ℕ, zero, suc, ◌+◌, ◌≤◌, ◌<◌, ◌^◌, ◌⊎◌, inl, inr, ◌≡◌, refl, ◌≢◌, ap, Bool, true, false, Option,
  none, some, List, [], ◌∷◌, ◌++◌, ℤ, pos, dec64, ltb_ℤ, Str, arith, ◌==◌, nat_eq, str_eq,
  if◌then◌else◌, if_cases, get_elem?, ℕ_discrete, sym, ◌∙◌, length, ltb,
}
use go_rtp_cluster.Base.Int.{dec64-suc}
use go_rtp_cluster.Base.Dict.{has, insert, has-insert}
use go_rtp_cluster.Externals.{Externals, Cmd}
use go_rtp_cluster.Cluster.{
  Cluster, Broadcast, Clim, udp, unix, Callback, down, ignore, merge, merge_stats,
}
use go_rtp_cluster.System.{remove_at}
use go_rtp_cluster.System.Quiet.{Quiet}
use go_rtp_cluster.System.Handled.{
  claim, direct, parts, direct-append, parts-append, Idle, Asks, Settled, Spreads, Handled, settled,
  asked, spread,
}
use go_rtp_cluster.System.Counting.{Counted}

module _ ⦃E : Externals⦄ where
  open E use {Rest}

  -- At most one answer is outstanding for a cookie, and then its command is in flight: from one
  -- member, or from one broadcast, which expects as many answers as are waited for at least.
  pub record Tracked (c : Cluster) (ws : List Callback) : Type 0 where
    pub once : (j : Str) → direct j ws ≤ (if has j c.commands_inflight then 1 else 0)
    pub flies :
        (b : ℕ) (j : Str)
        → 0 < parts b ws
        → claim (c.broadcasts b).clim j ≡ 1
        → (has j c.commands_inflight ≡ true) × (direct j ws ≡ 0)
    pub apart :
        (a b : ℕ) (j : Str)
        → a ≢ b
        → 0 < parts a ws
        → 0 < parts b ws
        → claim (c.broadcasts a).clim j ≡ 1
        → claim (c.broadcasts b).clim j ≡ 0
    pub known : (b : ℕ) → 0 < parts b ws → b < c.next_broadcast
    pub expected :
        (b : ℕ)
        → 0 < parts b ws
        → (n : ℕ) × ((c.broadcasts b).bcount ≡ pos n) × (parts b ws ≤ n) × (n < 2 ^ 63)

  -- Nothing is outstanding for the sender.
  pub record Free (clim : Clim) (c : Cluster) (ws : List Callback) : Type 0 where
    pub no_direct : (j : Str) → claim clim j ≡ 1 → direct j ws ≡ 0
    pub no_parts :
        (b : ℕ) (j : Str) → claim clim j ≡ 1 → 0 < parts b ws → claim (c.broadcasts b).clim j ≡ 0

  abbrev pub Flies : Clim → Cluster → Type 0
  Flies clim c = (j : Str) → claim clim j ≡ 1 → has j c.commands_inflight ≡ true

  pub claim-01 : (clim : Clim) (j : Str) → (claim clim j ≡ 0) ⊎ (claim clim j ≡ 1)
  claim-01 (udp k address) j = ground arith
  claim-01 (unix k) j = inl refl

  -- Only the commands in flight and the broadcasts count.
  pub Tracked-same :
      (c d : Cluster) (ws : List Callback)
      → d.commands_inflight ≡ c.commands_inflight
      → d.broadcasts ≡ c.broadcasts
      → d.next_broadcast ≡ c.next_broadcast
      → Tracked c ws
      → Tracked d ws
  Tracked-same c d ws e f g v = record {
    once = λ j. rw e (v.once j);
    flies = λ b j. rw (e, f) (v.flies b j);
    apart = λ a b j. rw f (v.apart a b j);
    known = λ b. rw g (v.known b);
    expected = λ b. rw f (v.expected b);
  }

  pub Settled-Tracked :
      (clim : Clim) (c d : Cluster) (ws : List Callback)
      → Free clim c ws
      → Settled clim c d
      → Tracked c ws
      → Tracked d ws
  Settled-Tracked clim c d ws free k v = record {
    once = λ j. ground (arith, claim-01 clim j, free.no_direct j, k.others j, v.once j);
    flies = λ b j p q.
        ground (arith, claim-01 clim j, k.others j, k.books, free.no_parts b j, v.flies b j, p, q);
    apart = λ a b j. rw k.books (v.apart a b j);
    known = λ b. rw k.next_book (v.known b);
    expected = λ b. rw k.books (v.expected b);
  }

  -- Less to wait for.
  pub fewer_Tracked :
      (c : Cluster) (vs ws : List Callback)
      → ((j : Str) → direct j vs ≤ direct j ws)
      → ((b : ℕ) → parts b vs ≤ parts b ws)
      → Tracked c ws
      → Tracked c vs
  fewer_Tracked c vs ws d p v = record {
    once = λ j. omega (arith, d j, v.once j);
    flies = λ b j q f. ground (arith, d j, p b, v.flies b j, q, f);
    apart = λ a b j n q r. v.apart a b j n (omega (arith, p a, q)) (omega (arith, p b, r));
    known = λ b q. v.known b (omega (arith, p b, q));
    expected = λ b q. ground (arith, p b, v.expected b, q);
  }

  pub Idle-Tracked :
      (c : Cluster) (ws vs : List Callback) → Idle vs → Tracked c ws → Tracked c (ws ++ vs)
  Idle-Tracked c ws vs i =
      fewer_Tracked c (ws ++ vs) ws (λ j. omega (arith, direct-append j ws vs, i.no_direct j))
        (λ b. omega (arith, parts-append b ws vs, i.no_parts b))

  asked_Tracked :
      (clim : Clim) (c : Cluster) (ws vs : List Callback)
      → Free clim c ws
      → Flies clim c
      → Asks clim vs
      → Tracked c ws
      → Tracked c (ws ++ vs)
  asked_Tracked clim c ws vs free flies k v = record {
    once = λ j. ground (
      arith,
      claim-01 clim j,
      free.no_direct j,
      flies j,
      k.one_direct j,
      direct-append j ws vs,
      v.once j,
    );
    flies = λ b j p q. ground (
      arith,
      claim-01 clim j,
      free.no_parts b j,
      k.one_direct j,
      k.no_parts b,
      direct-append j ws vs,
      parts-append b ws vs,
      v.flies b j,
      p,
      q,
    );
    apart = λ a b j n p q.
        v.apart a b j n (omega (arith, k.no_parts a, parts-append a ws vs, p))
          (omega (arith, k.no_parts b, parts-append b ws vs, q));
    known = λ b p. v.known b (omega (arith, k.no_parts b, parts-append b ws vs, p));
    expected = λ b p. ground (arith, v.expected b, k.no_parts b, parts-append b ws vs, p);
  }

  module _ (clim : Clim) (c d : Cluster) (ws vs : List Callback) (k : Spreads clim c d vs)
      (v : Tracked c ws) where
    -- The new broadcast, or one of those before.
    abbrev Opened : ℕ → Type 0
    Opened b =
        ((d.broadcasts b).clim ≡ clim)
        × (b ≡ c.next_broadcast)
        × ((d.broadcasts b).bcount ≡ pos k.size)
        × (parts b (ws ++ vs) ≤ k.size)

    abbrev Before : ℕ → Type 0
    Before b =
        (b ≢ c.next_broadcast)
        × (d.broadcasts b ≡ c.broadcasts b)
        × (parts b (ws ++ vs) ≡ parts b ws)

    either_broadcast : (b : ℕ) → Opened b ⊎ Before b
    either_broadcast b = elim (ℕ_discrete b c.next_broadcast) [
      | yes e ↦ inl (
        ground (arith, e, k.sender),
        e,
        ground (arith, e, k.counted),
        ground (arith, e, v.known b, k.few_parts, parts-append b ws vs),
      )
      | no n ↦ inr (n, k.others b n, omega (arith, k.no_others b n, parts-append b ws vs))
    ]

    spread_Tracked : Free clim c ws → Flies clim c → length c.active < 2 ^ 63 → Tracked d (ws ++ vs)
    spread_Tracked free flies bound = record {
      once = λ j. ground (arith, k.flight, k.no_direct j, direct-append j ws vs, v.once j);
      flies = λ b j p q. elim (either_broadcast b) [
        | inl o ↦ ground (
          arith,
          o,
          flies j,
          free.no_direct j,
          k.flight,
          k.no_direct j,
          direct-append j ws vs,
          p,
          q,
        )
        | inr o ↦
            ground (arith, o, v.flies b j, k.flight, k.no_direct j, direct-append j ws vs, p, q)
      ];
      apart = λ a b j n p q r. elim (either_broadcast a) [
        | inl o ↦ elim (either_broadcast b) [
          | inl o' ↦ absurd (n (o.1 ∙ sym o'.1))
          | inr o' ↦ ground (arith, o, o', free.no_parts b j, q, r)
        ]
        | inr o ↦ elim (either_broadcast b) [
          | inl o' ↦ ground (arith, o, o', claim-01 clim j, free.no_parts a j, p, r)
          | inr o' ↦ ground (arith, o, o', v.apart a b j n, p, q, r)
        ]
      ];
      known = λ b p. elim (either_broadcast b) [
        | inl o ↦ omega (arith, o.1, k.next_book)
        | inr o ↦ omega (arith, v.known b, o.2, k.next_book, p)
      ];
      expected = λ b p. elim (either_broadcast b) [
        | inl o ↦ (k.size, o.2, o.3, omega (arith, k.bounded, bound))
        | inr o ↦ ground (arith, v.expected b, o, p)
      ];
    }

  pub handled_Tracked :
      (clim : Clim) (c d : Cluster) (ws vs : List Callback)
      → Free clim c ws
      → Flies clim c
      → length c.active < 2 ^ 63
      → Handled clim c d vs
      → Tracked c ws
      → Tracked d (ws ++ vs)
  handled_Tracked clim c d ws vs free flies bound (settled k i) v =
      Idle-Tracked d ws vs i (Settled-Tracked clim c d ws free k v)
  handled_Tracked clim c d ws vs free flies bound (asked k a) v =
      Tracked-same c d (ws ++ vs) k.flight k.books k.next_book
        (asked_Tracked clim c ws vs free flies a v)
  handled_Tracked clim c d ws vs free flies bound (spread k) v =
      spread_Tracked clim c d ws vs k v free flies bound
