-- ===== src/System/Quiet.antt =====
-- Changes that leave the member lists, the clients, the commands in flight and the broadcasts alone.
use go_rtp_cluster.Base.{
  ◌≢◌, ◌==◌, ℕ, ◌≡◌, refl, ◌∙◌, Option, none, some, List, [], ◌∷◌, Str, arith, nat_eq, if_cases,
  if◌then◌else◌,
}
use go_rtp_cluster.Base.Dict.{lookup}
use go_rtp_cluster.Externals.{Externals, Cmd}
use go_rtp_cluster.Member.{Member, is_online, is_yours, bind_session, unbind_session}
use go_rtp_cluster.Cluster.{Cluster, put}
use go_rtp_cluster.Cluster.Invariant.{Inv}
use go_rtp_cluster.Command.Dispatch.{find_yours, owner, is_new_session}

module _ ⦃E : Externals⦄ where
  open E use {Rest}

  -- No empty answer is in the cache of statistics of a member, or of any.
  pub record Filled (m : Member) : Type 0 where
    pub good : (k : Str) → lookup k m.stats_cache ≢ some []

  pub record Clean (c : Cluster) : Type 0 where
    pub filled : (r : ℕ) → Filled (c.members r)

  -- The member lists and the clients are as they were.
  pub record Calm (c d : Cluster) : Type 0 where
    pub active : d.active ≡ c.active
    pub pending : d.pending ≡ c.pending
    pub next : d.next ≡ c.next
    pub up : (r : ℕ) → is_online (d.members r) ≡ is_online (c.members r)
    pub wired : (r : ℕ) → (d.members r).on_state_change ≡ (c.members r).on_state_change
    pub clean : Clean c → Clean d

  -- And so are the commands in flight and the broadcasts.
  pub record Quiet (c d : Cluster) : Type 0 where
    pub calm : Calm c d
    pub flight : d.commands_inflight ≡ c.commands_inflight
    pub books : d.broadcasts ≡ c.broadcasts
    pub next_book : d.next_broadcast ≡ c.next_broadcast

  pub Calm-Inv : (c d : Cluster) → Calm c d → Inv c → Inv d
  Calm-Inv c d k v = record {
    active_once = rw k.active v.active_once;
    pending_once = rw k.pending v.pending_once;
    apart = λ r. rw (k.active, k.pending) (v.apart r);
    allocated = λ r. rw (k.active, k.pending, k.next) (v.allocated r);
    up = λ r. rw (k.active, k.up r) (v.up r);
    down = λ r. rw (k.pending, k.up r) (v.down r);
    wired = λ r. rw (k.active, k.pending, k.wired r) (v.wired r);
  }

  pub same-Calm :
      (c d : Cluster)
      → d.active ≡ c.active
      → d.pending ≡ c.pending
      → d.next ≡ c.next
      → d.members ≡ c.members
      → Calm c d
  same-Calm c d e f g h = record {
    active = e;
    pending = f;
    next = g;
    up = λ r. rw h refl;
    wired = λ r. rw h refl;
    clean = λ v. record { filled = λ r. rw h (v.filled r) };
  }

  pub Calm-refl : (c : Cluster) → Calm c c
  Calm-refl c = same-Calm c c refl refl refl refl

  pub Calm-trans : (c d e : Cluster) → Calm c d → Calm d e → Calm c e
  Calm-trans c d e j k = record {
    active = k.active ∙ j.active;
    pending = k.pending ∙ j.pending;
    next = k.next ∙ j.next;
    up = λ r. k.up r ∙ j.up r;
    wired = λ r. k.wired r ∙ j.wired r;
    clean = λ v. k.clean (j.clean v);
  }

  pub Quiet-refl : (c : Cluster) → Quiet c c
  Quiet-refl c = record { calm = Calm-refl c; flight = refl; books = refl; next_book = refl }

  pub Quiet-trans : (c d e : Cluster) → Quiet c d → Quiet d e → Quiet c e
  Quiet-trans c d e j k = record {
    calm = Calm-trans c d e j.calm k.calm;
    flight = k.flight ∙ j.flight;
    books = k.books ∙ j.books;
    next_book = k.next_book ∙ j.next_book;
  }

  pub put-Clean : (r : ℕ) (m : Member) (c : Cluster) → Filled m → Clean c → Clean (put r m c)
  unfolding put
  put-Clean r m c f v = record { filled = λ q. if_cases Filled (r == q) (λ _. f) (λ _. v.filled q) }

  -- A write to a member that leaves its client and its callback alone.
  pub put-Quiet :
      (r : ℕ) (m : Member) (c : Cluster)
      → is_online m ≡ is_online (c.members r)
      → m.on_state_change ≡ (c.members r).on_state_change
      → (Filled (c.members r) → Filled m)
      → Quiet c (put r m c)
  unfolding put
  put-Quiet r m c e f g = record {
    calm = record {
      active = refl;
      pending = refl;
      next = refl;
      up = λ q. ground (arith, e);
      wired = λ q. ground (arith, f);
      clean = λ v. put-Clean r m c (g (v.filled r)) v;
    };
    flight = refl;
    books = refl;
    next_book = refl;
  }

  pub bind_session-Quiet :
      (r : ℕ) (call_id : Str) (kind : ℕ) (c : Cluster)
      → Quiet c (put r (bind_session call_id kind (c.members r)) c)
  unfolding bind_session
  bind_session-Quiet r call_id kind c =
      put-Quiet r _ c (ground arith) (ground arith)
        (λ v. record { good = λ k. ground (arith, v.good k) })

  pub unbind_session-Quiet :
      (r : ℕ) (call_id : Str) (c : Cluster)
      → Quiet c (put r (unbind_session call_id (c.members r)) c)
  unfolding unbind_session
  unbind_session-Quiet r call_id c = put-Quiet r _ c refl refl (λ v. record { good = v.good })

  is_yours-Quiet :
      (r : ℕ) (call_id : Str) (c : Cluster) → Quiet c (put r (is_yours call_id (c.members r)).0 c)
  unfolding is_yours
  is_yours-Quiet r call_id c =
      put-Quiet r _ c (ground arith) (ground arith)
        (λ v. record { good = λ k. ground (arith, v.good k) })

  find_yours-Quiet :
      (call_id : Str) (rs : List ℕ) (c : Cluster) → Quiet c (find_yours call_id rs c).0
  unfolding find_yours
  find_yours-Quiet call_id [] c = Quiet-refl c
  find_yours-Quiet call_id (r ∷ rs) c =
      let one = is_yours-Quiet r call_id c in
      let more = find_yours-Quiet call_id rs (put r (is_yours call_id (c.members r)).0 c) in
      if_cases {A = Cluster × Option ℕ} (λ x. Quiet c x.0) (is_yours call_id (c.members r)).1
        (λ _. one) (λ _. Quiet-trans c _ _ one more)

  pub owner-Quiet : (cmd : Cmd Rest) (c : Cluster) → Quiet c (owner cmd c).0
  unfolding owner
  owner-Quiet cmd c = go _ (find_yours-Quiet cmd.call_id c.active c)
    where
      go :
          (found : Cluster × Option ℕ)
          → Quiet c found.0
          → Quiet c
              (elim found.1 as (λ _. Cluster × Option ℕ) [
                | some q ↦ (found.0, some q)
                | none ↦
                    if is_new_session cmd
                    then (found.0, none)
                    else find_yours cmd.call_id found.0.pending found.0
              ]).0
      go (d, some q) k = k
      go (d, none) k =
          if_cases {A = Cluster × Option ℕ} (λ x. Quiet c x.0) (is_new_session cmd) (λ _. k)
            (λ _. Quiet-trans c d _ k (find_yours-Quiet cmd.call_id d.pending d))
