-- ===== src/Cluster/Names/Joining.antt =====
-- A new member and the names of the others.
use go_rtp_cluster.Base.{
  ℕ, suc, ◌≡◌, refl, ◌≢◌, ◌∙◌, sym, true, false, ◌||◌, none, List, [], ◌∷◌, Str, arith, ◌==◌,
  nat_eq, str_eq, if◌then◌else◌, elem, elem-append, if_cases, Bool-cases, inl, inr,
}
use go_rtp_cluster.Externals.{Externals}
use go_rtp_cluster.Member.{Member, is_online, start}
use go_rtp_cluster.Cluster.{Cluster, put, all_members}
use go_rtp_cluster.Cluster.Pool.{find_name, rtpp_by_name, append_active, append_pending}
use go_rtp_cluster.Cluster.Events.{add_member}
use go_rtp_cluster.Cluster.Invariant.{is_listed, Frame, allow-Frame}
use go_rtp_cluster.Cluster.Names.{UniqueNames}

module _ ⦃E : Externals⦄ where
  find_name-none :
      (members : ℕ → Member) (name : Str) (idx r : ℕ) (rs : List ℕ)
      → find_name members name idx rs ≡ none
      → elem r rs ≡ true
      → (members r).name ≢ name
  unfolding find_name
  find_name-none members name idx r [] h e = ground arith
  find_name-none members name idx r (q ∷ rs) h e =
      ground (arith, find_name-none members name (suc idx) r rs)

  -- A name that is not found is the name of no member.
  pub rtpp_by_name-none :
      (name : Str) (c : Cluster) (r : ℕ)
      → rtpp_by_name name c ≡ none
      → is_listed r c ≡ true
      → (c.members r).name ≢ name
  unfolding rtpp_by_name
  rtpp_by_name-none name c r h e =
      find_name-none c.members name 0 r (all_members c) h (rw (elem-append r c.active c.pending) e)

  -- A cluster that got one more member, under a new pointer and a new name.
  joined-UniqueNames :
      (m : Member) (c d : Cluster)
      → rtpp_by_name m.name c ≡ none
      → ((r : ℕ) → is_listed r d ≡ (is_listed r c || c.next == r))
      → d.members ≡ (put c.next m c).members
      → d.next ≡ suc c.next
      → UniqueNames c
      → UniqueNames d
  unfolding put
  joined-UniqueNames m c d none_yet listed em en v = record {
    fresh = λ r h. ground (arith, listed r, v.fresh r);
    unique = λ r q h k same. elim (Bool-cases (c.next == r)) [
      | inl a ↦ elim (Bool-cases (c.next == q)) [
        | inl b ↦ ground (arith, a, b)
        | inr b ↦ absurd (clash q b k (sym (old q b) ∙ (sym same ∙ new r a)))
      ]
      | inr a ↦ elim (Bool-cases (c.next == q)) [
        | inl b ↦ absurd (clash r a h (sym (old r a) ∙ (same ∙ new q b)))
        | inr b ↦ v.unique r q (was r a h) (was q b k) (sym (old r a) ∙ (same ∙ old q b))
      ]
    ];
  }
    where
      new : (r : ℕ) → (c.next == r) ≡ true → (d.members r).name ≡ m.name
      new r a = rw em (ground (arith, a))

      old : (r : ℕ) → (c.next == r) ≡ false → (d.members r).name ≡ (c.members r).name
      old r a = rw em (ground (arith, a))

      was : (r : ℕ) → (c.next == r) ≡ false → is_listed r d ≡ true → is_listed r c ≡ true
      was r a h = ground (arith, listed r)

      clash : (r : ℕ) → (c.next == r) ≡ false → is_listed r d ≡ true → (c.members r).name ≢ m.name
      clash r a h = rtpp_by_name-none m.name c r none_yet (was r a h)

  -- A new member joins one of the lists.
  joined_list :
      (m : Member) (c d : Cluster)
      → Frame
          (if is_online m
            then append_active c.next (record (put c.next m c) { next = suc c.next })
            else append_pending c.next (record (put c.next m c) { next = suc c.next }))
          d
      → ((r : ℕ) → is_listed r d ≡ (is_listed r c || c.next == r))
        × (d.members ≡ (put c.next m c).members)
        × (d.next ≡ suc c.next)
  unfolding append_active append_pending put
  joined_list m c d (ea, ep, em, en) = (
    λ r. ground (
      arith,
      ea,
      ep,
      elem-append r c.active (c.next ∷ []),
      elem-append r c.pending (c.next ∷ []),
    ),
    em
        ∙ if_cases (λ (x : Cluster). x.members ≡ (put c.next m c).members) (is_online m) (λ _. refl)
            (λ _. refl),
    ground (arith, en),
  )

  start_name : (m : Member) → (start m).name ≡ m.name
  unfolding start
  start_name m = ground arith

  -- The object that `add_member` puts into the heap.
  abbrev pub joining : Member → Member
  joining m = start (record m { on_state_change = true })

  pub joining_name : (m : Member) → (joining m).name ≡ m.name
  joining_name m = start_name (record m { on_state_change = true })

  pub add_member_lem :
      (m : Member) (c : Cluster)
      → ((r : ℕ) → is_listed r (add_member m c) ≡ (is_listed r c || c.next == r))
        × ((add_member m c).members ≡ (put c.next (joining m) c).members)
        × ((add_member m c).next ≡ suc c.next)
  unfolding add_member
  add_member_lem m c = joined_list (joining m) c (add_member m c) (allow-Frame _ _)

  pub add_member-UniqueNames :
      (m : Member) (c : Cluster)
      → rtpp_by_name m.name c ≡ none
      → UniqueNames c
      → UniqueNames (add_member m c)
  add_member-UniqueNames m c h v =
      let (listed, em, en) = add_member_lem m c in
      joined-UniqueNames (joining m) c (add_member m c) (rw (joining_name m) h) listed em en v
