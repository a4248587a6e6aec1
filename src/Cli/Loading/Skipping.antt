-- ===== src/Cli/Loading/Skipping.antt =====
-- The member that the end of `reload` misses.
use mathlib.Core.Path.{subst}
use go_rtp_cluster.Base.{
  ℕ, zero, suc, ◌≡◌, refl, ◌∙◌, sym, ap, Bool, true, false, ◌||◌, some, List, ◌∷◌, ◌++◌, arith, leb,
  ◌==◌, nat_eq, if_cases, elem, elem-append, inl, inr, get_elem?, length, drop, Distinct,
  Bool-cases,
}
use go_rtp_cluster.Externals.{Externals}
use go_rtp_cluster.Member.{Member}
use go_rtp_cluster.Cluster.{Cluster, put, all_members}
use go_rtp_cluster.Cluster.Pool.{remove_first, remove_active, remove_pending}
use go_rtp_cluster.Cluster.Events.{bring_down, none_left, disallow}
use go_rtp_cluster.Cluster.Invariant.{Inv, disallow-Frame}
use go_rtp_cluster.Cluster.Drain.{has_calls}
use go_rtp_cluster.Cli.Loading.{seen, sweep, sweep_members}
use go_rtp_cluster.Cli.Loading.Sweeping.{
  drop_later, drop-elem, elem_other, get_elem-drop, overwritten, round, bring_down_members,
}

remove_first-head :
    (r q : ℕ) (xs : List ℕ) → (r == q) ≡ false → remove_first r (q ∷ xs) ≡ q ∷ remove_first r xs
unfolding remove_first
remove_first-head r q xs h = ground (arith, h)

at_false {ℓ} : {A : Type ℓ} (b : Bool) (x y : A) → b ≡ false → (elim b [ true ↦ x | false ↦ y ]) ≡ y
at_false b x y h = rw h refl

module _ ⦃E : Externals⦄ where
  -- The member stands first in the active list, and nowhere else in it.
  abbrev Leads : ℕ → Cluster → Type 0
  Leads q c = (xs : List ℕ) × (c.active ≡ q ∷ xs) × (elem q xs ≡ false)

  bring_down-Leads :
      (r q : ℕ) (c : Cluster) → (r == q) ≡ false → Leads q c → Leads q (bring_down r c)
  unfolding bring_down put remove_active remove_pending
  bring_down-Leads r q c h (xs, e, f) =
      if_cases (Leads q) (elem r c.active)
        (λ _.
          if_cases (Leads q)
            (length (c.members r).call_id_map == 0
              || none_left (E.active_sessions (c.members r).client))
            (λ _. (
              remove_first r xs,
              ap (remove_first r) (same ∙ e) ∙ remove_first-head r q xs h,
              ground (arith, f, elem_other q r xs h),
            ))
            (λ _. (xs, same ∙ e, f)))
        (λ _. (xs, same ∙ e, f))
    where
      same : (disallow (c.members r) c).active ≡ c.active
      same = (disallow-Frame (c.members r) c).0

  -- And its state is the given one.
  abbrev Spared : ℕ → Member → Cluster → Type 0
  Spared q m c = Leads q c × (c.members q ≡ m)

  differ :
      (q r i : ℕ) (view : List ℕ)
      → get_elem? view i ≡ some r
      → elem q (drop i view) ≡ false
      → (r == q) ≡ false
  differ q r i view e h = elim (Bool-cases (r == q)) [
    | inl k ↦ ground (arith, k, h, get_elem-drop i r view e)
    | inr k ↦ k
  ]

  behind :
      (q i : ℕ) (view : List ℕ) (d : Cluster)
      → Leads q d
      → elem q (drop i view) ≡ false
      → elem q (drop (suc i) (seen true view d)) ≡ false
  unfolding seen
  behind q i view d (xs, e, f) h =
      rw e (overwritten q i i (suc (length xs)) xs view (omega arith) f h)

  -- Once the loop is past a member it does not come back to it.
  sweep-Spared :
      (q : ℕ) (m : Member) (new : List ℕ) (n i : ℕ) (view : List ℕ) (c : Cluster)
      → Spared q m c
      → elem q (drop i view) ≡ false
      → Spared q m (sweep true new n i view c)
  unfolding sweep
  sweep-Spared q m new zero i view c spared h = spared
  sweep-Spared q m new (suc n) i view c spared h =
      round (Spared q m) (get_elem? view i) new c _ _ (λ _. spared)
        (λ r e k.
          sweep-Spared q m new n (suc i) view c spared
            (drop_later q i (suc i) view (omega arith) h))
        (λ r e k.
          let led = bring_down-Leads r q c (differ q r i view e h) spared.0 in
          sweep-Spared q m new n (suc i) (seen true view (bring_down r c)) (bring_down r c)
            (led, bring_down_members r q c (differ q r i view e h) ∙ spared.1)
            (behind q i view (bring_down r c) led h))

  first_down :
      (p q s : ℕ) (rest : List ℕ) (c : Cluster)
      → c.active ≡ p ∷ q ∷ s ∷ rest
      → has_calls (c.members p) ≡ false
      → (bring_down p c).active ≡ q ∷ s ∷ rest
  unfolding bring_down put remove_active remove_pending remove_first
  first_down p q s rest c e idle = ground (arith, e, idle, disallow-Frame (c.members p) c)

  first_round :
      (p n : ℕ) (tail new : List ℕ) (c : Cluster)
      → elem p new ≡ false
      → sweep true new (suc n) 0 (p ∷ tail) c
        ≡ sweep true new n 1 (seen true (p ∷ tail) (bring_down p c)) (bring_down p c)
  unfolding sweep
  first_round p n tail new c gone =
      at_false (elem p new) (sweep true new n 1 (p ∷ tail) c)
        (sweep true new n 1 (seen true (p ∷ tail) (bring_down p c)) (bring_down p c)) gone

  first_seen :
      (p q s : ℕ) (rest pending : List ℕ) (d : Cluster)
      → d.active ≡ q ∷ s ∷ rest
      → elem q (s ∷ rest ++ pending) ≡ false
      → elem q (drop 1 (seen true (p ∷ q ∷ s ∷ (rest ++ pending)) d)) ≡ false
  unfolding seen
  first_seen p q s rest pending d e alone = rw e (
      ground (
        arith,
        elem-append q (s ∷ rest) (drop (length rest) (s ∷ (rest ++ pending))),
        elem-append q (s ∷ rest) pending,
        alone,
        drop-elem q (length rest) (s ∷ (rest ++ pending)) alone,
      ))

  left_active : (q : ℕ) (m : Member) (d : Cluster) → Spared q m d → elem q d.active ≡ true
  left_active q m d ((xs, e, f), g) = rw e (ground arith)

  -- Where the first three members of the active list are `p`, `q` and `s`, the array has room for all
  -- members, and `p` is configured no more and has no calls, `q` is not looked at: it stays in the
  -- active list with its state, also if it is configured no more.
  pub sweep_members-skipped :
      (capacity p q s : ℕ) (rest new : List ℕ) (c : Cluster)
      → Inv c
      → c.active ≡ p ∷ q ∷ s ∷ rest
      → leb (length (all_members c)) capacity ≡ true
      → elem p new ≡ false
      → has_calls (c.members p) ≡ false
      → (elem q (sweep_members capacity new c).active ≡ true)
        × ((sweep_members capacity new c).members q ≡ c.members q)
  unfolding sweep_members
  sweep_members-skipped capacity p q s rest new c v e room gone idle =
      subst (λ (d : Cluster). (elem q d.active ≡ true) × (d.members q ≡ c.members q)) (sym run)
        (left_active q (c.members q) end spared, spared.1)
    where
      tail : List ℕ
      tail = q ∷ s ∷ (rest ++ c.pending)

      d : Cluster
      d = bring_down p c

      end : Cluster
      end = sweep true new (length tail) 1 (seen true (p ∷ tail) d) d

      run : sweep_members capacity new c ≡ end
      run =
          ap (λ b. sweep b new (length (all_members c)) 0 (all_members c) c) room
          ∙ (ap (λ (l : List ℕ). sweep true new (length l) 0 l c) (ap (λ l. l ++ c.pending) e)
              ∙ first_round p (length tail) tail new c gone)

      once : Distinct (p ∷ q ∷ s ∷ rest)
      once = subst Distinct e v.active_once

      here : d.active ≡ q ∷ s ∷ rest
      here = first_down p q s rest c e idle

      alone : elem q (s ∷ rest ++ c.pending) ≡ false
      alone =
          ground (arith, once, elem-append q (s ∷ rest) c.pending, v.apart q (rw e (ground arith)))

      spared : Spared q (c.members q) end
      spared =
          sweep-Spared q (c.members q) new (length tail) 1 (seen true (p ∷ tail) d) d
            ((s ∷ rest, here, once.1.0), bring_down_members p q c (ground (arith, once)))
            (first_seen p q s rest c.pending d here alone)
