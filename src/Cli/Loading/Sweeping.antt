-- ===== src/Cli/Loading/Sweeping.antt =====
-- Which members the end of `reload` brings down, and which one it misses.

use go_rtp_cluster.Base.{
  ℕ, zero, suc, ◌+◌, ◌≤◌, ◌≡◌, refl, ◌∙◌, ap, Bool, true, false, ◌||◌, Option, none, some, List, [],
  ◌∷◌, ◌++◌, arith, ◌==◌, nat_eq, if_cases, elem, elem-append, inl, inr, get_elem?, length, drop,
  Bool-cases,
}
use go_rtp_cluster.Externals.{Externals}
use go_rtp_cluster.Member.{Member}
use go_rtp_cluster.Cluster.{Cluster, put, all_members}
use go_rtp_cluster.Cluster.Pool.{remove_first, remove_active, remove_pending}
use go_rtp_cluster.Cluster.Events.{bring_down, none_left, disallow}
use go_rtp_cluster.Cluster.Invariant.{is_listed, disallow-Frame}
use go_rtp_cluster.Cli.Loading.{seen, sweep, sweep_members}

pub elem_other : (q r : ℕ) (xs : List ℕ) → (r == q) ≡ false → elem q (remove_first r xs) ≡ elem q xs
unfolding remove_first
elem_other q r [] h = refl
elem_other q r (x ∷ xs) h = ground (arith, elem_other q r xs)

pub get_elem-elem : (i r : ℕ) (xs : List ℕ) → get_elem? xs i ≡ some r → elem r xs ≡ true
get_elem-elem i r [] h = ground arith
get_elem-elem zero r (x ∷ xs) h = ground arith
get_elem-elem (suc i) r (x ∷ xs) h = ground (arith, get_elem-elem i r xs)

pub get_elem-drop : (i r : ℕ) (xs : List ℕ) → get_elem? xs i ≡ some r → elem r (drop i xs) ≡ true
get_elem-drop i r [] h = ground arith
get_elem-drop zero r (x ∷ xs) h = ground arith
get_elem-drop (suc i) r (x ∷ xs) h = get_elem-drop i r xs h

pub drop-elem : (q n : ℕ) (xs : List ℕ) → elem q xs ≡ false → elem q (drop n xs) ≡ false
drop-elem q zero xs h = h
drop-elem q (suc n) [] h = refl
drop-elem q (suc n) (x ∷ xs) h = drop-elem q n xs (ground arith)

pub drop_later :
    (q i j : ℕ) (view : List ℕ)
    → i ≤ j
    → elem q (drop i view) ≡ false
    → elem q (drop j view) ≡ false
drop_later q zero j view le h = drop-elem q j view h
drop_later q (suc i) zero view le h = absurd (omega arith)
drop_later q (suc i) (suc j) [] le h = refl
drop_later q (suc i) (suc j) (x ∷ view) le h = drop_later q i j view (omega arith) h

drop_twice :
    (q i j k : ℕ) (view : List ℕ)
    → j ≤ i + k
    → elem q (drop j view) ≡ false
    → elem q (drop i (drop k view)) ≡ false
drop_twice q i j zero view le h = drop_later q j i view (omega arith) h
drop_twice q zero j (suc k) [] le h = refl
drop_twice q (suc i) j (suc k) [] le h = refl
drop_twice q i zero (suc k) (x ∷ view) le h =
    drop-elem q i (drop k view) (drop-elem q k view (ground arith))
drop_twice q i (suc j) (suc k) (x ∷ view) le h = drop_twice q i j k view (omega arith) h

-- What stands behind a place of an array whose front was written over.
pub overwritten :
    (q i j k : ℕ) (xs view : List ℕ)
    → j + length xs ≤ i + k
    → elem q xs ≡ false
    → elem q (drop j view) ≡ false
    → elem q (drop i (xs ++ drop k view)) ≡ false
overwritten q i j k [] view le e h = drop_twice q i j k view (omega arith) h
overwritten q zero j k (x ∷ xs) view le e h =
    ground (arith, e, elem-append q (x ∷ xs) (drop k view), drop_later q j k view (omega arith) h)
overwritten q (suc i) j k (x ∷ xs) view le e h =
    overwritten q i j k xs view (omega arith) (ground arith) h

module _ ⦃E : Externals⦄ where
  -- What bringing down one member leaves of another.
  abbrev pub Untouched : ℕ → Cluster → Cluster → Type 0
  Untouched q c d =
      (elem q d.active ≡ elem q c.active)
      × (elem q d.pending ≡ elem q c.pending)
      × (d.members q ≡ c.members q)

  pub put_other :
      (r q : ℕ) (m : Member) (c : Cluster) → (r == q) ≡ false → (put r m c).members q ≡ c.members q
  unfolding put
  put_other r q m c h = ground (arith, h)

  pub bring_down_members :
      (r q : ℕ) (c : Cluster) → (r == q) ≡ false → (bring_down r c).members q ≡ c.members q
  unfolding bring_down remove_active remove_pending
  bring_down_members r q c h =
      if_cases Kept (elem r c.active)
        (λ _.
          if_cases Kept
            (length (c.members r).call_id_map == 0
              || none_left (E.active_sessions (c.members r).client))
            (λ _. put_other r q _ _ h ∙ same) (λ _. put_other r q _ _ h ∙ same))
        (λ _. put_other r q _ _ h ∙ same)
    where
      Kept : Cluster → Type 0
      Kept d = d.members q ≡ c.members q

      same : (disallow (c.members r) c).members q ≡ c.members q
      same = let (_, _, em, _) = disallow-Frame (c.members r) c in ap (λ (f : ℕ → Member). f q) em

  pub bring_down-Untouched :
      (r q : ℕ) (c : Cluster) → (r == q) ≡ false → Untouched q c (bring_down r c)
  unfolding bring_down put remove_active remove_pending
  bring_down-Untouched r q c h = (
    ground (arith, h, disallow-Frame (c.members r) c, elem_other q r c.active),
    ground (arith, h, disallow-Frame (c.members r) c, elem_other q r c.pending),
    bring_down_members r q c h,
  )

  pub then_Untouched :
      (q : ℕ) (c d e : Cluster) → Untouched q c d → Untouched q d e → Untouched q c e
  then_Untouched q c d e (a, p, b) (f, g, h) = (f ∙ a, g ∙ p, h ∙ b)

  -- One round of the loop, in its cases.
  pub round {ℓ} :
      (P : Cluster → Type ℓ) (o : Option ℕ) (new : List ℕ) (c : Cluster) (x : Cluster)
      (g : ℕ → Cluster)
      → (o ≡ none → P c)
      → ((r : ℕ) → o ≡ some r → elem r new ≡ true → P x)
      → ((r : ℕ) → o ≡ some r → elem r new ≡ false → P (g r))
      → P (elim o [ none ↦ c | some r ↦ elim (elem r new) [ true ↦ x | false ↦ g r ] ])
  round P none new c x g a b d = a refl
  round P (some r) new c x g a b d = at (elem r new) refl
    where
      at : (t : Bool) → elem r new ≡ t → P (elim t [ true ↦ x | false ↦ g r ])
      at true e = b r refl e
      at false e = d r refl e

  sweep-Untouched :
      (shared : Bool) (q : ℕ) (new : List ℕ) (n i : ℕ) (view : List ℕ) (c : Cluster)
      → elem q new ≡ true
      → Untouched q c (sweep shared new n i view c)
  unfolding sweep
  sweep-Untouched shared q new zero i view c h = (refl, refl, refl)
  sweep-Untouched shared q new (suc n) i view c h =
      round (Untouched q c) (get_elem? view i) new c _ _ (λ _. (refl, refl, refl))
        (λ r e k. sweep-Untouched shared q new n (suc i) view c h)
        (λ r e k.
          then_Untouched q c (bring_down r c)
            (sweep shared new n (suc i) (seen shared view (bring_down r c)) (bring_down r c))
            (bring_down-Untouched r q c (differ r k))
            (sweep-Untouched shared q new n (suc i) (seen shared view (bring_down r c))
              (bring_down r c) h))
    where
      differ : (r : ℕ) → elem r new ≡ false → (r == q) ≡ false
      differ r k = elim (Bool-cases (r == q)) [ inl e ↦ ground (arith, e, h, k) | inr e ↦ e ]

  -- The end of `reload` leaves every member alone that the configuration has: it is in the active
  -- list afterwards exactly if it was before, in the pending list exactly if it was before, and its
  -- state does not change.
  pub sweep_members-configured :
      (capacity q : ℕ) (new : List ℕ) (c : Cluster)
      → elem q new ≡ true
      → (elem q (sweep_members capacity new c).active ≡ elem q c.active)
        × (elem q (sweep_members capacity new c).pending ≡ elem q c.pending)
        × ((sweep_members capacity new c).members q ≡ c.members q)
  unfolding sweep_members
  sweep_members-configured capacity q new c = sweep-Untouched _ q new _ 0 _ c

  sweep_nothing :
      (shared : Bool) (new : List ℕ) (n i : ℕ) (view : List ℕ) (c : Cluster)
      → ((r : ℕ) → elem r view ≡ true → elem r new ≡ true)
      → sweep shared new n i view c ≡ c
  unfolding sweep
  sweep_nothing shared new zero i view c h = refl
  sweep_nothing shared new (suc n) i view c h =
      round (λ d. d ≡ c) (get_elem? view i) new c _ _ (λ _. refl)
        (λ r e k. sweep_nothing shared new n (suc i) view c h)
        (λ r e k. ground (arith, h r, get_elem-elem i r view e))

  -- Where all members are configured, nothing happens.
  pub sweep_members_nothing :
      (capacity : ℕ) (new : List ℕ) (c : Cluster)
      → ((r : ℕ) → is_listed r c ≡ true → elem r new ≡ true)
      → sweep_members capacity new c ≡ c
  unfolding sweep_members
  sweep_members_nothing capacity new c h =
      sweep_nothing _ new _ 0 (all_members c) c
        (λ r e. h r (rw (← elem-append r c.active c.pending) e))
