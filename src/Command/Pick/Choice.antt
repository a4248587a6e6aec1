-- ===== src/Command/Pick/Choice.antt =====
-- Which member `pick_proxy` may take, and when it takes one.
use mathlib.Core.Path.{subst}
use mathlib.Core.Option.{some-injective}
use go_rtp_cluster.Base.{
  ◌||◌, ℕ, ◌≡◌, refl, ◌≢◌, Bool, true, none, some, List, [], ◌∷◌, nat_eq, arith, if◌then◌else◌,
  keep_if, All, elem, ◌⊎◌, inl, inr,
}
use go_rtp_cluster.Externals.{Externals}
use go_rtp_cluster.Member.{Member}
use go_rtp_cluster.Cluster.{Cluster}
use go_rtp_cluster.Command.Pick.{
  zero_float, weight_of, is_candidate, candidates, available, walk, heaviest, pick_proxy, choose,
}

pub keep_if-All :
    {A : Type 0} (P : A → Type 0) (p : A → Bool) (xs : List A)
    → All P xs
    → All (λ x. P x × (p x ≡ true)) (keep_if p xs)
keep_if-All P p [] h = tt
keep_if-All P p (x ∷ xs) h = ground (arith, keep_if-All P p xs h.1)

module _ ⦃E : Externals⦄ where
  open E use {Float}

  pub candidates-All :
      (P : ℕ × Float → Type 0) (members : ℕ → Member) (rs : List ℕ)
      → ((r : ℕ)
          → elem r rs ≡ true
          → is_candidate (members r) ≡ true
          → P (r, weight_of (members r)))
      → All P (candidates members rs)
  unfolding candidates
  candidates-All P members [] h = tt
  candidates-All P members (r ∷ rs) h =
      ground (arith, h r (ground arith), candidates-All P members rs (λ q i. h q (ground arith)))

  -- The loop ends at one of the members that it walks over.
  walk_in :
      (P : ℕ → Type 0) (its : List (ℕ × Float)) (last : ℕ) (thr : Float)
      → P last
      → All (λ it. P it.0) its
      → P (walk last thr its)
  unfolding walk
  walk_in P [] last thr h all = h
  walk_in P (it ∷ its) last thr h all =
      ground (arith, all.0, walk_in P its it.0 (E.sub thr it.1) all.0 all.1)

  pub heaviest_in :
      (P : ℕ × Float → Type 0) (its : List (ℕ × Float)) (best : ℕ × Float)
      → P best
      → All P its
      → P (heaviest best its)
  unfolding heaviest
  heaviest_in P [] best h all = h
  heaviest_in P (it ∷ its) best h all =
      heaviest_in P its (if E.lt best.1 it.1 then it else best) (ground (arith, h, all.0)) all.1

  abbrev pub Eligible : Cluster → ℕ → Type 0
  Eligible c r =
      (elem r c.active ≡ true)
      × (is_candidate (c.members r) ≡ true)
      × ((c.capacity_limit_soft || E.lt zero_float (weight_of (c.members r))) ≡ true)

  -- A candidate of the list, with its weight.
  abbrev IsEntry : Cluster → ℕ × Float → Type 0
  IsEntry c it =
      (elem it.0 c.active ≡ true)
      × (is_candidate (c.members it.0) ≡ true)
      × (it.1 ≡ weight_of (c.members it.0))

  abbrev IsAvailable : Cluster → ℕ × Float → Type 0
  IsAvailable c it = IsEntry c it × (E.lt zero_float it.1 ≡ true)

  available-Eligible :
      (c : Cluster) (its : List (ℕ × Float))
      → All (IsAvailable c) its
      → All (λ it. Eligible c it.0) its
  available-Eligible c [] h = tt
  available-Eligible c (it ∷ its) h =
      ((h.0.0.0, h.0.0.1, ground (arith, h.0.0.2, h.0.1)), available-Eligible c its h.1)

  choose-Eligible :
      (rand : Float) (c : Cluster) (all few : List (ℕ × Float))
      → All (IsEntry c) all
      → All (IsAvailable c) few
      → (r : ℕ) → choose c.capacity_limit_soft rand all few ≡ some r
      → Eligible c r
  unfolding choose
  choose-Eligible rand c all (it ∷ its) h k r e =
      let ok = available-Eligible c (it ∷ its) k in
      subst (Eligible c) (some-injective _ _ e) (walk_in (Eligible c) (it ∷ its) it.0 _ ok.0 ok)
  choose-Eligible rand c [] [] h k r e = cc
  choose-Eligible rand c (it ∷ its) [] h k r e =
      let in_list = heaviest_in (IsEntry c) its it h.0 h.1 in ground (arith, in_list)

  -- A member that is picked is in the active list, is online and neither suspended nor draining.
  -- Unless the capacity limit is soft, its weight is positive.
  pub pick_proxy-Eligible :
      (rand : Float) (c : Cluster) {r : ℕ} → pick_proxy rand c ≡ some r → Eligible c r
  unfolding pick_proxy
  pick_proxy-Eligible rand c {r} h = choose-Eligible rand c all (available all) entries few r h
    where
      all : List (ℕ × Float)
      all = candidates c.members c.active

      entries : All (IsEntry c) all
      entries = candidates-All (IsEntry c) c.members c.active (λ q i k. (i, k, refl))

      few : All (IsAvailable c) (available all)
      few = keep_if-All (IsEntry c) (λ it. E.lt zero_float it.1) all entries

  candidates-ne-nil :
      (members : ℕ → Member) (rs : List ℕ) (r : ℕ)
      → elem r rs ≡ true
      → is_candidate (members r) ≡ true
      → candidates members rs ≢ []
  unfolding candidates
  candidates-ne-nil members [] r h k = ground arith
  candidates-ne-nil members (q ∷ rs) r h k = ground (arith, candidates-ne-nil members rs r)

  available-ne-nil :
      (members : ℕ → Member) (rs : List ℕ) (r : ℕ)
      → elem r rs ≡ true
      → is_candidate (members r) ≡ true
      → E.lt zero_float (weight_of (members r)) ≡ true
      → available (candidates members rs) ≢ []
  unfolding candidates
  available-ne-nil members [] r h k w = ground arith
  available-ne-nil members (q ∷ rs) r h k w = ground (arith, available-ne-nil members rs r)

  choose-ne-none :
      (soft : Bool) (rand : Float) (all few : List (ℕ × Float))
      → (few ≢ []) ⊎ ((soft ≡ true) × (all ≢ []))
      → choose soft rand all few ≢ none
  unfolding choose
  choose-ne-none soft rand all (it ∷ its) h e = cc
  choose-ne-none soft rand [] [] (inl h) e = h refl
  choose-ne-none soft rand [] [] (inr h) e = h.1 refl
  choose-ne-none soft rand (it ∷ its) [] (inl h) e = h refl
  choose-ne-none soft rand (it ∷ its) [] (inr h) e = ground arith

  -- If some active member is online and neither suspended nor draining, and has a positive weight
  -- or the capacity limit is soft, then a member is picked.
  pub pick_proxy-ne-none :
      (rand : Float) (c : Cluster) (r : ℕ)
      → elem r c.active ≡ true
      → is_candidate (c.members r) ≡ true
      → (E.lt zero_float (weight_of (c.members r)) ≡ true) ⊎ (c.capacity_limit_soft ≡ true)
      → pick_proxy rand c ≢ none
  unfolding pick_proxy
  pick_proxy-ne-none rand c r h k (inl w) =
      choose-ne-none _ rand _ _ (inl (available-ne-nil c.members c.active r h k w))
  pick_proxy-ne-none rand c r h k (inr s) =
      choose-ne-none _ rand _ _ (inr (s, candidates-ne-nil c.members c.active r h k))
