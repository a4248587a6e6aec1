-- ===== src/Command/Pick/Overload.antt =====
-- The member that `pick_proxy` takes when all members are over their capacity.
use go_rtp_cluster.Base.{
  ℕ, ◌≡◌, refl, sym, ap, Bool, true, false, some, List, [], ◌∷◌, arith, nat_eq, if◌then◌else◌, elem,
  All, keep_if, Bool-cases, inl, inr,
}
use mathlib.Core.Path.{subst}
use go_rtp_cluster.Externals.{Externals}
use go_rtp_cluster.Member.{Member}
use go_rtp_cluster.Cluster.{Cluster}
use mathlib.Core.Option.{some-injective, none-ne-some}
use go_rtp_cluster.Command.Pick.Choice.{candidates-All, heaviest_in}
use go_rtp_cluster.Command.Pick.{
  pick_proxy, candidates, choose, heaviest, weight_of, is_candidate, zero_float,
}

-- What the order of floating-point numbers gives for those with a property, such as not to be a NaN.
pub record IsOrder (E : Externals) (P : E.Float → Type 0) : Type 0 where
  pub asym : (a b : E.Float) → P a → P b → E.lt a b ≡ true → E.lt b a ≡ false
  pub chain :
      (a b c : E.Float) → P a → P b → P c → E.lt a b ≡ false → E.lt b c ≡ false → E.lt a c ≡ false
  pub irreflexive : (a : E.Float) → P a → E.lt a a ≡ false

keep_if-nil :
    {A : Type 0} (p : A → Bool) (xs : List A) → All (λ x. p x ≡ false) xs → keep_if p xs ≡ []
keep_if-nil p [] h = refl
keep_if-nil p (x ∷ xs) h = ground (arith, keep_if-nil p xs)

module _ ⦃E : Externals⦄ where
  open E use {Float}

  candidates-elem :
      (P : ℕ × Float → Type 0) (members : ℕ → Member) (rs : List ℕ) (q : ℕ)
      → All P (candidates members rs)
      → elem q rs ≡ true
      → is_candidate (members q) ≡ true
      → P (q, weight_of (members q))
  unfolding candidates
  candidates-elem P members [] q all i k = ground arith
  candidates-elem P members (r ∷ rs) q all i k = ground (arith, candidates-elem P members rs q)

  module _ (P : Float → Type 0) (order : IsOrder E P) where
    heaviest-first :
        (best : ℕ × Float) (its : List (ℕ × Float))
        → P best.1
        → All (λ t. P t.1) its
        → E.lt (heaviest best its).1 best.1 ≡ false
    unfolding heaviest
    heaviest-first best [] pb ps = order.irreflexive best.1 pb
    heaviest-first best (it ∷ its) pb (p, ps) = elim (Bool-cases (E.lt best.1 it.1)) [
      | inl h ↦ ground (
        arith,
        h,
        order.chain (heaviest it its).1 it.1 best.1 (heaviest_in (λ t. P t.1) its it p ps) p pb
            (heaviest-first it its p ps) (order.asym best.1 it.1 pb p h),
      )
      | inr h ↦ ground (arith, h, heaviest-first best its pb ps)
    ]

    heaviest-All :
        (best : ℕ × Float) (its : List (ℕ × Float))
        → P best.1
        → All (λ t. P t.1) its
        → All (λ it. E.lt (heaviest best its).1 it.1 ≡ false) its
    unfolding heaviest
    heaviest-All best [] pb ps = tt
    heaviest-All best (it ∷ its) pb (p, ps) = elim (Bool-cases (E.lt best.1 it.1)) [
      | inl h ↦
          at (heaviest it its) (ap (λ (b : Bool). heaviest (if b then it else best) its) h)
            (heaviest-first it its p ps) (heaviest-All it its p ps)
      | inr h ↦
          at (heaviest best its) (ap (λ (b : Bool). heaviest (if b then it else best) its) h)
            (order.chain (heaviest best its).1 best.1 it.1 (heaviest_in (λ t. P t.1) its best pb ps)
              pb p (heaviest-first best its pb ps) h)
            (heaviest-All best its pb ps)
    ]
      where
        at :
            (w : ℕ × Float)
            → heaviest best (it ∷ its) ≡ w
            → E.lt w.1 it.1 ≡ false
            → All (λ t. E.lt w.1 t.1 ≡ false) its
            → All (λ t. E.lt (heaviest best (it ∷ its)).1 t.1 ≡ false) (it ∷ its)
        at w e first rest =
            subst (λ (v : ℕ × Float). All (λ t. E.lt v.1 t.1 ≡ false) (it ∷ its)) (sym e)
              (first, rest)

    overload-heaviest :
        (members : ℕ → Member) (soft : Bool) (rand : Float) (all : List (ℕ × Float)) (r : ℕ)
        → All (λ it. it.1 ≡ weight_of (members it.0)) all
        → All (λ t. P t.1) all
        → choose soft rand all [] ≡ some r
        → All (λ it. E.lt (weight_of (members r)) it.1 ≡ false) all
    unfolding choose
    overload-heaviest members soft rand [] r h ps e = tt
    overload-heaviest members false rand (it ∷ its) r h ps e = absurd (none-ne-some _ e)
    overload-heaviest members true rand (it ∷ its) r h ps e =
        subst (λ (q : ℕ). All (λ t. E.lt (weight_of (members q)) t.1 ≡ false) (it ∷ its))
          (some-injective _ _ e)
          (subst (λ (x : Float). All (λ t. E.lt x t.1 ≡ false) (it ∷ its))
            (heaviest_in (λ t. t.1 ≡ weight_of (members t.0)) its it h.0 h.1)
            (heaviest-first it its ps.0 ps.1, heaviest-All it its ps.0 ps.1))

    -- Where no candidate has a positive weight, and the weights of the candidates are numbers that
    -- the comparison orders (none is a NaN): a member that is picked has the greatest weight of the
    -- candidates.
    pub pick_proxy-heaviest :
        (rand : Float) (c : Cluster) (r q : ℕ)
        → ((p : ℕ)
            → elem p c.active ≡ true
            → is_candidate (c.members p) ≡ true
            → P (weight_of (c.members p)))
        → ((p : ℕ)
            → elem p c.active ≡ true
            → is_candidate (c.members p) ≡ true
            → E.lt zero_float (weight_of (c.members p)) ≡ false)
        → pick_proxy rand c ≡ some r
        → elem q c.active ≡ true
        → is_candidate (c.members q) ≡ true
        → E.lt (weight_of (c.members r)) (weight_of (c.members q)) ≡ false
    unfolding pick_proxy
    pick_proxy-heaviest rand c r q ordered full picked i k =
        candidates-elem (λ t. E.lt (weight_of (c.members r)) t.1 ≡ false) c.members c.active q
          (overload-heaviest c.members c.capacity_limit_soft rand all r
            (candidates-All (λ t. t.1 ≡ weight_of (c.members t.0)) c.members c.active
              (λ p a b. refl))
            (candidates-All (λ t. P t.1) c.members c.active ordered)
            (subst (λ few. choose c.capacity_limit_soft rand all few ≡ some r)
              (keep_if-nil (λ t. E.lt zero_float t.1) all
                (candidates-All (λ t. E.lt zero_float t.1 ≡ false) c.members c.active full))
              picked))
          i k
      where
        all : List (ℕ × Float)
        all = candidates c.members c.active
