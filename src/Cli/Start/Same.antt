-- ===== src/Cli/Start/Same.antt =====
-- What `main` and the command `reload` make of the proxies of a cluster.
pub mod Mirror
pub mod Clusters
use mathlib.Core.Path.{subst}
use mathlib.Core.Option.{some-injective, none-ne-some}
use go_rtp_cluster.Base.{
  ℕ, zero, suc, ◌+◌, ◌≡◌, ◌<◌, ◌≢◌, refl, ◌∙◌, sym, ap, Bool, true, false, ◌||◌, ◌&&◌, not, Option,
  none, some, Option-cases, List, [], ◌∷◌, ◌++◌, Str, arith, ◌==◌, nat_eq, str_eq, if◌then◌else◌,
  if_cases, Bool-cases, elem, elem-append, inl, inr, length, length-append,
}
use go_rtp_cluster.Externals.{Externals}
use go_rtp_cluster.Member.{Member, new_member}
use go_rtp_cluster.Cluster.{Cluster, put, all_members}
use go_rtp_cluster.Cluster.Pool.{find_name, rtpp_by_name}
use go_rtp_cluster.Cluster.Events.{add_member}
use go_rtp_cluster.Cluster.Invariant.{is_listed}
use go_rtp_cluster.Cluster.Names.Joining.{add_member_lem, joining, joining_name}
use go_rtp_cluster.Cluster.Lifecycle.{World}
use go_rtp_cluster.Config.{RtpProxy}
use go_rtp_cluster.Cli.Modify.{is_supported, with_port, bind_address}
use go_rtp_cluster.Cli.Loading.{
  Progress, on, returned, panicked, configured, load_new, load_proxies, reload_proxy,
  reload_proxies,
}
use go_rtp_cluster.Cli.Names.{new_member_name, configured_name}

-- A proxy of the configuration has this name.
abbrev pub has_name : Str → List RtpProxy → Bool
has_name name [] = false
has_name name (p ∷ ps) = name == p.name || has_name name ps

-- No two proxies have the same name.
abbrev pub distinct_names : List RtpProxy → Bool
distinct_names [] = true
distinct_names (p ∷ ps) = not (has_name p.name ps) && distinct_names ps

-- What a loop that went on has; else the first value.
abbrev pub held {ℓ} : {A : Type ℓ} → A → Progress A → A
held x (on z) = z
held x (returned z) = x
held x panicked = x

pub on-injective {ℓ} : {A : Type ℓ} (x y : A) → on x ≡ on y → x ≡ y
on-injective x y h = ap (held x) h

-- A round of a loop that went on.
went_on {ℓ ℓ'} :
    {A : Type ℓ} {X : Type ℓ'} (b : Bool) (o : Option X) (f : X → Progress A) (z y : A)
    → (if b then elim o [ none ↦ panicked | some x ↦ f x ] else returned z) ≡ on y
    → (b ≡ true) × (x : X) × (o ≡ some x) × (f x ≡ on y)
went_on true none f z y h = ground arith
went_on true (some x) f z y h = (refl, x, refl, h)
went_on false o f z y h = ground arith

module _ ⦃E : Externals⦄ where
  find_name-free :
      (members : ℕ → Member) (name : Str) (idx : ℕ) (rs : List ℕ)
      → ((r : ℕ) → elem r rs ≡ true → ((members r).name == name) ≡ false)
      → find_name members name idx rs ≡ none
  unfolding find_name
  find_name-free members name idx [] h = refl
  find_name-free members name idx (r ∷ rs) h =
      rw (h r (ground arith))
        (find_name-free members name (suc idx) rs (λ q e. h q (ground (arith, e))))

  -- A name that no member has is not found.
  rtpp_by_name-free :
      (name : Str) (c : Cluster)
      → ((r : ℕ) → is_listed r c ≡ true → ((c.members r).name == name) ≡ false)
      → rtpp_by_name name c ≡ none
  unfolding rtpp_by_name
  rtpp_by_name-free name c h =
      find_name-free c.members name 0 (all_members c)
        (λ r e. h r (rw (← elem-append r c.active c.pending) e))

  -- The loops have come to these proxies: the members so far are in `new_rtpps`, and have other names.
  pub record Ready (ps : List RtpProxy) (c : Cluster) (new : List ℕ) : Type 0 where
    pub fresh : (r : ℕ) → is_listed r c ≡ true → r < c.next
    pub covered : (r : ℕ) → is_listed r c ≡ true → elem r new ≡ true
    pub unnamed : (r : ℕ) → is_listed r c ≡ true → has_name (c.members r).name ps ≡ false

  or-false : (a b : Bool) → (a || b) ≡ false → (a ≡ false) × (b ≡ false)
  or-false false b h = (refl, h)
  or-false true b h = ground arith

  joined-Ready :
      (p : RtpProxy) (ps : List RtpProxy) (m : Member) (c : Cluster) (new : List ℕ)
      → m.name ≡ p.name
      → has_name p.name ps ≡ false
      → Ready (p ∷ ps) c new
      → Ready ps (add_member m c) (new ++ c.next ∷ [])
  unfolding put
  joined-Ready p ps m c new e other v = record {
    fresh = λ r h. rw en (ground (arith, listed r, v.fresh r));
    covered = λ r h. ground (arith, listed r, v.covered r, elem-append r new (c.next ∷ []));
    unnamed = λ r h. elim (Bool-cases (c.next == r)) [
      | inl a ↦ ap (λ n. has_name n ps) (named r a) ∙ other
      | inr a ↦
          ap (λ n. has_name n ps) (kept r a)
          ∙ (or-false _ _ (v.unnamed r (ground (arith, a, listed r)))).1
    ];
  }
    where
      listed : (r : ℕ) → is_listed r (add_member m c) ≡ (is_listed r c || c.next == r)
      listed = (add_member_lem m c).0

      em : (add_member m c).members ≡ (put c.next (joining m) c).members
      em = (add_member_lem m c).1

      en : (add_member m c).next ≡ suc c.next
      en = (add_member_lem m c).2

      named : (r : ℕ) → (c.next == r) ≡ true → ((add_member m c).members r).name ≡ p.name
      named r a = rw em (ground (arith, a, joining_name m))

      kept :
          (r : ℕ) → (c.next == r) ≡ false → ((add_member m c).members r).name ≡ (c.members r).name
      kept r a = rw em (ground (arith, a))

  -- `load_proxies` went through, and `reload_proxies` does the same.
  abbrev pub Matched : World → List RtpProxy → Cluster → List ℕ → Cluster → Type 0
  Matched w ps c new d =
      (made : List ℕ) × (reload_proxies w ps (c, new) ≡ on (d, made))
      × ((r : ℕ) → is_listed r d ≡ true → elem r made ≡ true)
      × (length made ≡ length new + length ps)

  not-and : (a b : Bool) → (not a && b) ≡ true → (a ≡ false) × (b ≡ true)
  not-and false b h = (refl, h)
  not-and true b h = ground arith

  -- What `load_new` adds.
  load_new_member :
      (p : RtpProxy) (c d : Cluster)
      → load_new p c ≡ some d
      → (m : Member) × (add_member m c ≡ d) × (m.name ≡ p.name)
  unfolding load_new
  load_new_member p c d e =
      elim (Option-cases (
        new_member p.name p.protocol (with_port p.protocol p.address)
          (bind_address p.cmd_out_address))) [
            | inl f ↦ absurd (none-ne-some _ (rw (f, load_new) at e))
            | inr (m, f) ↦ (
              configured p m,
              some-injective _ _ (rw (f, load_new) at e),
              configured_name p m ∙ new_member_name _ _ _ _ m f,
            )
          ]

  load_new-Ready :
      (p : RtpProxy) (ps : List RtpProxy) (c d : Cluster) (new : List ℕ)
      → load_new p c ≡ some d
      → has_name p.name ps ≡ false
      → Ready (p ∷ ps) c new
      → Ready ps d (new ++ c.next ∷ [])
  load_new-Ready p ps c d new e other v =
      let (m, f, g) = load_new_member p c d e in
      subst (λ (x : Cluster). Ready ps x (new ++ c.next ∷ [])) f
        (joined-Ready p ps m c new g other v)

  -- `reload` finds no member of the name, and so it adds one too.
  reload_proxy-new :
      (w : World) (p : RtpProxy) (ps : List RtpProxy) (c d : Cluster) (new : List ℕ)
      → load_new p c ≡ some d
      → Ready (p ∷ ps) c new
      → reload_proxy w p c ≡ some (d, c.next)
  unfolding reload_proxy
  reload_proxy-new w p ps c d new e v =
      rw (rtpp_by_name-free p.name c (λ r h. (or-false _ _ (v.unnamed r h)).0), e, reload_proxy)
        refl

  pub load_proxies-Matched :
      (w : World) (ps : List RtpProxy) (c d : Cluster) (new : List ℕ)
      → Ready ps c new
      → distinct_names ps ≡ true
      → load_proxies ps c ≡ on d
      → Matched w ps c new d
  unfolding load_proxies reload_proxies
  load_proxies-Matched w [] c d new v u h = (
    new,
    ap (λ x. on (x, new)) (on-injective c d h),
    subst (λ (x : Cluster). (r : ℕ) → is_listed r x ≡ true → elem r new ≡ true) (on-injective c d h)
        v.covered,
    omega arith,
  )
  load_proxies-Matched w (p ∷ ps) c d new v u h =
      let (other, apart) = not-and (has_name p.name ps) (distinct_names ps) u in
      let (supported, x, e, more) =
        went_on (is_supported p.protocol) (load_new p c) (load_proxies ps) c d h in
      let (made, f, covered, n) =
        load_proxies-Matched w ps x d (new ++ c.next ∷ []) (load_new-Ready p ps c x new e other v)
          apart more in
      (
        made,
        rw (supported, reload_proxy-new w p ps c x new e v) f,
        covered,
        omega (arith, n, length-append new (c.next ∷ [])),
      )
