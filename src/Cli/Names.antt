-- ===== src/Cli/Names.antt =====
-- The names of the members in the clusters of the control interface.
pub mod Loops
pub mod Commands
pub mod Reloads
use mathlib.Core.Path.{subst}
use mathlib.Core.Option.{some-injective, none-ne-some}
use go_rtp_cluster.Base.{
  ℕ, zero, suc, ◌≡◌, refl, ◌∙◌, sym, ap, Bool, true, false, ◌||◌, Option, none, some, Option-cases,
  List, [], ◌∷◌, ◌++◌, ℤ, Str, codes, arith, ◌==◌, nat_eq, str_eq, if◌then◌else◌, if_cases, elem,
  inl, inr, get_elem?, length, leb, drop,
}
use go_rtp_cluster.Base.Dict.{Dict, lookup}
use go_rtp_cluster.Externals.{Externals}
use go_rtp_cluster.Member.{Member, new_member, reconnect}
use go_rtp_cluster.Cluster.{Cluster, put}
use go_rtp_cluster.Cluster.Pool.{rtpp_by_name}
use go_rtp_cluster.Cluster.Events.{bring_down}
use go_rtp_cluster.Cluster.Invariant.{is_listed}
use go_rtp_cluster.Cluster.Names.{
  UniqueNames, fewer-UniqueNames, put-UniqueNames, bring_down-UniqueNames,
}
use go_rtp_cluster.Cluster.Names.Joining.{add_member-UniqueNames}
use go_rtp_cluster.Cluster.Lifecycle.{World}
use go_rtp_cluster.Config.{RtpProxy}
use go_rtp_cluster.Cli.Listing.{insert_by_name, sort_by_name}
use go_rtp_cluster.Cli.Modify.{is_supported, with_port, bind_address}
use go_rtp_cluster.Cli.Loading.{
  Progress, on, returned, panicked, configured, load_new, refresh, reload_proxy, reload_proxies,
  seen, sweep, sweep_members,
}

module _ ⦃E : Externals⦄ where
  open E use {HostPort}

  elem-insert_by_name :
      (members : ℕ → Member) (q r : ℕ) (rs : List ℕ)
      → elem q (insert_by_name members r rs) ≡ (r == q || elem q rs)
  unfolding insert_by_name
  elem-insert_by_name members q r [] = refl
  elem-insert_by_name members q r (x ∷ xs) = ground (arith, elem-insert_by_name members q r xs)

  pub elem-sort_by_name :
      (members : ℕ → Member) (q : ℕ) (rs : List ℕ) → elem q (sort_by_name members rs) ≡ elem q rs
  unfolding sort_by_name
  elem-sort_by_name members q [] = refl
  elem-sort_by_name members q (r ∷ rs) = ground (
    arith,
    elem-sort_by_name members q rs,
    elem-insert_by_name members q r (sort_by_name members rs),
  )

  pub sorted-UniqueNames :
      (c : Cluster)
      → UniqueNames c
      → UniqueNames (record c { active = sort_by_name c.members c.active })
  sorted-UniqueNames c =
      fewer-UniqueNames c _ (λ r h. ground (arith, elem-sort_by_name c.members r c.active))
        (λ r. refl) refl

  pub new_member_name :
      (name protocol address : Str) (bind : Option HostPort) (m : Member)
      → new_member name protocol address bind ≡ some m
      → m.name ≡ name
  unfolding new_member
  new_member_name name protocol address bind m h = ground arith

  pub configured_name : (p : RtpProxy) (m : Member) → (configured p m).name ≡ m.name
  unfolding configured
  configured_name p m = refl

  refresh_name : (w : World) (p : RtpProxy) (m : Member) → (refresh w p m).name ≡ m.name
  unfolding refresh configured reconnect
  refresh_name w p m = refl

  load_new-UniqueNames :
      (p : RtpProxy) (c d : Cluster)
      → rtpp_by_name p.name c ≡ none
      → load_new p c ≡ some d
      → UniqueNames c
      → UniqueNames d
  unfolding load_new
  load_new-UniqueNames p c d h e v =
      elim (Option-cases (
        new_member p.name p.protocol (with_port p.protocol p.address)
          (bind_address p.cmd_out_address))) [
            | inl f ↦ absurd (none-ne-some _ (rw (f, load_new) at e))
            | inr (m, f) ↦ subst UniqueNames (some-injective _ _ (rw (f, load_new) at e)) (
                add_member-UniqueNames (configured p m) c
                  (rw (configured_name p m, new_member_name _ _ _ _ m f) h) v)
          ]

  -- What holds of the cluster at each end of a loop.
  abbrev pub Kept : Progress (Cluster × List ℕ) → Type 0
  Kept panicked = Unit
  Kept (on (c, _)) = UniqueNames c
  Kept (returned (c, _)) = UniqueNames c

  reload_proxy-UniqueNames :
      (w : World) (p : RtpProxy) (c d : Cluster) (r : ℕ)
      → reload_proxy w p c ≡ some (d, r)
      → UniqueNames c
      → UniqueNames d
  unfolding reload_proxy
  reload_proxy-UniqueNames w p c d r e v = elim (Option-cases (rtpp_by_name p.name c)) [
    | inl f ↦ elim (Option-cases (load_new p c)) [
      | inl g ↦ absurd (none-ne-some _ (rw (f, g, reload_proxy) at e))
      | inr (d', g) ↦
          subst (λ (x : Cluster × ℕ). UniqueNames x.0)
            (some-injective _ _ (rw (f, g, reload_proxy) at e)) (load_new-UniqueNames p c d' f g v)
    ]
    | inr ((q, i), f) ↦
        subst (λ (x : Cluster × ℕ). UniqueNames x.0)
          (some-injective _ _ (rw (f, reload_proxy) at e))
          (put-UniqueNames q (refresh w p (c.members q)) c (refresh_name w p (c.members q)) v)
  ]

  pub reload_proxies-Kept :
      (w : World) (ps : List RtpProxy) (c : Cluster) (new : List ℕ)
      → UniqueNames c
      → Kept (reload_proxies w ps (c, new))
  unfolding reload_proxies
  reload_proxies-Kept w [] c new v = v
  reload_proxies-Kept w (p ∷ ps) c new v =
      if_cases Kept (is_supported p.protocol)
        (λ _. go (λ d r. reload_proxies-Kept w ps d (new ++ r ∷ [])) (reload_proxy w p c) refl)
        (λ _. v)
    where
      go :
          ((d : Cluster) (r : ℕ) → UniqueNames d → Kept (reload_proxies w ps (d, new ++ r ∷ [])))
          → (o : Option (Cluster × ℕ)) → reload_proxy w p c ≡ o
          → Kept (elim o [ none ↦ panicked | some (d, r) ↦ reload_proxies w ps (d, new ++ r ∷ []) ])
      go more none e = tt
      go more (some (d, r)) e = more d r (reload_proxy-UniqueNames w p c d r e v)

  swept :
      (b : Bool) (x y : Cluster)
      → UniqueNames x
      → UniqueNames y
      → UniqueNames (elim b [ true ↦ x | false ↦ y ])
  swept true x y p q = p
  swept false x y p q = q

  swept_next :
      (o : Option ℕ) (x : Cluster) (g : ℕ → Cluster)
      → UniqueNames x
      → ((r : ℕ) → UniqueNames (g r))
      → UniqueNames (elim o [ none ↦ x | some r ↦ g r ])
  swept_next none x g p k = p
  swept_next (some r) x g p k = k r

  sweep-UniqueNames :
      (shared : Bool) (new : List ℕ) (n i : ℕ) (view : List ℕ) (c : Cluster)
      → UniqueNames c
      → UniqueNames (sweep shared new n i view c)
  unfolding sweep
  sweep-UniqueNames shared new zero i view c v = v
  sweep-UniqueNames shared new (suc n) i view c v = swept_next (get_elem? view i) c _ v (λ r.
      swept (elem r new) _ _ (sweep-UniqueNames shared new n (suc i) view c v)
        (sweep-UniqueNames shared new n (suc i) _ (bring_down r c) (bring_down-UniqueNames r c v)))

  pub sweep_members-UniqueNames :
      (capacity : ℕ) (new : List ℕ) (c : Cluster)
      → UniqueNames c
      → UniqueNames (sweep_members capacity new c)
  unfolding sweep_members
  sweep_members-UniqueNames capacity new c = sweep-UniqueNames _ new _ 0 _ c
