-- ===== src/System/Panics.antt =====
-- What keeps a running cluster from a panic: the broadcasts that are waited for have all that their
-- functions read.
pub mod Delivered
pub mod Caches
pub mod Never
use mathlib.Core.Path.{subst}
use mathlib.Core.Option.{none-ne-some, some-injective}
use go_rtp_cluster.Base.{
  ℕ, zero, suc, ◌<◌, ◌≡◌, refl, ◌≢◌, ◌∙◌, ap, true, false, Option, none, some, List, [], ◌∷◌, ◌++◌,
  Str, arith, ◌==◌, nat_eq, All, length, get_elem?, if_cases, if◌then◌else◌,
}
use go_rtp_cluster.Base.Dict.{lookup}
use go_rtp_cluster.Externals.{Externals, Cmd}
use go_rtp_cluster.Member.{Member, Status, is_online, start, shut}
use go_rtp_cluster.Cluster.{
  Cluster, Broadcast, Clim, Callback, down, ignore, merge, merge_stats, put,
}
use go_rtp_cluster.System.{remove_at}
use go_rtp_cluster.System.Quiet.{Quiet, Clean, Filled}
use go_rtp_cluster.System.Handled.{
  parts, Fit, Idle, Asks, Spreads, Settled, Handled, settled, asked, spread, Handled-Calm,
}
use go_rtp_cluster.System.Counting.{Counted, Collected, waits, completes, Collected-Calm}

All-append {ℓ} :
    {A : Type ℓ} (P : A → Type 0) (xs ys : List A) → All P xs → All P ys → All P (xs ++ ys)
All-append P [] ys p q = q
All-append P (x ∷ xs) ys (h, p) q = (h, All-append P xs ys p q)

All-map {ℓ} :
    {A : Type ℓ} (P Q : A → Type 0) (xs : List A) → ((x : A) → P x → Q x) → All P xs → All Q xs
All-map P Q [] f p = tt
All-map P Q (x ∷ xs) f (h, p) = (f x h, All-map P Q xs f p)

pub All-remove_at {ℓ} :
    {A : Type ℓ} (P : A → Type 0) (i : ℕ) (xs : List A) → All P xs → All P (remove_at i xs)
All-remove_at P i [] p = tt
All-remove_at P zero (x ∷ xs) (h, p) = p
All-remove_at P (suc i) (x ∷ xs) (h, p) = (h, All-remove_at P i xs p)

pub All-get {ℓ} :
    {A : Type ℓ} (P : A → Type 0) (i : ℕ) (xs : List A) (x : A)
    → All P xs
    → get_elem? xs i ≡ some x
    → P x
All-get P i [] x p e = absurd (none-ne-some _ e)
All-get P zero (y ∷ ys) x (h, p) e = subst P (some-injective _ _ e) h
All-get P (suc i) (y ∷ ys) x (h, p) e = All-get P i ys x p e

module _ ⦃E : Externals⦄ where
  open E use {Rest}

  -- No cache of statistics has an empty answer, and the broadcasts that are waited for are fit.
  pub record Healthy (c : Cluster) (ws : List Callback) : Type 0 where
    pub clean : Clean c
    pub fit : All (Fit c) ws

  pub same-Fit :
      (c d : Cluster)
      → d.broadcasts ≡ c.broadcasts
      → d.next_broadcast ≡ c.next_broadcast
      → (w : Callback) → Fit c w
      → Fit d w
  same-Fit c d e f (down clim cmd r) h = tt
  same-Fit c d e f (ignore r) h = tt
  same-Fit c d e f (merge b) h = rw (e, f) h
  same-Fit c d e f (merge_stats b) h = rw (e, f) h

  spread-Fit :
      (clim : Clim) (c d : Cluster) (vs : List Callback)
      → Spreads clim c d vs
      → (w : Callback) → Fit c w
      → Fit d w
  spread-Fit clim c d vs k (down _ cmd r) h = tt
  spread-Fit clim c d vs k (ignore r) h = tt
  spread-Fit clim c d vs k (merge b) h =
      ground (arith, k.others b (λ e. omega (arith, h, e)), k.next_book, h)
  spread-Fit clim c d vs k (merge_stats b) h =
      ground (arith, k.others b (λ e. omega (arith, h, e)), k.next_book, h)

  idle_Fit : (d : Cluster) (ws : List Callback) → ((b : ℕ) → parts b ws ≡ 0) → All (Fit d) ws
  idle_Fit d [] h = tt
  idle_Fit d (down clim cmd r ∷ ws) h = (tt, idle_Fit d ws h)
  idle_Fit d (ignore r ∷ ws) h = (tt, idle_Fit d ws h)
  idle_Fit d (merge b ∷ ws) h = absurd (ground (arith, h b))
  idle_Fit d (merge_stats b ∷ ws) h = absurd (ground (arith, h b))

  module _ (c d : Cluster) (ws vs : List Callback) (v : Healthy c ws) where
    grown :
        (Clean c → Clean d)
        → ((w : Callback) → Fit c w → Fit d w)
        → All (Fit d) vs
        → Healthy d (ws ++ vs)
    grown clean fits new = record {
      clean = clean v.clean;
      fit = All-append (Fit d) ws vs (All-map (Fit c) (Fit d) ws fits v.fit) new;
    }

    pub Handled-Healthy : (clim : Clim) → Handled clim c d vs → Healthy d (ws ++ vs)
    Handled-Healthy clim (settled k i) =
        grown k.calm.clean (same-Fit c d k.books k.next_book) (idle_Fit d vs i.no_parts)
    Handled-Healthy clim (asked k a) =
        grown k.calm.clean (same-Fit c d k.books k.next_book) (idle_Fit d vs a.no_parts)
    Handled-Healthy clim (spread k) = grown k.calm.clean (spread-Fit clim c d vs k) k.fits

    pub Settled-Healthy : (clim : Clim) → Settled clim c d → Idle vs → Healthy d (ws ++ vs)
    Settled-Healthy clim k i =
        grown k.calm.clean (same-Fit c d k.books k.next_book) (idle_Fit d vs i.no_parts)

    pub Collected-Healthy : (b : ℕ) → Collected b c d vs → Healthy d (ws ++ vs)
    Collected-Healthy b (waits k h i) = grown k.calm.clean k.fits (idle_Fit d vs i.no_parts)
    Collected-Healthy b (completes m k h s i) =
        grown (λ p. s.calm.clean (k.calm.clean p))
          (λ w p. same-Fit m d s.books s.next_book w (k.fits w p)) (idle_Fit d vs i.no_parts)
