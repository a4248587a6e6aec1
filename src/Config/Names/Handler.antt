-- ===== src/Config/Names/Handler.antt =====
-- What the writes of the handler do to the names of the clusters.
use go_rtp_cluster.Base.{
  ℕ, ◌≡◌, refl, Bool, true, false, Option, none, some, Option-cases, inl, inr, List, [], ◌∷◌,
  str_eq, if◌then◌else◌,
}
use go_rtp_cluster.Config.{
  RtpProxy, RtpCluster, ValidateHandler, Context, update_at, with_cluster, with_proxy, with_notify,
  update_proxy, update_notify,
}
use go_rtp_cluster.Relay.{DisconnectNotify}
use go_rtp_cluster.Config.Characters.{cluster_names, ConfigError, Result, stored, done}
use go_rtp_cluster.Config.Names.{names_distinct, names-update_at}

-- What holds of the handler after a call that did not panic.
abbrev pub Fine : Option ValidateHandler → Type 0
Fine none = Unit
Fine (some h) = names_distinct (cluster_names h.config) ≡ true

abbrev pub FineResult : Result → Type 0
FineResult none = Unit
FineResult (some (h, _)) = names_distinct (cluster_names h.config) ≡ true

module _ (h : ValidateHandler) (fine : names_distinct (cluster_names h.config) ≡ true) where
  updated-Fine :
      (i : ℕ) (f : RtpCluster → RtpCluster)
      → ((c : RtpCluster) → (f c).name ≡ c.name)
      → names_distinct (cluster_names (update_at i f h.config)) ≡ true
  updated-Fine i f k = rw (names-update_at i f h.config k) fine

  pub with_cluster-Fine :
      (f : RtpCluster → RtpCluster)
      → ((c : RtpCluster) → (f c).name ≡ c.name)
      → Fine (with_cluster f h)
  unfolding with_cluster
  with_cluster-Fine f k = elim (Option-cases h.rtp_cluster) [
    | inl e ↦ rw (e, with_cluster) tt
    | inr (i, e) ↦ rw (e, with_cluster) (updated-Fine i f k)
  ]

  pub with_proxy-Fine : (f : RtpProxy → RtpProxy) → Fine (with_proxy f h)
  unfolding with_proxy
  with_proxy-Fine f = elim (Option-cases h.rtpproxy) [
    | inl e ↦ rw (e, with_proxy) tt
    | inr ((i, j), e) ↦ rw (e, with_proxy) (updated-Fine i (update_proxy j f) (λ c. refl))
  ]

  pub with_notify-Fine : (f : DisconnectNotify → DisconnectNotify) → Fine (with_notify f h)
  unfolding with_notify
  with_notify-Fine f = elim (Option-cases h.dnconfig) [
    | inl e ↦ rw (e, with_notify) tt
    | inr (i, e) ↦ rw (e, with_notify) (updated-Fine i (update_notify f) (λ c. refl))
  ]

pub if_Fine :
    (b : Bool) (x y : Option ValidateHandler) → Fine x → Fine y → Fine (if b then x else y)
if_Fine true x y p q = p
if_Fine false x y p q = q

pub if_FineResult :
    (b : Bool) (x y : Result) → FineResult x → FineResult y → FineResult (if b then x else y)
if_FineResult true x y p q = p
if_FineResult false x y p q = q

-- A call that panics where a pointer is nil, and a change that leaves the clusters alone.
pub option-Fine {ℓ} :
    {A : Type ℓ} (o : Option A) (g : A → Option ValidateHandler)
    → ((a : A) → Fine (g a))
    → Fine (elim o [ none ↦ none | some a ↦ g a ])
option-Fine none g k = tt
option-Fine (some a) g k = k a

pub option-FineResult {ℓ} :
    {A : Type ℓ} (o : Option A) (g : A → Result)
    → ((a : A) → FineResult (g a))
    → FineResult (elim o [ none ↦ none | some a ↦ g a ])
option-FineResult none g k = tt
option-FineResult (some a) g k = k a

pub then-Fine :
    (o : Option ValidateHandler) (g : ValidateHandler → ValidateHandler)
    → Fine o
    → ((h : ValidateHandler) → (g h).config ≡ h.config)
    → Fine (elim o [ none ↦ none | some h ↦ some (g h) ])
then-Fine none g p k = tt
then-Fine (some h) g p k = rw (k h) p

pub popped-Fine :
    (l : List Context) (g : List Context → Option ValidateHandler)
    → ((r : List Context) → Fine (g r))
    → Fine (elim l [ [] ↦ none | _ ∷ rest ↦ g rest ])
popped-Fine [] g k = tt
popped-Fine (t ∷ ts) g k = k ts

pub topped-Fine :
    (l : List Context) (g : Context → Option ValidateHandler)
    → ((t : Context) → Fine (g t))
    → Fine (elim l [ [] ↦ none | t ∷ _ ↦ g t ])
topped-Fine [] g k = tt
topped-Fine (t ∷ ts) g k = k t

-- The ends of `Characters`.
pub done-Fine : (o : Option ValidateHandler) → Fine o → FineResult (done o)
done-Fine none p = tt
done-Fine (some h) p = p

pub stored-Fine :
    (ok : Bool) (e : ConfigError) (o : Option ValidateHandler) → Fine o → FineResult (stored ok e o)
stored-Fine ok e none p = tt
stored-Fine ok e (some h) p = p
