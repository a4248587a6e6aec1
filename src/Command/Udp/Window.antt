-- ===== src/Command/Udp/Window.antt =====
-- What the two generations of the response cache stand for: a window on the history of answers.
use mathlib.Core.Path.{subst}
use mathlib.Core.Option.{some-injective, none-ne-some}
use go_rtp_cluster.Base.{
  ℕ, zero, suc, ◌≡◌, refl, ◌∙◌, sym, ap, Option, none, some, Option-cases, inl, inr, List, [], ◌∷◌,
  ◌++◌, Str, arith, ◌==◌, str_eq, if◌then◌else◌,
}
use go_rtp_cluster.Base.Dict.{lookup, lookup-insert}
use go_rtp_cluster.Externals.{Externals, Cmd}
use go_rtp_cluster.Member.{Member}
use go_rtp_cluster.Cluster.{Cluster, udp}
use go_rtp_cluster.Command.Reply.{answer, down_command}
use go_rtp_cluster.Command.Udp.{cached_response, rcache_purge}

module _ ⦃E : Externals⦄ where
  open E use {Rest}

  -- An answer to the sender of a datagram, or a run of the purge timer.
  pub data CacheEvent : Type 0 where
    answered : Str → Str → Str → Cmd Rest → Option Member → CacheEvent
    purged : CacheEvent

  unfoldable pub cache_step : CacheEvent → Cluster → Option Cluster
  cache_step (answered cookie sender result cmd m) c =
      elim (down_command result (udp cookie sender) cmd m c) [ none ↦ none | some (d, _) ↦ some d ]
  cache_step purged c = some (rcache_purge c)

  -- The cluster after a history, whose latest event comes first.
  unfoldable pub cache_run : List CacheEvent → Cluster → Option Cluster
  cache_run [] c = some c
  cache_run (e ∷ h) c = elim (cache_run h c) [ none ↦ none | some d ↦ cache_step e d ]

  -- The line that `down_command` sends.
  abbrev pub response : Str → Cmd Rest → Option Member → Str
  response result cmd m = elim (answer result cmd m) [ none ↦ [] | some text ↦ text ++ 10 ∷ [] ]

  -- The specification: the latest answer to a cookie with no more than so many purges after it.
  unfoldable pub latest : Str → ℕ → List CacheEvent → Option Str
  latest k n [] = none
  latest k n (answered cookie sender result cmd m ∷ h) =
      let before = latest k n h in if cookie == k then some (response result cmd m) else before
  latest k zero (purged ∷ h) = none
  latest k (suc n) (purged ∷ h) = latest k n h

  -- The latest answer before the last purge.
  before_purge : Str → List CacheEvent → Option Str
  before_purge k [] = none
  before_purge k (answered _ _ _ _ _ ∷ h) = before_purge k h
  before_purge k (purged ∷ h) = latest k zero h

  abbrev or_else : Option Str → Option Str → Option Str
  or_else none b = b
  or_else (some a) b = some a

  latest-before_purge :
      (k : Str) (h : List CacheEvent) → latest k 1 h ≡ or_else (latest k 0 h) (before_purge k h)
  unfolding latest before_purge
  latest-before_purge k [] = refl
  latest-before_purge k (answered cookie sender result cmd m ∷ h) =
      ground (arith, latest-before_purge k h)
  latest-before_purge k (purged ∷ h) = refl

  -- The two generations of the cache hold the answers of the last two periods.
  abbrev Holds : Str → List CacheEvent → Cluster → Type 0
  Holds k h d = (lookup k d.l1rcache ≡ latest k 0 h) × (lookup k d.l2rcache ≡ before_purge k h)

  answered-Holds :
      (k cookie sender result : Str) (cmd : Cmd Rest) (m : Option Member) (h : List CacheEvent)
      (c d : Cluster)
      → Holds k h c
      → cache_step (answered cookie sender result cmd m) c ≡ some d
      → Holds k (answered cookie sender result cmd m ∷ h) d
  unfolding cache_step down_command latest before_purge
  answered-Holds k cookie sender result cmd m h c d (a, b) e =
      elim (Option-cases (answer result cmd m)) [
        | inl f ↦ absurd (none-ne-some _ (rw (f, down_command, cache_step) at e))
        | inr (text, f) ↦
            subst (Holds k (answered cookie sender result cmd m ∷ h))
              (some-injective _ _ (rw (f, down_command, cache_step) at e))
              (ground (arith, f, a, lookup-insert k cookie (text ++ 10 ∷ []) c.l1rcache), b)
      ]

  purged-Holds :
      (k : Str) (h : List CacheEvent) (c d : Cluster)
      → Holds k h c
      → cache_step purged c ≡ some d
      → Holds k (purged ∷ h) d
  unfolding cache_step rcache_purge latest before_purge lookup
  purged-Holds k h c d (a, b) e = subst (Holds k (purged ∷ h)) (some-injective _ _ e) (refl, a)

  cache_run-Holds :
      (k : Str) (h : List CacheEvent) (c d : Cluster)
      → c.l1rcache ≡ []
      → c.l2rcache ≡ []
      → cache_run h c ≡ some d
      → Holds k h d
  unfolding cache_run latest before_purge lookup
  cache_run-Holds k [] c d e f r = ground (arith, some-injective _ _ r)
  cache_run-Holds k (e ∷ h) c d a b r = elim (Option-cases (cache_run h c)) [
    | inl f ↦ absurd (none-ne-some _ (rw (f, cache_run) at r))
    | inr (c', f) ↦ stepped e c' (cache_run-Holds k h c c' a b f) (rw (f, cache_run) at r)
  ]
    where
      stepped :
          (e : CacheEvent) (c' : Cluster)
          → Holds k h c'
          → cache_step e c' ≡ some d
          → Holds k (e ∷ h) d
      stepped (answered cookie sender result cmd m) c' held g =
          answered-Holds k cookie sender result cmd m h c' d held g
      stepped purged c' held g = purged-Holds k h c' d held g

  -- Started with an empty cache, the program has for a cookie the latest answer to it that was
  -- followed by at most one run of the purge timer, and none if there is no such answer.
  pub cached_response-latest :
      (k : Str) (h : List CacheEvent) (c d : Cluster)
      → c.l1rcache ≡ []
      → c.l2rcache ≡ []
      → cache_run h c ≡ some d
      → cached_response k d ≡ (elim (latest k 1 h) [ none ↦ [] | some r ↦ r ])
  unfolding cached_response
  cached_response-latest k h c d a b r =
      let held = cache_run-Holds k h c d a b r in
      either (lookup k d.l1rcache) (lookup k d.l2rcache) (latest k 0 h) (before_purge k h) held.0
        held.1
      ∙ ap text_of (sym (latest-before_purge k h))
    where
      text_of : Option Str → Str
      text_of o = elim o [ none ↦ [] | some r ↦ r ]

      either :
          (x y x' y' : Option Str)
          → x ≡ x'
          → y ≡ y'
          → (elim x [ some r ↦ r | none ↦ elim y [ some r ↦ r | none ↦ [] ] ])
            ≡ text_of (or_else x' y')
      either x y none none e f = ground (arith, e, f)
      either x y none (some r) e f = ground (arith, e, f)
      either x y (some r) y' e f = ground (arith, e, f)
