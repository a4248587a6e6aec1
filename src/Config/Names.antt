-- ===== src/Config/Names.antt =====
-- The names of the clusters stay distinct while a configuration is read: what a change of one
-- cluster does to the names.
pub mod Handler
pub mod Contents
pub mod Reading
use go_rtp_cluster.Base.{
  ℕ, zero, suc, ◌≡◌, refl, ◌∙◌, sym, ap, if_cases, ℤ, get_elem?, length, Bool, true, false, str_dec,
  ◌&&◌, ◌||◌, not, Option, none, some, Option-cases, inl, inr, List, [], ◌∷◌, ◌++◌, map, arith, Str,
  codes, ◌==◌, str_eq, if◌then◌else◌,
}
use mathlib.Core.Path.{subst}
use go_rtp_cluster.Config.{
  RtpProxy, RtpCluster, ValidateHandler, Context, in_config, in_cluster, in_proxy, in_dnconfig,
  Token, new_cluster, new_proxy, new_validate_handler, new_disconnect_notify, update_at,
  with_cluster, with_proxy, with_notify, update_proxy, update_notify,
}
use go_rtp_cluster.Relay.{DisconnectNotify}
use go_rtp_cluster.Config.Tokens.{capacity_limit, start_element, end_element}
use go_rtp_cluster.Config.Characters.{
  str_elem, cluster_names, ConfigError, Result, failed, proxy_names, stored, done, characters,
  cluster_characters, proxy_characters, notify_characters,
}
use go_rtp_cluster.Config.Reading.{handle, handle_all, read_cluster_config}

-- No name but the empty one stands twice.
abbrev pub names_distinct : List Str → Bool
names_distinct [] = true
names_distinct (x ∷ xs) = (x == [] || not (str_elem x xs)) && names_distinct xs

test_sym : (s t : Str) → (s == t) ≡ false → (t == s) ≡ false
test_sym s t h = ground arith

neither : (a b : Bool) → (a || b) ≡ false → (a ≡ false) × (b ≡ false)
neither a b h = ground arith

one_more :
    (b e e' d d' : Bool)
    → (b ≡ false → e ≡ false → e' ≡ false)
    → (d ≡ true → d' ≡ true)
    → ((b || not e) && d) ≡ true
    → ((b || not e') && d') ≡ true
one_more b e e' d d' h k g = ground (arith, h, k)

first_free :
    (a a' e e' d : Bool) → e ≡ false → ((a' || e') && d) ≡ true → ((a || not e) && d) ≡ true
first_free a a' e e' d h k = ground arith

str_elem-snoc :
    (s t : Str) (xs : List Str)
    → (t == s) ≡ false
    → str_elem s xs ≡ false
    → str_elem s (xs ++ t ∷ []) ≡ false
str_elem-snoc s t [] h k = ground arith
str_elem-snoc s t (x ∷ xs) h k = ground (arith, str_elem-snoc s t xs)

pub names_distinct-snoc :
    (xs : List Str) → names_distinct xs ≡ true → names_distinct (xs ++ [] ∷ []) ≡ true
unfolding str_dec
names_distinct-snoc [] h = refl
names_distinct-snoc (x ∷ xs) h =
    one_more (x == []) _ _ _ _ (λ e. str_elem-snoc x [] xs (test_sym x [] e))
      (names_distinct-snoc xs) h

pub names-append :
    (cs ds : List RtpCluster) → cluster_names (cs ++ ds) ≡ cluster_names cs ++ cluster_names ds
names-append [] ds = refl
names-append (c ∷ cs) ds = ap (λ l. c.name ∷ l) (names-append cs ds)

-- A write that leaves the name alone.
pub names-update_at :
    (i : ℕ) (f : RtpCluster → RtpCluster) (cs : List RtpCluster)
    → ((c : RtpCluster) → (f c).name ≡ c.name)
    → cluster_names (update_at i f cs) ≡ cluster_names cs
names-update_at i f [] k = refl
names-update_at zero f (c ∷ cs) k = ap (λ n. n ∷ cluster_names cs) (k c)
names-update_at (suc i) f (c ∷ cs) k = ap (λ l. c.name ∷ l) (names-update_at i f cs k)

abbrev pub rename : Str → RtpCluster → RtpCluster
rename s c = record c { name = s }

str_elem-rename :
    (i : ℕ) (s t : Str) (cs : List RtpCluster)
    → (s == t) ≡ false
    → str_elem t (cluster_names cs) ≡ false
    → str_elem t (cluster_names (update_at i (rename s) cs)) ≡ false
str_elem-rename i s t [] h k = refl
str_elem-rename zero s t (c ∷ cs) h k = ground arith
str_elem-rename (suc i) s t (c ∷ cs) h k = ground (arith, str_elem-rename i s t cs)

-- A write of a name that no cluster has.
pub names_distinct-rename :
    (i : ℕ) (s : Str) (cs : List RtpCluster)
    → str_elem s (cluster_names cs) ≡ false
    → names_distinct (cluster_names cs) ≡ true
    → names_distinct (cluster_names (update_at i (rename s) cs)) ≡ true
names_distinct-rename i s [] h k = refl
names_distinct-rename zero s (c ∷ cs) h k =
    first_free (s == []) (c.name == []) _ _ _ (neither (c.name == s) _ h).1 k
names_distinct-rename (suc i) s (c ∷ cs) h k =
    one_more (c.name == []) _ _ _ _
      (λ _. str_elem-rename i s c.name cs (test_sym c.name s (neither _ _ h).0))
      (names_distinct-rename i s cs (neither (c.name == s) _ h).1) k
