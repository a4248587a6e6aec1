-- ===== src/Cli/Listing/Sorting.antt =====
-- The order in which `ls` leaves the active list.
use go_rtp_cluster.Base.{
  ℕ, not, some, ◌+◌, ◌≡◌, refl, ◌∙◌, ap, Bool, true, false, List, [], ◌∷◌, arith, if◌then◌else◌,
  if_cases, ◌==◌, nat_eq, Str, ◌&&◌,
}
use go_rtp_cluster.Text.{str_lt}
use go_rtp_cluster.Externals.{Externals}
use go_rtp_cluster.Member.{Member}
use go_rtp_cluster.Cluster.{Cluster}
use go_rtp_cluster.Cli.{Cli, Answer, put_cluster, cluster_by_name}
use go_rtp_cluster.Cli.Listing.{insert_by_name, sort_by_name, list_cluster, ls}

str_lt-asym : (s t : Str) → str_lt s t ≡ true → str_lt t s ≡ false
unfolding str_lt
str_lt-asym s [] h = ground arith
str_lt-asym [] (b ∷ t) h = refl
str_lt-asym (a ∷ s) (b ∷ t) h = ground (arith, str_lt-asym s t)

-- How often a number stands in a list.
abbrev pub occurrences : ℕ → List ℕ → ℕ
occurrences q [] = 0
occurrences q (x ∷ xs) = (if x == q then 1 else 0) + occurrences q xs

module _ ⦃E : Externals⦄ where
  -- No member has a lesser name than the one in front of it.
  abbrev pub starts_after : (ℕ → Member) → ℕ → List ℕ → Bool
  starts_after members r [] = true
  starts_after members r (q ∷ qs) = not (str_lt (members q).name (members r).name)

  abbrev pub is_sorted : (ℕ → Member) → List ℕ → Bool
  is_sorted members [] = true
  is_sorted members (r ∷ rs) = starts_after members r rs && is_sorted members rs

  insert_by_name-occurrences :
      (members : ℕ → Member) (q r : ℕ) (rs : List ℕ)
      → occurrences q (insert_by_name members r rs) ≡ (if r == q then 1 else 0) + occurrences q rs
  unfolding insert_by_name
  insert_by_name-occurrences members q r [] = refl
  insert_by_name-occurrences members q r (x ∷ xs) =
      ground (arith, insert_by_name-occurrences members q r xs)

  sort_by_name-occurrences :
      (members : ℕ → Member) (q : ℕ) (rs : List ℕ)
      → occurrences q (sort_by_name members rs) ≡ occurrences q rs
  unfolding sort_by_name
  sort_by_name-occurrences members q [] = refl
  sort_by_name-occurrences members q (r ∷ rs) =
      insert_by_name-occurrences members q r (sort_by_name members rs)
      ∙ ap (λ n. (if r == q then 1 else 0) + n) (sort_by_name-occurrences members q rs)

  inserted_after :
      (members : ℕ → Member) (p r : ℕ) (rs : List ℕ)
      → str_lt (members p).name (members r).name ≡ true
      → starts_after members p rs ≡ true
      → starts_after members p (insert_by_name members r rs) ≡ true
  unfolding insert_by_name
  inserted_after members p r [] h f = rw (str_lt-asym _ _ h) refl
  inserted_after members p r (q ∷ qs) h f =
      if_cases (λ l. starts_after members p l ≡ true) (str_lt (members q).name (members r).name)
        (λ _. f) (λ _. rw (str_lt-asym _ _ h) refl)

  insert_by_name-sorted :
      (members : ℕ → Member) (r : ℕ) (rs : List ℕ)
      → is_sorted members rs ≡ true
      → is_sorted members (insert_by_name members r rs) ≡ true
  unfolding insert_by_name
  insert_by_name-sorted members r [] h = refl
  insert_by_name-sorted members r (q ∷ qs) h =
      if_cases (λ l. is_sorted members l ≡ true) (str_lt (members q).name (members r).name)
        (λ lt.
          both (inserted_after members q r qs lt (parts h).0)
            (insert_by_name-sorted members r qs (parts h).1))
        (λ ge. both (rw ge refl) h)
    where
      both : {a b : Bool} → a ≡ true → b ≡ true → (a && b) ≡ true
      both e f = rw (e, f) refl

      parts : {a b : Bool} → (a && b) ≡ true → (a ≡ true) × (b ≡ true)
      parts {a = true} h = (refl, h)
      parts {a = false} h = ground arith

  sort_by_name-sorted :
      (members : ℕ → Member) (rs : List ℕ) → is_sorted members (sort_by_name members rs) ≡ true
  unfolding sort_by_name
  sort_by_name-sorted members [] = refl
  sort_by_name-sorted members (r ∷ rs) =
      insert_by_name-sorted members r (sort_by_name members rs) (sort_by_name-sorted members rs)

  abbrev sorted : Cluster → Cluster
  sorted c = record c { active = sort_by_name c.members c.active }

  put_here : (p : ℕ) (c : Cluster) (s : Cli) → (put_cluster p c s).heap p ≡ c
  unfolding put_cluster
  put_here p c s = ground arith

  list_cluster_lem :
      (p i : ℕ) (s : Cli)
      → (t : Cli) × (answers : List Answer) × (list_cluster p i s ≡ some (t, answers))
        × (is_sorted (s.heap p).members (t.heap p).active ≡ true)
        × ((q : ℕ) → occurrences q (t.heap p).active ≡ occurrences q (s.heap p).active)
        × ((t.heap p).members ≡ (s.heap p).members)
  unfolding list_cluster
  list_cluster_lem p i s = (
    put_cluster p (sorted (s.heap p)) s,
    _,
    refl,
    rw here (sort_by_name-sorted (s.heap p).members (s.heap p).active),
    λ q. rw here (sort_by_name-occurrences (s.heap p).members q (s.heap p).active),
    rw here refl,
  )
    where
      here : (put_cluster p (sorted (s.heap p)) s).heap p ≡ sorted (s.heap p)
      here = put_here p (sorted (s.heap p)) s

  -- `ls` with the name of a cluster leaves its active list sorted by the names of the members, with
  -- every member in it as often as before, and changes no state of a member.
  pub ls-sort_by_name :
      (word name : Str) (p i : ℕ) (s : Cli)
      → cluster_by_name name s ≡ some (p, i)
      → (t : Cli) × (answers : List Answer) × (ls (word ∷ name ∷ []) s ≡ some (t, answers))
        × (is_sorted (s.heap p).members (t.heap p).active ≡ true)
        × ((q : ℕ) → occurrences q (t.heap p).active ≡ occurrences q (s.heap p).active)
        × ((t.heap p).members ≡ (s.heap p).members)
  unfolding ls
  ls-sort_by_name word name p i s e =
      let (t, answers, f, order, same, kept) = list_cluster_lem p i s in
      (t, answers, rw (e, ls) f, order, same, kept)
