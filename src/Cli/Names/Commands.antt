-- ===== src/Cli/Names/Commands.antt =====
-- The names of the members under the commands `ls` and `modify`.

use go_rtp_cluster.Base.{
  ℕ, ◌≡◌, refl, ◌||◌, Option, none, some, arith, List, [], ◌∷◌, Str, codes, ◌==◌, nat_eq, str_eq,
  if_cases, get_elem?,
}
use go_rtp_cluster.Base.Dict.{Dict}
use go_rtp_cluster.Text.{split_on}
use go_rtp_cluster.Text.Decimal.{atoi}
use go_rtp_cluster.Externals.{Externals}
use go_rtp_cluster.Member.{Member, new_member}
use go_rtp_cluster.Cluster.{Cluster}
use go_rtp_cluster.Cluster.Pool.{rtpp_by_name}
use go_rtp_cluster.Cluster.Names.{UniqueNames, bring_down-UniqueNames, set_status-UniqueNames}
use go_rtp_cluster.Cluster.Names.Joining.{add_member-UniqueNames}
use go_rtp_cluster.Cli.{Cli, Reaction, put_cluster, cluster_by_name}
use go_rtp_cluster.Cli.Listing.{ls}
use go_rtp_cluster.Cli.Modify.{
  Change, value, read_config, add_configured, set_lan, set_wan, modify_member, modify_cluster,
  modify, is_supported,
}
use go_rtp_cluster.Cli.Loading.{}
use go_rtp_cluster.Cli.Reload.{}
use go_rtp_cluster.Cli.Names.{sorted-UniqueNames, new_member_name}

module _ ⦃E : Externals⦄ where
  abbrev pub AllUnique : Cli → Type 0
  AllUnique s = (p : ℕ) → UniqueNames (s.heap p)

  abbrev pub KeptReaction : Reaction → Type 0
  KeptReaction none = Unit
  KeptReaction (some (s, _)) = AllUnique s

  abbrev KeptChange : Change → Type 0
  KeptChange none = Unit
  KeptChange (some (c, _)) = UniqueNames c

  pub put_cluster-AllUnique :
      (p : ℕ) (c : Cluster) (s : Cli) → AllUnique s → UniqueNames c → AllUnique (put_cluster p c s)
  unfolding put_cluster
  put_cluster-AllUnique p c s all v q = if_cases UniqueNames (p == q) (λ _. v) (λ _. all q)

  -- A result that is there, or a panic or an early answer.
  pub option-Kept {ℓ} :
      {A : Type ℓ} (o : Option A) (x : Reaction) (g : A → Reaction)
      → KeptReaction x
      → ((a : A) → o ≡ some a → KeptReaction (g a))
      → KeptReaction (elim o [ none ↦ x | some a ↦ g a ])
  option-Kept none x g p k = p
  option-Kept (some a) x g p k = k a refl

  option-KeptChange {ℓ} :
      {A : Type ℓ} (o : Option A) (x : Change) (g : A → Change)
      → (o ≡ none → KeptChange x)
      → ((a : A) → o ≡ some a → KeptChange (g a))
      → KeptChange (elim o [ none ↦ x | some a ↦ g a ])
  option-KeptChange none x g p k = p refl
  option-KeptChange (some a) x g p k = k a refl

  module _ (s : Cli) (all : AllUnique s) where
    pub ls-Kept : (parts : List Str) → KeptReaction (ls parts s)
    unfolding ls
    ls-Kept [] = tt
    ls-Kept (_ ∷ []) = all
    ls-Kept (_ ∷ name ∷ _) =
        option-Kept (cluster_by_name name s) _ _ all
          (λ (p, idx) _. put_cluster-AllUnique p _ s all (sorted-UniqueNames (s.heap p) (all p)))

  module _ (c : Cluster) (v : UniqueNames c) where
    addresses_name : (m : Dict Str) (rtpp : Member) → (set_lan m (set_wan m rtpp)).name ≡ rtpp.name
    unfolding set_lan set_wan
    addresses_name m rtpp = ground arith

    add_configured-Kept : (m : Dict Str) → KeptChange (add_configured m c)
    unfolding add_configured
    add_configured-Kept m =
        option-KeptChange (rtpp_by_name (value (codes "name") m) c) _ _
          (λ free.
            if_cases KeptChange (is_supported (value (codes "protocol") m))
              (λ _.
                option-KeptChange (new_member _ _ _ _) _ _ (λ _. tt)
                  (λ rtpp made.
                    option-KeptChange (atoi (value (codes "weight") m)) _ _ (λ _. v)
                      (λ weight _.
                        option-KeptChange (atoi (value (codes "capacity") m)) _ _ (λ _. v)
                          (λ capacity _.
                            add_member-UniqueNames _ c
                              (rw (addresses_name m rtpp, new_member_name _ _ _ _ rtpp made) free)
                              v))))
              (λ _. v))
          (λ _ _. v)

    modify_member-Kept : (action name : Str) → KeptChange (modify_member action name c)
    unfolding modify_member
    modify_member-Kept action name =
        option-KeptChange (rtpp_by_name name c) _ _ (λ _. v)
          (λ (r, i) _.
            if_cases KeptChange (action == codes "remove" || action == codes "delete")
              (λ _. bring_down-UniqueNames r c v) (λ _. set_status-UniqueNames r _ c v))

    modify_cluster-Kept :
        (action : Str) (argument : Option Str) → KeptChange (modify_cluster action argument c)
    unfolding modify_cluster
    modify_cluster-Kept action argument =
        if_cases KeptChange (action == codes "add")
          (λ _.
            option-KeptChange argument _ _ (λ _. tt)
              (λ words _.
                option-KeptChange (read_config (split_on b',' words) []) _ _ (λ _. tt)
                  (λ m _. add_configured-Kept m)))
          (λ _.
            if_cases KeptChange
              (action == codes "remove"
                || action == codes "delete"
                || action == codes "pause"
                || action == codes "resume")
              (λ _.
                option-KeptChange argument _ _ (λ _. tt) (λ name _. modify_member-Kept action name))
              (λ _. v))

  module _ (s : Cli) (all : AllUnique s) where
    pub modify-Kept : (parts : List Str) → KeptReaction (modify parts s)
    unfolding modify
    modify-Kept parts = option-Kept (get_elem? parts 1) _ _ tt (λ name _.
        option-Kept (cluster_by_name name s) _ _ all (λ (p, idx) _.
          option-Kept (get_elem? parts 2) _ _ tt (λ action _.
            changed p _ (modify_cluster-Kept (s.heap p) (all p) action (get_elem? parts 3)))))
      where
        changed :
            (p : ℕ) (o : Change)
            → KeptChange o
            → KeptReaction
                (elim o [ none ↦ none | some (c, answers) ↦ some (put_cluster p c s, answers) ])
        changed p none k = tt
        changed p (some (c, answers)) k = put_cluster-AllUnique p c s all k
