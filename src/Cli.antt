-- ===== src/Cli.antt =====
-- rtp_cluster_cli.go: the control interface, which lists the clusters and changes them. A cluster is
-- an object of the heap `heap`, and a pointer to it is its number. A command is one step.
pub mod Listing
pub mod Modify
pub mod Loading
pub mod Reload
pub mod Receive
pub mod Start
pub mod Main
pub mod Names
use go_rtp_cluster.Base.{
  ℕ, suc, ◌≡◌, Bool, true, false, Option, none, some, List, [], ◌∷◌, ◌++◌, Str, codes, ◌==◌, nat_eq,
  str_eq, if◌then◌else◌, get_elem?,
}
use go_rtp_cluster.Text.{fields, trim_space, split_n2}
use go_rtp_cluster.Externals.{Externals}
use go_rtp_cluster.Cluster.{Cluster}

-- What goes to the connection that a command came from.
pub data Answer : Type 0 where
  say : Str → Answer
  hang_up : Answer

module _ ⦃E : Externals⦄ where
  -- `Rtp_cluster_cli`
  pub record Cli : Type 0 where
    pub heap : ℕ → Cluster
    pub next : ℕ
    pub rtp_clusters : List ℕ

  -- A write through a pointer to a cluster.
  unfoldable pub put_cluster : ℕ → Cluster → Cli → Cli
  put_cluster p c s = record s { heap = λ q. if p == q then c else s.heap q }

  -- The state after a command and its answers; `none` is a panic.
  abbrev pub Reaction : Type 0
  Reaction = Option (Cli × List Answer)

  find_cluster : (ℕ → Cluster) → Str → ℕ → List ℕ → Option (ℕ × ℕ)
  find_cluster heap name idx [] = none
  find_cluster heap name idx (p ∷ ps) =
      let rest = find_cluster heap name (suc idx) ps in
      if (heap p).name == name then some (p, idx) else rest

  -- `cluster_by_name`: the first cluster of that name and its place.
  unfoldable pub cluster_by_name : Str → Cli → Option (ℕ × ℕ)
  unfolding find_cluster
  cluster_by_name name s = find_cluster s.heap name 0 s.rtp_clusters

  -- `append_cluster`
  unfoldable pub append_cluster : ℕ → Cli → Cli
  append_cluster p s = record s { rtp_clusters = s.rtp_clusters ++ p ∷ [] }
