-- ===== src/Cli/Loading.antt =====
-- What `main` and the command `reload` do with one cluster of the configuration: it is created,
-- its RTPproxies become members, and members that are configured no more are brought down.
pub mod Sweeping
pub mod Skipping
use go_rtp_cluster.Base.{
  ℕ, zero, suc, ◌+◌, ◌≡◌, Bool, true, false, Option, none, some, List, [], ◌∷◌, ◌++◌, Str, codes,
  ltb, leb, ◌==◌, nat_eq, str_eq, if◌then◌else◌, get_elem?, length, drop, elem,
}
use go_rtp_cluster.Externals.{Externals}
use go_rtp_cluster.Member.{Member, new_member, reconnect}
use go_rtp_cluster.Member.StatusText.{status_from_string}
use go_rtp_cluster.Cluster.{Cluster, put, all_members}
use go_rtp_cluster.Cluster.Pool.{rtpp_by_name}
use go_rtp_cluster.Cluster.Events.{add_member, bring_down}
use go_rtp_cluster.Cluster.Lifecycle.{World}
use go_rtp_cluster.Config.{RtpProxy}
use go_rtp_cluster.Cli.Modify.{is_supported, with_port, bind_address}

-- The progress of a handler: on with a value, returned early with what it has done, or a panic.
pub data Progress {ℓ} (A : Type ℓ) : Type ℓ where
  on : A → Progress A
  returned : A → Progress A
  panicked : Progress A

module _ ⦃E : Externals⦄ where
  unfoldable pub configured : RtpProxy → Member → Member
  configured p m = record m {
    weight = p.weight;
    capacity = p.capacity;
    wan_address = p.wan_address;
    lan_address = p.lan_address;
    status = status_from_string p.status;
  }

  -- A new member; `none` is a panic, where `NewRtp_cluster_member` gives nil.
  unfoldable pub load_new : RtpProxy → Cluster → Option Cluster
  load_new p c =
      elim (new_member p.name p.protocol (with_port p.protocol p.address)
        (bind_address p.cmd_out_address)) [
          | none ↦ none
          | some m ↦ some (add_member (configured p m) c)
        ]

  -- The loop of `main` over the proxies of a cluster.
  unfoldable pub load_proxies : List RtpProxy → Cluster → Progress Cluster
  load_proxies [] c = on c
  load_proxies (p ∷ ps) c =
      if is_supported p.protocol
      then elim (load_new p c) [ none ↦ panicked | some d ↦ load_proxies ps d ]
      else returned c

  -- A configured proxy that is a member already.
  unfoldable pub refresh : World → RtpProxy → Member → Member
  refresh w p m = configured p (
      reconnect (w.resolve p.protocol (with_port p.protocol p.address))
        (bind_address p.cmd_out_address)
        (record m { cmd_out_address = bind_address p.cmd_out_address }))

  -- One proxy of `reload`: the cluster and the pointer to the member.
  unfoldable pub reload_proxy : World → RtpProxy → Cluster → Option (Cluster × ℕ)
  reload_proxy w p c = elim (rtpp_by_name p.name c) [
    | some (r, _) ↦ some (put r (refresh w p (c.members r)) c, r)
    | none ↦ elim (load_new p c) [ none ↦ none | some d ↦ some (d, c.next) ]
  ]

  -- The loop of `reload` over the proxies of a cluster, with `new_rtpps`.
  unfoldable pub reload_proxies :
      World → List RtpProxy → Cluster × List ℕ → Progress (Cluster × List ℕ)
  reload_proxies w [] (c, new) = on (c, new)
  reload_proxies w (p ∷ ps) (c, new) =
      if is_supported p.protocol
      then elim (reload_proxy w p c) [
        | none ↦ panicked
        | some (d, r) ↦ reload_proxies w ps (d, new ++ r ∷ [])
      ]
      else returned (c, new)

  -- The array of `all_members` after the active list has changed: `all_members` appends to the
  -- active list, and so shares its array if that has room.
  unfoldable pub seen : Bool → List ℕ → Cluster → List ℕ
  seen shared view c = if shared then c.active ++ drop (length c.active) view else view

  -- The loop over `all_members`, with the array that it reads, the next index and the number of
  -- rounds left: who is not in `new_rtpps` is brought down.
  unfoldable pub sweep : Bool → List ℕ → ℕ → ℕ → List ℕ → Cluster → Cluster
  unfolding seen
  sweep shared new zero i view c = c
  sweep shared new (suc n) i view c = elim (get_elem? view i) [
    | none ↦ c
    | some r ↦ elim (elem r new) [
      | true ↦ sweep shared new n (suc i) view c
      | false ↦ sweep shared new n (suc i) (seen shared view (bring_down r c)) (bring_down r c)
    ]
  ]

  -- `all_members` of a cluster with an array of this capacity, swept.
  unfoldable pub sweep_members : ℕ → List ℕ → Cluster → Cluster
  sweep_members capacity new c =
      let view = all_members c in sweep (leb (length view) capacity) new (length view) 0 view c
