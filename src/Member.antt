-- ===== src/Member.antt =====
-- rtp_cluster_member.go: one RTPproxy of a cluster, its status, the calls that it serves and its
-- cached statistics. What reaches the cluster through a callback is in Cluster.Events.
pub mod StatusText
pub mod Sessions
pub mod Usage
unfoldable pub use StatusText.*
use go_rtp_cluster.Base.{
  ℕ, ◌++◌, ◌∷◌, Bool, true, false, Option, none, some, [], ℤ, pos, Str, codes, ltb, ◌==◌, nat_eq,
  if◌then◌else◌, length,
}
use go_rtp_cluster.Base.Dict.{Dict, lookup, insert, erase, has}
use go_rtp_cluster.Externals.{Externals}

module _ ⦃E : Externals⦄ where
  open E use {Client, HostPort, Filter, Float}

  -- A callback is a flag: `on_state_change` and `on_active_update` are nil or the cluster's.
  pub record Member : Type 0 where
    pub client : Client
    pub name : Str
    pub status : Status
    pub capacity : ℤ
    pub weight : ℤ
    pub wan_address : Str
    pub lan_address : Str
    pub call_id_map : Dict Bool
    pub call_id_map_old : Dict Bool
    pub on_state_change : Bool
    pub on_active_update : Bool
    pub timer_runs : Bool
    pub asess_filtered : Filter
    pub cmd_out_address : Option HostPort
    pub stats_cache : Dict Str

  -- `NewRtp_cluster_member`; `none` is nil.
  unfoldable pub new_member : Str → Str → Str → Option HostPort → Option Member
  new_member name protocol address cmd_out_address =
      elim (E.client_opts (protocol ++ (b':' ∷ address)) cmd_out_address) [
        | none ↦ none
        | some opts ↦ some (record {
          client = E.new_client opts;
          name = name;
          status = active;
          capacity = pos 4000;
          weight = pos 100;
          wan_address = [];
          lan_address = [];
          call_id_map = [];
          call_id_map_old = [];
          on_state_change = false;
          on_active_update = false;
          timer_runs = false;
          asess_filtered = E.new_filter;
          cmd_out_address = cmd_out_address;
          stats_cache = [];
        })
      ]

  -- `Start`: the aging timer runs if the client starts.
  unfoldable pub start : Member → Member
  start m =
      let (c, ok) = E.start m.client in
      if ok then record m { client = c; timer_runs = true } else record m { client = c }

  unfoldable pub shut : Member → Member
  shut m = record m { client = E.shutdown m.client }

  abbrev pub is_online : Member → Bool
  is_online m = E.is_online m.client

  unfoldable pub stats_cache_get : Str → Member → Option Str
  stats_cache_get key m = lookup key m.stats_cache

  unfoldable pub stats_cache_set : Str → Str → Member → Member
  stats_cache_set key val m = record m { stats_cache = insert key val m.stats_cache }

  -- `isYours`: a call found in the old map only is moved to the new one.
  unfoldable pub is_yours : Str → Member → Member × Bool
  is_yours call_id m =
      if has call_id m.call_id_map
      then (m, true)
      else if has call_id m.call_id_map_old
      then (
        record m {
          call_id_map = insert call_id true m.call_id_map;
          call_id_map_old = erase call_id m.call_id_map_old;
        },
        true,
      )
      else (m, false)

  unfoldable pub bind_session : Str → ℕ → Member → Member
  bind_session call_id cmd_type m =
      if cmd_type == b'D'
      then record m { call_id_map = insert call_id true m.call_id_map }
      else record m { call_id_map_old = insert call_id true m.call_id_map_old }

  unfoldable pub unbind_session : Str → Member → Member
  unbind_session call_id m = record m {
    call_id_map = erase call_id m.call_id_map;
    call_id_map_old = insert call_id true m.call_id_map_old;
  }

  -- `call_id_map_aging`, which the timer runs.
  unfoldable pub call_id_map_aging : Member → Member
  call_id_map_aging m =
      if E.is_shut_down m.client
      then record m { timer_runs = false }
      else if ltb (length m.call_id_map) 1000
      then record m { call_id_map_old = [] }
      else record m { call_id_map_old = m.call_id_map; call_id_map = [] }

  unfoldable pub get_caputil : Member → Float
  get_caputil m = E.div (E.last_value m.asess_filtered) (E.of_int m.capacity)

  -- `Reconnect`: a configured local address wins over the caller's.
  unfoldable pub reconnect : Str → Option HostPort → Member → Member
  reconnect address bind_address m =
      let bind : Option HostPort = elim m.cmd_out_address [
        | none ↦ bind_address
        | some a ↦ some a
      ] in
      record m { client = E.reconnect address bind m.client }
