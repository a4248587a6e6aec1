-- ===== src/Cli/Modify.antt =====
-- The command `modify`: members are added, removed, paused and resumed.
use go_rtp_cluster.Base.{
  ℕ, Bool, ◌||◌, Option, none, some, List, [], ◌∷◌, ◌++◌, Str, codes, ◌==◌, nat_eq, str_eq,
  if◌then◌else◌, get_elem?,
}
use go_rtp_cluster.Base.Dict.{Dict, lookup, insert}
use go_rtp_cluster.Text.{split_on}
use go_rtp_cluster.Text.HostPort.{split_host_port}
use go_rtp_cluster.Text.Decimal.{atoi}
use go_rtp_cluster.Externals.{Externals}
use go_rtp_cluster.Member.{Member, new_member, active, suspended}
use go_rtp_cluster.Member.StatusText.{status_from_string}
use go_rtp_cluster.Cluster.{Cluster}
use go_rtp_cluster.Cluster.Pool.{rtpp_by_name}
use go_rtp_cluster.Cluster.Events.{add_member, bring_down, set_status}
use go_rtp_cluster.Cli.{Cli, Answer, say, Reaction, put_cluster, cluster_by_name}

-- The words `key=value`, in a map. A word without `=` is an index out of range.
unfoldable pub read_config : List Str → Dict Str → Option (Dict Str)
read_config [] m = some m
read_config (v ∷ vs) m = elim (split_on b'=' v) [
  | [] ↦ none
  | key ∷ rest ↦ elim rest [ [] ↦ none | val ∷ _ ↦ read_config vs (insert key val m) ]
]

-- `m[k]`, empty where the key is missing.
abbrev pub value : Str → Dict Str → Str
value k m = elim (lookup k m) [ none ↦ [] | some v ↦ v ]

abbrev pub is_udp : Str → Bool
is_udp protocol = protocol == codes "udp" || protocol == codes "udp6"

abbrev pub is_supported : Str → Bool
is_supported protocol = protocol == codes "unix" || is_udp protocol

-- The default port of an RTPproxy.
unfoldable pub with_port : Str → Str → Str
with_port protocol address =
    if is_udp protocol
    then elim (split_host_port address) [ none ↦ address ++ codes ":22222" | some _ ↦ address ]
    else address

abbrev error_with : Str → Str → List Answer
error_with what message = say (codes "ERROR: " ++ (what ++ message)) ∷ []

abbrev pub ok : List Answer
ok = say (codes "OK\n") ∷ []

module _ ⦃E : Externals⦄ where
  open E use {HostPort}

  unfoldable pub bind_address : Str → Option HostPort
  bind_address text = elim (split_host_port text) [
    | none ↦ none
    | some (ip, port) ↦ some (E.new_host_port ip port)
  ]

  -- The cluster after a command and its answers; `none` is a panic.
  abbrev pub Change : Type 0
  Change = Option (Cluster × List Answer)

  unfoldable pub set_lan : Dict Str → Member → Member
  set_lan m rtpp = elim (lookup (codes "lan_address") m) [
    | none ↦ rtpp
    | some a ↦ record rtpp { lan_address = a }
  ]

  unfoldable pub set_wan : Dict Str → Member → Member
  set_wan m rtpp = elim (lookup (codes "wan_address") m) [
    | none ↦ rtpp
    | some a ↦ record rtpp { wan_address = a }
  ]

  -- The new member gets its numbers and joins. A number that cannot be read is logged only.
  join : Dict Str → Member → Cluster → Change
  join m rtpp c = elim (atoi (value (codes "weight") m)) [
    | none ↦ some (c, [])
    | some weight ↦ elim (atoi (value (codes "capacity") m)) [
      | none ↦ some (c, [])
      | some capacity ↦ some (
        add_member
            (record rtpp {
              weight = weight;
              capacity = capacity;
              status = status_from_string (value (codes "status") m);
            })
            c,
        ok,
      )
    ]
  ]

  create : Dict Str → Cluster → Change
  unfolding join
  create m c =
      let protocol = value (codes "protocol") m in
      elim (new_member (value (codes "name") m) protocol
        (with_port protocol (value (codes "address") m))
        (bind_address (value (codes "cmd_out_address") m))) [
          | none ↦ none
          | some rtpp ↦ join m (set_lan m (set_wan m rtpp)) c
        ]

  -- `modify CLUSTER add`, given the map of its words. An unsupported protocol is logged only.
  unfoldable pub add_configured : Dict Str → Cluster → Change
  unfolding create
  add_configured m c = elim (rtpp_by_name (value (codes "name") m) c) [
    | some _ ↦ some (c, error_with (value (codes "name") m) (codes ": RTPproxy already exists\n"))
    | none ↦ if is_supported (value (codes "protocol") m) then create m c else some (c, [])
  ]

  modify_add : Str → Cluster → Change
  modify_add words c = elim (read_config (split_on b',' words) []) [
    | none ↦ none
    | some m ↦ add_configured m c
  ]

  abbrev removes : Str → Bool
  removes action = action == codes "remove" || action == codes "delete"

  -- `remove`, `delete`, `pause` and `resume` of a member.
  unfoldable pub modify_member : Str → Str → Cluster → Change
  modify_member action name c = elim (rtpp_by_name name c) [
    | none ↦ some (c, error_with name (codes ": RTPproxy not found\n"))
    | some (r, _) ↦
        if removes action
        then some (bring_down r c, ok)
        else some (set_status r (if action == codes "pause" then suspended else active) c, ok)
  ]

  -- The action and what is behind it, which an action reads whether it is there or not.
  unfoldable pub modify_cluster : Str → Option Str → Cluster → Change
  unfolding modify_add
  modify_cluster action argument c =
      if action == codes "add"
      then elim argument [ none ↦ none | some words ↦ modify_add words c ]
      else if removes action || action == codes "pause" || action == codes "resume"
      then elim argument [ none ↦ none | some name ↦ modify_member action name c ]
      else some (c, say (codes "ERROR: unsupported action: \"" ++ (action ++ codes "\"\n")) ∷ [])

  unfoldable pub modify_found : List Str → ℕ → Cli → Reaction
  modify_found parts p s = elim (get_elem? parts 2) [
    | none ↦ none
    | some action ↦ elim (modify_cluster action (get_elem? parts 3) (s.heap p)) [
      | none ↦ none
      | some (c, answers) ↦ some (put_cluster p c s, answers)
    ]
  ]

  -- The command `modify`, given its words, which are read whether they are there or not.
  unfoldable pub modify : List Str → Cli → Reaction
  unfolding modify_found
  modify parts s = elim (get_elem? parts 1) [
    | none ↦ none
    | some name ↦ elim (cluster_by_name name s) [
      | none ↦ some (s, error_with name (codes ": cluster not found\n"))
      | some (p, _) ↦ modify_found parts p s
    ]
  ]
