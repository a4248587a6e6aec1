-- ===== src/Externals.antt =====
-- What the program takes from elsewhere: the packages of github.com/sippy/go-b2bua (the RTPproxy
-- client, its commands and statistics, the recursive filter) and the float64 arithmetic of Go.
use go_rtp_cluster.Base.{ℕ, ◌≡◌, Bool, true, false, Option, List, ℤ, Str}

-- The options of a U or L command. The program reads and writes the named ones; `rest` is what
-- else the package keeps.
pub record UlOpts (Rest : Type 0) : Type 0 where
  pub to_tag : Str
  pub notify_socket : Str
  pub notify_tag : Str
  pub local_ip : Str
  pub destination_ip : Str
  pub rest : Rest

-- `rtp_proxy.Rtp_proxy_cmd`. `ul_opts` is read for the commands U and L only.
pub record Cmd (Rest : Type 0) : Type 0 where
  pub kind : ℕ
  pub call_id : Str
  pub ul_opts : UlOpts Rest
  pub command_opts : Str
  pub args : Str
  pub nretr : ℕ

pub record Externals : Type 1 where
  -- float64
  pub Float : Type 0
  pub of_int : ℤ → Float
  pub add : Float → Float → Float
  pub sub : Float → Float → Float
  pub mul : Float → Float → Float
  pub div : Float → Float → Float
  pub lt : Float → Float → Bool
  pub le : Float → Float → Bool
  -- `%f`
  pub float_string : Float → Str
  -- `rtp_proxy.Rtp_proxy_client_base`
  pub Client : Type 0
  pub Opts : Type 0
  pub HostPort : Type 0
  pub new_host_port : Str → Str → HostPort
  pub port_string : HostPort → Str
  pub host_port_string : HostPort → Str
  pub client_opts : Str → Option HostPort → Option Opts
  pub new_client : Opts → Client
  pub start : Client → Client × Bool
  pub shutdown : Client → Client
  pub go_online : Client → Client
  pub go_offline : Client → Client
  pub reconnect : Str → Option HostPort → Client → Client
  pub update_active : ℤ → ℤ → ℤ → ℤ → ℤ → Client → Client
  pub is_online : Client → Bool
  pub is_local : Client → Bool
  pub is_shut_down : Client → Bool
  pub wdnt_supported : Client → Bool
  pub address : Client → Str
  pub active_sessions : Client → ℤ
  pub sessions_created : Client → ℤ
  pub active_streams : Client → ℤ
  pub preceived : Client → ℤ
  pub ptransmitted : Client → ℤ
  pub rtpc_delay : Client → Float
  -- `rtp_proxy.Rtp_proxy_cmd`
  pub Rest : Type 0
  pub parse_cmd : Str → Option (Cmd Rest)
  pub cmd_string : Cmd Rest → Str
  pub get_str : UlOpts Rest → Str → Bool → Bool → Option Str
  -- `rtp_proxy.Rtpp_stats`
  pub Stats : Type 0
  pub new_stats : List Str → Stats
  pub set_verbose : Stats → Stats
  pub all_names : Stats → List Str
  pub parse_and_add : Str → Stats → Stats × Bool
  pub stats_string : Stats → Str
  -- `sippy_utils.FieldsN`
  pub fields_n : Str → ℕ → List Str
  -- `sippy_cli.CLIConnectionManager` on TCP, with its accept list (`none` is nil)
  pub Manager : Type 0
  pub new_tcp : Str → Option Manager
  pub manager_shutdown : Manager → Manager
  pub get_accept_list : Manager → Option (List Str)
  pub set_accept_list : List Str → Manager → Manager
  pub accept_list_append : Str → Manager → Manager
  pub accept_list_remove : Str → Manager → Manager
  -- `sippy_math.RecFilter`; the first two arguments of a new one are 0.5 and 0.0
  pub Filter : Type 0
  pub new_filter : Filter
  pub apply : Float → Filter → Filter
  pub last_value : Filter → Float

-- What the program relies on in the client: going offline puts it offline, going online leaves an
-- online client online, and statistics do not change its state.
pub record IsClient (E : Externals) : Type 0 where
  pub offline : (c : E.Client) → E.is_online (E.go_offline c) ≡ false
  pub online : (c : E.Client) → E.is_online c ≡ true → E.is_online (E.go_online c) ≡ true
  pub updated :
      (a b d f g : ℤ) (c : E.Client) → E.is_online (E.update_active a b d f g c) ≡ E.is_online c
