-- ===== src/Tests/Toy.antt =====
-- A stand-in for the external packages, and a cluster of three members.
use go_rtp_cluster.Base.{
  ℕ, ◌*◌, refl, Bool, true, false, Option, none, some, List, [], ◌∷◌, ◌++◌, ℤ, pos, ◌+ℤ◌, ◌-ℤ◌,
  ltb_ℤ, not, Str, codes, ◌==◌, nat_eq, if◌then◌else◌, arith,
}
use go_rtp_cluster.Base.Int.{pos_part}
use go_rtp_cluster.Text.Decimal.{itoa}
use go_rtp_cluster.Text.{fields, split_n2}
use go_rtp_cluster.Externals.{Externals, IsClient, Cmd, UlOpts}
use go_rtp_cluster.Member.{Member, active}
use go_rtp_cluster.Relay.{Relay}
use go_rtp_cluster.Cluster.{Cluster, Broadcast, unix}
use go_rtp_cluster.Cluster.Invariant.{Inv}
use go_rtp_cluster.Cluster.Lifecycle.{World}

pub record ToyClient : Type 0 where
  pub online : Bool
  pub sessions : ℤ
  pub addr : Str

abbrev pub no_opts : UlOpts (Unit {0})
no_opts = record {
  to_tag = [];
  notify_socket = [];
  notify_tag = [];
  local_ip = [];
  destination_ip = [];
  rest = tt;
}

-- A letter, a space and a call.
abbrev pub toy_parse : Str → Option (Cmd (Unit {0}))
toy_parse [] = none
toy_parse (k ∷ []) = none
toy_parse (k ∷ _ ∷ call) = some (record {
  kind = k;
  call_id = call;
  ul_opts = no_opts;
  command_opts = [];
  args = [];
  nretr = 0;
})

instance abbrev pub toy : Externals
toy = record {
  Client = ToyClient;
  Opts = Unit {0};
  HostPort = Str;
  new_host_port = λ host port. host ++ (b':' ∷ port);
  port_string = λ a. a;
  host_port_string = λ a. a;
  client_opts = λ s a. some tt;
  new_client = λ o. record { online = false; sessions = pos 0; addr = [] };
  start = λ c. (record c { online = true }, true);
  shutdown = λ c. record c { online = false };
  go_online = λ c. record c { online = true };
  go_offline = λ c. record c { online = false };
  reconnect = λ s a c. record c { addr = s };
  update_active = λ n a b d e c. record c { sessions = n };
  is_online = λ c. c.online;
  is_local = λ c. false;
  is_shut_down = λ c. false;
  wdnt_supported = λ c. true;
  address = λ c. c.addr;
  active_sessions = λ c. c.sessions;
  sessions_created = λ c. pos 0;
  active_streams = λ c. pos 0;
  preceived = λ c. pos 0;
  ptransmitted = λ c. pos 0;
  rtpc_delay = λ c. pos 0;
  Rest = Unit {0};
  parse_cmd = toy_parse;
  cmd_string = λ cmd. cmd.kind ∷ 32 ∷ cmd.call_id;
  get_str = λ o call a b. some call;
  Stats = List Str;
  new_stats = λ names. names;
  set_verbose = λ s. s;
  all_names = λ s. s;
  parse_and_add = λ s t. (s ∷ t, true);
  stats_string = λ s. elim s [ [] ↦ [] | t ∷ _ ↦ t ];
  fields_n = λ s n. if n == 2 then split_n2 s else fields s;
  Manager = List Str;
  new_tcp = λ a. some [];
  manager_shutdown = λ m. [];
  get_accept_list = λ m. some m;
  set_accept_list = λ l m. l;
  accept_list_append = λ a m. m ++ a ∷ [];
  accept_list_remove = λ a m. m;
  Float = ℤ;
  of_int = λ n. n;
  add = ◌+ℤ◌;
  sub = ◌-ℤ◌;
  mul = λ a b. pos (pos_part a * pos_part b);
  div = λ a b. pos 0;
  lt = ltb_ℤ;
  le = λ a b. not (ltb_ℤ b a);
  float_string = itoa;
  Filter = ℤ;
  new_filter = pos 0;
  apply = λ a f. a;
  last_value = λ f. f;
}

pub toy-IsClient : IsClient toy
toy-IsClient = record { offline = λ c. refl; online = λ c h. refl; updated = λ a b d f g c. refl }

-- A member of public address 1.2.3.4 and private address 10.0.0.1.
abbrev pub member : Bool → Member
member up = record {
  client = record { online = up; sessions = pos 3; addr = codes "10.0.0.1:22222" };
  name = codes "P";
  status = active;
  capacity = pos 4000;
  weight = pos 100;
  wan_address = codes "1.2.3.4";
  lan_address = codes "10.0.0.1";
  call_id_map = [];
  call_id_map_old = [];
  on_state_change = true;
  on_active_update = false;
  timer_runs = true;
  asess_filtered = pos 0;
  cmd_out_address = none;
  stats_cache = [];
}

abbrev pub blank_broadcast : Broadcast
blank_broadcast = record {
  bcount = pos 0;
  ecount = pos 0;
  nparts = pos 0;
  results = [];
  clim = unix 0;
  cmd = record {
    kind = 0;
    call_id = [];
    ul_opts = no_opts;
    command_opts = [];
    args = [];
    nretr = 0;
  };
  sobj = none;
  rtpp = none;
}

-- Members 0 and 1 are online, and member 2 is offline.
abbrev pub trio : Cluster
trio = record {
  name = codes "C";
  address = codes "/tmp/c.sock";
  active = 0 ∷ 1 ∷ [];
  pending = 2 ∷ [];
  members = λ r. if r == 2 then member false else member true;
  next = 3;
  server_runs = true;
  purge_runs = true;
  commands_inflight = [];
  l1rcache = [];
  l2rcache = [];
  dnrelay = none;
  capacity_limit_soft = false;
  broadcasts = λ b. blank_broadcast;
  next_broadcast = 0;
}

pub trio-Inv : Inv trio
trio-Inv = record {
  active_once = ground arith;
  pending_once = ground arith;
  apart = λ r h. ground arith;
  allocated = λ r h. ground arith;
  up = λ r h. ground arith;
  down = λ r h. ground arith;
  wired = λ r h. ground arith;
}

-- A relay of the sockets under unix:/r with no worker yet.
abbrev pub relay : Relay
relay = record {
  clim = [];
  workers = some [];
  dest_sprefix = codes "unix:/r";
  in_address = codes "1.1.1.1:9";
}

abbrev pub command_of : ℕ → Str → Cmd (Unit {0})
command_of kind call = record {
  kind = kind;
  call_id = call;
  ul_opts = no_opts;
  command_opts = [];
  args = [];
  nretr = 0;
}

-- What the operating system says to the start of a server.
abbrev pub host : World
host = record {
  server_error = λ protocol address. none;
  split_error = λ address. address;
  resolve = λ protocol address. address;
  capacity = λ p. 8;
  blank = λ r. member false;
  blank_broadcasts = λ b. blank_broadcast;
}
