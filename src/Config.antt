-- ===== src/Config.antt =====
-- rtp_cluster_config.go: the configuration of the clusters, and the handler that builds it from the
-- tokens of an XML file. A pointer to a cluster is its index in `config`, which only grows; a
-- pointer to a proxy is the index of its cluster with its own index there. The handler's notify
-- configuration is always the one of the cluster that it was made for, and is given by its index.
pub mod Tokens
pub mod Characters
pub mod Reading
pub mod Names
pub mod Failures
pub mod RoundTrip
pub mod Writing
use go_rtp_cluster.Base.{
  ℕ, zero, suc, ◌≡◌, Bool, true, false, Option, none, some, List, [], ◌∷◌, ℤ, pos, Str, codes, ◌==◌,
  str_eq, if◌then◌else◌,
}
use go_rtp_cluster.Relay.{DisconnectNotify}

pub record RtpProxy : Type 0 where
  pub name : Str
  pub protocol : Str
  pub address : Str
  pub weight : ℤ
  pub capacity : ℤ
  pub status : Str
  pub wan_address : Str
  pub lan_address : Str
  pub cmd_out_address : Str

-- `NewRtpProxy`
abbrev pub new_proxy : RtpProxy
new_proxy = record {
  name = [];
  protocol = codes "UDP";
  address = codes "127.0.0.1:22222";
  weight = pos 100;
  capacity = pos 4000;
  status = codes "ACTIVE";
  wan_address = [];
  lan_address = [];
  cmd_out_address = [];
}

pub record RtpCluster : Type 0 where
  pub name : Str
  pub protocol : Str
  pub address : Str
  pub rtp_proxies : List RtpProxy
  pub dnconfig : Option DisconnectNotify
  pub capacity_limit_soft : Bool

-- `NewRtpCluster`
abbrev pub new_cluster : RtpCluster
new_cluster = record {
  name = [];
  protocol = codes "UDP";
  address = codes "192.168.56.2:44";
  rtp_proxies = [];
  dnconfig = none;
  capacity_limit_soft = false;
}

-- `NewDisconnectNotify`
abbrev pub new_disconnect_notify : Str → DisconnectNotify
new_disconnect_notify section_name = record {
  section_name = section_name;
  in_address = [];
  dest_sprefix = [];
}

-- The elements that the handler is inside of.
pub data Context : Type 0 where
  in_config in_cluster in_proxy in_dnconfig : Context

-- `ValidateHandler`; the last element of `ctx` comes first.
pub record ValidateHandler : Type 0 where
  pub config : List RtpCluster
  pub rtp_cluster : Option ℕ
  pub rtpproxy : Option (ℕ × ℕ)
  pub element : Str
  pub errors : List Str
  pub dnconfig : Option ℕ
  pub ctx : List Context

-- `NewValidateHandler`
abbrev pub new_validate_handler : ValidateHandler
new_validate_handler = record {
  config = [];
  rtp_cluster = none;
  rtpproxy = none;
  element = [];
  errors = [];
  dnconfig = none;
  ctx = [];
}

-- The tokens of package encoding/xml: `other` are comments, directives and instructions.
pub data Token : Type 0 where
  start_element : Str → List (Str × Str) → Token
  end_element char_data syntax_error tag_path_error : Str → Token
  other : Token

-- A write through a pointer.
abbrev pub update_at {ℓ} : {A : Type ℓ} → ℕ → (A → A) → List A → List A
update_at i f [] = []
update_at zero f (x ∷ xs) = f x ∷ xs
update_at (suc i) f (x ∷ xs) = x ∷ update_at i f xs

-- Writes to the handler's cluster, proxy and notify configuration, which must not be nil.
unfoldable pub with_cluster : (RtpCluster → RtpCluster) → ValidateHandler → Option ValidateHandler
with_cluster f h = elim h.rtp_cluster [
  | none ↦ none
  | some i ↦ some (record h { config = update_at i f h.config })
]

abbrev pub update_proxy : ℕ → (RtpProxy → RtpProxy) → RtpCluster → RtpCluster
update_proxy j f c = record c { rtp_proxies = update_at j f c.rtp_proxies }

unfoldable pub with_proxy : (RtpProxy → RtpProxy) → ValidateHandler → Option ValidateHandler
with_proxy f h = elim h.rtpproxy [
  | none ↦ none
  | some (i, j) ↦ some (record h { config = update_at i (update_proxy j f) h.config })
]

abbrev pub update_notify : (DisconnectNotify → DisconnectNotify) → RtpCluster → RtpCluster
update_notify f c = record c { dnconfig = elim c.dnconfig [ none ↦ none | some d ↦ some (f d) ] }

unfoldable pub with_notify :
    (DisconnectNotify → DisconnectNotify) → ValidateHandler → Option ValidateHandler
with_notify f h = elim h.dnconfig [
  | none ↦ none
  | some i ↦ some (record h { config = update_at i (update_notify f) h.config })
]
