-- ===== src/Config/Reading.antt =====
-- `Read_cluster_config`, over the tokens that the XML decoder gives before it ends or fails.
use go_rtp_cluster.Base.{Bool, Option, none, some, List, [], ◌∷◌, ◌++◌, if◌then◌else◌}
use go_rtp_cluster.Config.{RtpCluster, RtpProxy, ValidateHandler, Token, new_validate_handler}
use go_rtp_cluster.Config.Tokens.{start_element, end_element}
use go_rtp_cluster.Config.Characters.{characters}

-- One token; the error of `Characters` is dropped.
unfoldable pub handle : Token → ValidateHandler → Option ValidateHandler
handle (Token.start_element name attrs) h = start_element name attrs h
handle (Token.end_element name) h = end_element name h
handle (Token.char_data content) h = elim (characters content h) [
  | none ↦ none
  | some (h', _) ↦ some h'
]
handle (Token.syntax_error e) h = some (record h { errors = h.errors ++ e ∷ [] })
handle (Token.tag_path_error e) h = some (record h { errors = h.errors ++ e ∷ [] })
handle Token.other h = some h

unfoldable pub handle_all : List Token → ValidateHandler → Option ValidateHandler
handle_all [] h = some h
handle_all (t ∷ ts) h = elim (handle t h) [ none ↦ none | some h' ↦ handle_all ts h' ]

-- What the debug line reads: the first proxy of the first cluster.
abbrev first_proxy : List RtpCluster → Option RtpProxy
first_proxy [] = none
first_proxy (c ∷ _) = elim c.rtp_proxies [ [] ↦ none | p ∷ _ ↦ some p ]

-- `Read_cluster_config`; `none` is a panic.
unfoldable pub read_cluster_config : Bool → List Token → Option (List RtpCluster)
read_cluster_config debug tokens = elim (handle_all tokens new_validate_handler) [
  | none ↦ none
  | some h ↦
      if debug
      then elim (first_proxy h.config) [ none ↦ none | some _ ↦ some h.config ]
      else some h.config
]
