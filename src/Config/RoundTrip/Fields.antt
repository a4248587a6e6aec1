-- ===== src/Config/RoundTrip/Fields.antt =====
-- The elements with the values of a proxy.
use go_rtp_cluster.Base.{
  sym, ◌≡◌, refl, ◌∙◌, ap, true, false, ◌||◌, none, some, if◌then◌else◌, List, [], ◌∷◌, ◌++◌, Str,
  codes, ◌==◌, str_eq, str_dec, ℤ, ltb_ℤ, pos,
}
use go_rtp_cluster.Text.{to_lower}
use go_rtp_cluster.Text.Decimal.{atoi}
use go_rtp_cluster.Config.{RtpProxy, RtpCluster, ValidateHandler, Token}
use go_rtp_cluster.Config.Tokens.{start_element, end_element}
use go_rtp_cluster.Config.Characters.{
  characters, proxy_characters, proxy_name, weight_characters, capacity_characters, str_elem,
  proxy_names, is_protocol, proxy_name, weight_characters, not_a_weight, not_a_capacity,
}
use go_rtp_cluster.Config.Reading.{handle_all}
use go_rtp_cluster.Config.RoundTrip.{
  field, get_elem-last, stored_lem, checked_lem, free_lem, inside, with_proxy-inside, Stores,
  field_lem,
}
use go_rtp_cluster.Config.RoundTrip.Values.{is_status, lower_protocol, lower_status}

-- An element that is left out where its text is empty.
abbrev pub optional : Str → Str → Str → List Token
optional name [] gap = []
optional name (b ∷ content) gap = field name (b ∷ content) gap

module _ (h : ValidateHandler) (pre : List RtpCluster) (c : RtpCluster) where
  optional_lem :
      (name content gap : Str) (rest : List Token) (f : RtpProxy → RtpProxy) (p : RtpProxy)
      → (content ≡ [] → f p ≡ p)
      → start_element name [] (inside h pre c [] p) ≡ some (inside h pre c name p)
      → end_element name (inside h pre c name (f p)) ≡ some (inside h pre c [] (f p))
      → Stores h pre c name content f p
      → handle_all (optional name content gap ++ rest) (inside h pre c [] p)
        ≡ handle_all rest (inside h pre c [] (f p))
  optional_lem name [] gap rest f p same a b s =
      ap (λ (q : RtpProxy). handle_all rest (inside h pre c [] q)) (sym (same refl))
  optional_lem name (d ∷ content) gap rest f p same a b s =
      field_lem h pre c [] name (d ∷ content) gap rest f p a b s

  address_Stores :
      (content : Str) (p : RtpProxy)
      → Stores h pre c (codes "address") content (λ q. record q { address = content }) p
  unfolding characters proxy_characters str_dec
  address_Stores content p = (
    none,
    rw (with_proxy-inside h pre c (codes "address") (λ q. record q { address = content }) p) refl,
  )

  wan_address_Stores :
      (content : Str) (p : RtpProxy)
      → Stores h pre c (codes "wan_address") content (λ q. record q { wan_address = content }) p
  unfolding characters proxy_characters str_dec
  wan_address_Stores content p = (
    none,
    rw (with_proxy-inside h pre c (codes "wan_address") (λ q. record q { wan_address = content }) p)
        refl,
  )

  lan_address_Stores :
      (content : Str) (p : RtpProxy)
      → Stores h pre c (codes "lan_address") content (λ q. record q { lan_address = content }) p
  unfolding characters proxy_characters str_dec
  lan_address_Stores content p = (
    none,
    rw (with_proxy-inside h pre c (codes "lan_address") (λ q. record q { lan_address = content }) p)
        refl,
  )

  cmd_out_address_Stores :
      (content : Str) (p : RtpProxy)
      → Stores h pre c
          (codes "cmd_out_address")
          content
          (λ q. record q { cmd_out_address = content })
          p
  unfolding characters proxy_characters str_dec
  cmd_out_address_Stores content p = (
    none,
    rw
        (with_proxy-inside h pre c (codes "cmd_out_address")
          (λ q. record q { cmd_out_address = content }) p)
        refl,
  )

  protocol_Stores :
      (content : Str) (p : RtpProxy)
      → to_lower content ≡ content
      → is_protocol content ≡ true
      → Stores h pre c (codes "protocol") content (λ q. record q { protocol = content }) p
  unfolding characters proxy_characters str_dec
  protocol_Stores content p low ok = (
    none,
    rw low (
        stored_lem _ _ _ _ ok
          (with_proxy-inside h pre c (codes "protocol") (λ q. record q { protocol = content }) p)),
  )

  status_Stores :
      (content : Str) (p : RtpProxy)
      → to_lower content ≡ content
      → (content == codes "suspended" || content == codes "active") ≡ true
      → Stores h pre c (codes "status") content (λ q. record q { status = content }) p
  unfolding characters proxy_characters str_dec
  status_Stores content p low ok = (
    none,
    rw low (
        stored_lem _ _ _ _ ok
          (with_proxy-inside h pre c (codes "status") (λ q. record q { status = content }) p)),
  )

  weight_Stores :
      (content : Str) (n : ℤ) (p : RtpProxy)
      → atoi content ≡ some n
      → Stores h pre c (codes "weight") content (λ q. record q { weight = n }) p
  unfolding characters proxy_characters weight_characters str_dec
  weight_Stores content n p e = (
    if ltb_ℤ (pos 0) n then none else some (not_a_weight content),
    rw (e, weight_characters)
        (checked_lem _ _ _ _
          (with_proxy-inside h pre c (codes "weight") (λ q. record q { weight = n }) p)),
  )

  capacity_Stores :
      (content : Str) (n : ℤ) (p : RtpProxy)
      → atoi content ≡ some n
      → Stores h pre c (codes "capacity") content (λ q. record q { capacity = n }) p
  unfolding characters proxy_characters capacity_characters str_dec
  capacity_Stores content n p e = (
    if ltb_ℤ (pos 0) n then none else some (not_a_capacity content),
    rw (e, capacity_characters)
        (checked_lem _ _ _ _
          (with_proxy-inside h pre c (codes "capacity") (λ q. record q { capacity = n }) p)),
  )

  name_Stores :
      (content : Str) (p : RtpProxy)
      → str_elem content (proxy_names (c.rtp_proxies ++ p ∷ [])) ≡ false
      → Stores h pre c (codes "name") content (λ q. record q { name = content }) p
  unfolding characters proxy_characters proxy_name str_dec
  name_Stores content p free = (
    none,
    rw (get_elem-last pre (record c { rtp_proxies = c.rtp_proxies ++ p ∷ [] }), proxy_name)
        (free_lem _ _ _ _ free
          (with_proxy-inside h pre c (codes "name") (λ q. record q { name = content }) p)),
  )

  pub name_read :
      (e content gap : Str) (rest : List Token) (p : RtpProxy)
      → str_elem content (proxy_names (c.rtp_proxies ++ p ∷ [])) ≡ false
      → handle_all (field (codes "name") content gap ++ rest) (inside h pre c e p)
        ≡ handle_all rest (inside h pre c [] (record p { name = content }))
  unfolding start_element end_element str_dec
  name_read e content gap rest p free =
      field_lem h pre c e (codes "name") content gap rest (λ q. record q { name = content }) p refl
        refl (name_Stores content p free)

  pub protocol_read :
      (content gap : Str) (rest : List Token) (p : RtpProxy)
      → is_protocol content ≡ true
      → handle_all (field (codes "protocol") content gap ++ rest) (inside h pre c [] p)
        ≡ handle_all rest (inside h pre c [] (record p { protocol = content }))
  unfolding start_element end_element str_dec
  protocol_read content gap rest p ok =
      field_lem h pre c [] (codes "protocol") content gap rest
        (λ q. record q { protocol = content }) p refl refl
        (protocol_Stores content p (lower_protocol content ok) ok)

  pub address_read :
      (content gap : Str) (rest : List Token) (p : RtpProxy)
      → handle_all (field (codes "address") content gap ++ rest) (inside h pre c [] p)
        ≡ handle_all rest (inside h pre c [] (record p { address = content }))
  unfolding start_element end_element str_dec
  address_read content gap rest p =
      field_lem h pre c [] (codes "address") content gap rest (λ q. record q { address = content })
        p refl refl (address_Stores content p)

  pub weight_read :
      (content gap : Str) (n : ℤ) (rest : List Token) (p : RtpProxy)
      → atoi content ≡ some n
      → handle_all (field (codes "weight") content gap ++ rest) (inside h pre c [] p)
        ≡ handle_all rest (inside h pre c [] (record p { weight = n }))
  unfolding start_element end_element str_dec
  weight_read content gap n rest p reads =
      field_lem h pre c [] (codes "weight") content gap rest (λ q. record q { weight = n }) p refl
        refl (weight_Stores content n p reads)

  pub capacity_read :
      (content gap : Str) (n : ℤ) (rest : List Token) (p : RtpProxy)
      → atoi content ≡ some n
      → handle_all (field (codes "capacity") content gap ++ rest) (inside h pre c [] p)
        ≡ handle_all rest (inside h pre c [] (record p { capacity = n }))
  unfolding start_element end_element str_dec
  capacity_read content gap n rest p reads =
      field_lem h pre c [] (codes "capacity") content gap rest (λ q. record q { capacity = n }) p
        refl refl (capacity_Stores content n p reads)

  pub status_read :
      (content gap : Str) (rest : List Token) (p : RtpProxy)
      → is_status content ≡ true
      → handle_all (field (codes "status") content gap ++ rest) (inside h pre c [] p)
        ≡ handle_all rest (inside h pre c [] (record p { status = content }))
  unfolding start_element end_element str_dec
  status_read content gap rest p ok =
      field_lem h pre c [] (codes "status") content gap rest (λ q. record q { status = content }) p
        refl refl (status_Stores content p (lower_status content ok) ok)

  pub wan_address_read :
      (content gap : Str) (rest : List Token) (p : RtpProxy)
      → p.wan_address ≡ []
      → handle_all (optional (codes "wan_address") content gap ++ rest) (inside h pre c [] p)
        ≡ handle_all rest (inside h pre c [] (record p { wan_address = content }))
  unfolding start_element end_element str_dec
  wan_address_read content gap rest p unset =
      optional_lem (codes "wan_address") content gap rest (λ q. record q { wan_address = content })
        p (λ e. ap (λ x. record p { wan_address = x }) (e ∙ sym unset)) refl refl
        (wan_address_Stores content p)

  pub lan_address_read :
      (content gap : Str) (rest : List Token) (p : RtpProxy)
      → p.lan_address ≡ []
      → handle_all (optional (codes "lan_address") content gap ++ rest) (inside h pre c [] p)
        ≡ handle_all rest (inside h pre c [] (record p { lan_address = content }))
  unfolding start_element end_element str_dec
  lan_address_read content gap rest p unset =
      optional_lem (codes "lan_address") content gap rest (λ q. record q { lan_address = content })
        p (λ e. ap (λ x. record p { lan_address = x }) (e ∙ sym unset)) refl refl
        (lan_address_Stores content p)

  pub cmd_out_address_read :
      (content gap : Str) (rest : List Token) (p : RtpProxy)
      → p.cmd_out_address ≡ []
      → handle_all (optional (codes "cmd_out_address") content gap ++ rest) (inside h pre c [] p)
        ≡ handle_all rest (inside h pre c [] (record p { cmd_out_address = content }))
  unfolding start_element end_element str_dec
  cmd_out_address_read content gap rest p unset =
      optional_lem (codes "cmd_out_address") content gap rest
        (λ q. record q { cmd_out_address = content }) p
        (λ e. ap (λ x. record p { cmd_out_address = x }) (e ∙ sym unset)) refl refl
        (cmd_out_address_Stores content p)
