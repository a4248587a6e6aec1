-- ===== src/Config/RoundTrip/Handler.antt =====
-- The handler in the elements of a cluster of a document.

use go_rtp_cluster.Base.{
  ◌≡◌, refl, ◌∙◌, sym, ap, Bool, true, false, ◌&&◌, not, none, some, List, [], ◌∷◌, ◌++◌, Str,
  codes, ◌==◌, str_eq, str_dec, if◌then◌else◌, arith,
}
use go_rtp_cluster.Config.{
  RtpProxy, RtpCluster, ValidateHandler, Token, in_config, in_cluster, with_cluster,
  new_validate_handler,
}
use go_rtp_cluster.Config.Tokens.{start_element, start_limit, capacity_limit}
use go_rtp_cluster.Config.Characters.{
  characters, cluster_characters, cluster_name, str_elem, cluster_names, is_protocol,
}
use go_rtp_cluster.Config.Reading.{handle, handle_all}
use go_rtp_cluster.Config.RoundTrip.{
  token_lem, text_lem, stored_lem, free_lem, update_at-last, before_proxy,
}
use go_rtp_cluster.Config.RoundTrip.Values.{lower_protocol}
use go_rtp_cluster.Config.RoundTrip.Proxies.{proxy_read}
use go_rtp_cluster.Config.RoundTrip.Documents.{readable_proxies, proxies_tokens}

pub append_nil {ℓ} : {A : Type ℓ} (xs : List A) → xs ++ [] ≡ xs
append_nil [] = refl
append_nil (x ∷ xs) = ap (λ l. x ∷ l) (append_nil xs)

pub append_assoc {ℓ} : {A : Type ℓ} (xs ys zs : List A) → (xs ++ ys) ++ zs ≡ xs ++ (ys ++ zs)
append_assoc [] ys zs = refl
append_assoc (x ∷ xs) ys zs = ap (λ l. x ∷ l) (append_assoc xs ys zs)

pub gap_token :
    (gap : Str) (rest : List Token) (h : ValidateHandler)
    → characters gap h ≡ some (h, none)
    → handle_all (Token.char_data gap ∷ rest) h ≡ handle_all rest h
gap_token gap rest h e = token_lem (Token.char_data gap) rest h h (text_lem gap h h e)

-- The handler between clusters, with the last element that it saw.
abbrev pub base : Str → List RtpCluster → ValidateHandler
base e config = record new_validate_handler { config = config; element = e; ctx = in_config ∷ [] }

pub gap_base :
    (e gap : Str) (config : List RtpCluster)
    → characters gap (base e config) ≡ some (base e config, none)
unfolding characters
gap_base e gap config = refl

module _ (pre : List RtpCluster) where
  abbrev pub within : ValidateHandler
  within = record new_validate_handler { ctx = in_cluster ∷ in_config ∷ [] }

  -- The handler in an element of the last cluster.
  abbrev pub here : Str → RtpCluster → ValidateHandler
  here e c = before_proxy within pre c e

  pub with_cluster-here :
      (e : Str) (f : RtpCluster → RtpCluster) (c : RtpCluster)
      → with_cluster f (here e c) ≡ some (here e (f c))
  unfolding with_cluster
  with_cluster-here e f c =
      ap (λ config. some (record (here e c) { config = config })) (update_at-last f pre c)

  pub gap_here : (gap : Str) (c : RtpCluster) → characters gap (here [] c) ≡ some (here [] c, none)
  unfolding characters cluster_characters str_dec
  gap_here gap c = refl

  pub first_gap_here :
      (gap : Str) (c : RtpCluster)
      → characters gap (here (codes "rtp_cluster") c) ≡ some (here (codes "rtp_cluster") c, none)
  unfolding characters cluster_characters str_dec
  first_gap_here gap c = refl

  pub name_here :
      (content : Str) (c : RtpCluster)
      → str_elem content (cluster_names (pre ++ c ∷ [])) ≡ false
      → characters content (here (codes "name") c)
        ≡ some (here (codes "name") (record c { name = content }), none)
  unfolding characters cluster_characters cluster_name str_dec
  name_here content c free =
      free_lem _ _ _ _ free (with_cluster-here (codes "name") (λ d. record d { name = content }) c)

  pub protocol_here :
      (content : Str) (c : RtpCluster)
      → is_protocol content ≡ true
      → characters content (here (codes "protocol") c)
        ≡ some (here (codes "protocol") (record c { protocol = content }), none)
  unfolding characters cluster_characters str_dec
  protocol_here content c ok = rw (lower_protocol content ok) (
      stored_lem _ _ _ _ ok
        (with_cluster-here (codes "protocol") (λ d. record d { protocol = content }) c))

  pub address_here :
      (content : Str) (c : RtpCluster)
      → characters content (here (codes "address") c)
        ≡ some (here (codes "address") (record c { address = content }), none)
  unfolding characters cluster_characters str_dec
  address_here content c =
      rw (with_cluster-here (codes "address") (λ d. record d { address = content }) c) refl

  is_soft : (b : Bool) → ((if b then codes "soft" else codes "hard") == codes "soft") ≡ b
  unfolding str_dec
  is_soft true = refl
  is_soft false = refl

  pub limit_here :
      (b : Bool) (c : RtpCluster)
      → start_element
          (codes "capacity_limit")
          ((codes "type", if b then codes "soft" else codes "hard") ∷ [])
          (here [] c)
        ≡ some (here (codes "capacity_limit") (record c { capacity_limit_soft = b }))
  unfolding start_element start_limit capacity_limit str_dec
  limit_here true c =
      with_cluster-here (codes "capacity_limit") (λ d. record d { capacity_limit_soft = true }) c
  limit_here false c =
      with_cluster-here (codes "capacity_limit") (λ d. record d { capacity_limit_soft = false }) c

  pub proxies_read :
      (gap : Str) (ps : List RtpProxy) (c : RtpCluster) (rest : List Token)
      → readable_proxies c.rtp_proxies ps ≡ true
      → handle_all (proxies_tokens gap ps rest) (here [] c)
        ≡ handle_all rest (here [] (record c { rtp_proxies = c.rtp_proxies ++ ps }))
  unfolding handle
  proxies_read gap [] c rest ok =
      ap (λ ps. handle_all rest (here [] (record c { rtp_proxies = ps })))
        (sym (append_nil c.rtp_proxies))
  proxies_read gap (p ∷ ps) c rest ok =
      let (valid, free, more) = parts _ _ _ ok in
      let d : RtpCluster = record c { rtp_proxies = c.rtp_proxies ++ p ∷ [] } in
      proxy_read within pre c [] gap p (Token.char_data gap ∷ proxies_tokens gap ps rest) valid free
      ∙ (gap_token gap (proxies_tokens gap ps rest) (here [] d) (gap_here gap d)
          ∙ (proxies_read gap ps d rest more
              ∙ ap (λ ps. handle_all rest (here [] (record c { rtp_proxies = ps })))
                  (append_assoc c.rtp_proxies (p ∷ []) ps)))
    where
      parts : (a b c : Bool) → ((a && not b) && c) ≡ true → (a ≡ true) × (b ≡ false) × (c ≡ true)
      parts a b c h = ground (arith, h)
