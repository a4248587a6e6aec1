-- ===== src/Config/RoundTrip.antt =====
-- The elements of a proxy, read back.
pub mod Values
pub mod Fields
pub mod Proxies
pub mod Documents
pub mod Handler
pub mod Notify
pub mod Clusters
use go_rtp_cluster.Base.{
  ℕ, suc, ◌≡◌, refl, ◌∙◌, ap, Bool, true, false, ◌||◌, Option, none, some, List, [], ◌∷◌, ◌++◌, Str,
  codes, ◌==◌, str_eq, str_dec, if◌then◌else◌, length, get_elem?, ℤ, ltb_ℤ, pos,
}
use go_rtp_cluster.Text.{to_lower}
use go_rtp_cluster.Text.Decimal.{atoi}
use go_rtp_cluster.Config.{
  RtpProxy, RtpCluster, ValidateHandler, Token, in_proxy, new_proxy, update_at, update_proxy,
  with_cluster, with_proxy,
}
use go_rtp_cluster.Config.Tokens.{start_element, end_element, start_proxy, next_proxy, pop}
use go_rtp_cluster.Config.Characters.{
  Result, characters, proxy_characters, proxy_name, weight_characters, capacity_characters,
  str_elem, proxy_names, is_protocol, stored, done, ConfigError, wrong_proxy_protocol, wrong_status,
  proxy_name, weight_characters,
}
use go_rtp_cluster.Config.Reading.{handle, handle_all}

-- An element with a text in it and a text behind it.
abbrev pub field : Str → Str → Str → List Token
field name content gap =
    Token.start_element name []
    ∷ Token.char_data content
    ∷ Token.end_element name
    ∷ Token.char_data gap
    ∷ []

pub update_at-last {ℓ} :
    {A : Type ℓ} (f : A → A) (xs : List A) (x : A)
    → update_at (length xs) f (xs ++ x ∷ []) ≡ xs ++ f x ∷ []
update_at-last f [] x = refl
update_at-last f (y ∷ xs) x = ap (λ l. y ∷ l) (update_at-last f xs x)

pub get_elem-last {ℓ} :
    {A : Type ℓ} (xs : List A) (x : A) → get_elem? (xs ++ x ∷ []) (length xs) ≡ some x
get_elem-last [] x = refl
get_elem-last (y ∷ xs) x = get_elem-last xs x

pub stored_lem :
    (ok : Bool) (e : ConfigError) (o : Option ValidateHandler) (h : ValidateHandler)
    → ok ≡ true
    → o ≡ some h
    → stored ok e o ≡ some (h, none)
stored_lem ok e o h a b = rw (a, b) refl

pub checked_lem :
    (ok : Bool) (e : ConfigError) (o : Option ValidateHandler) (h : ValidateHandler)
    → o ≡ some h
    → stored ok e o ≡ some (h, if ok then none else some e)
checked_lem ok e o h b = rw b refl

pub free_lem :
    (used : Bool) (x : Result) (o : Option ValidateHandler) (h : ValidateHandler)
    → used ≡ false
    → o ≡ some h
    → (if used then x else done o) ≡ some (h, none)
free_lem used x o h a b = rw (a, b) refl

pub token_lem :
    (t : Token) (ts : List Token) (h h' : ValidateHandler)
    → handle t h ≡ some h'
    → handle_all (t ∷ ts) h ≡ handle_all ts h'
unfolding handle_all
token_lem t ts h h' e = rw (e, handle_all) refl

-- Whatever error `Characters` has for a text, the handler goes on.
pub text_lem :
    {err : Option ConfigError} (content : Str) (h h' : ValidateHandler)
    → characters content h ≡ some (h', err)
    → handle (Token.char_data content) h ≡ some h'
unfolding handle
text_lem content h h' e = rw (e, handle) refl

-- One element with a text in it.
pub element_lem :
    {err : Option ConfigError} (name content gap : Str) (rest : List Token)
    (h h1 h2 h3 : ValidateHandler)
    → start_element name [] h ≡ some h1
    → characters content h1 ≡ some (h2, err)
    → end_element name h2 ≡ some h3
    → characters gap h3 ≡ some (h3, none)
    → handle_all (field name content gap ++ rest) h ≡ handle_all rest h3
unfolding handle
element_lem name content gap rest h h1 h2 h3 a b c d =
    token_lem (Token.start_element name []) _ h h1 a
    ∙ (token_lem (Token.char_data content) _ h1 h2 (text_lem content h1 h2 b)
        ∙ (token_lem (Token.end_element name) _ h2 h3 c
            ∙ token_lem (Token.char_data gap) rest h3 h3 (text_lem gap h3 h3 d)))

module _ (h : ValidateHandler) (pre : List RtpCluster) (c : RtpCluster) where
  -- The handler in an element of this name, with this proxy as the last one of the last cluster.
  abbrev pub inside : Str → RtpProxy → ValidateHandler
  inside name p = record h {
    element = name;
    rtp_cluster = some (length pre);
    config = pre ++ record c { rtp_proxies = c.rtp_proxies ++ p ∷ [] } ∷ [];
    rtpproxy = some (length pre, length c.rtp_proxies);
    ctx = in_proxy ∷ h.ctx;
  }

  with_proxy-inside :
      (name : Str) (f : RtpProxy → RtpProxy) (p : RtpProxy)
      → with_proxy f (inside name p) ≡ some (inside name (f p))
  unfolding with_proxy
  with_proxy-inside name f p =
      ap (λ config. some (record (inside name p) { config = config }))
        (update_at-last (update_proxy (length c.rtp_proxies) f) pre _
          ∙ ap (λ ps. pre ++ record c { rtp_proxies = ps } ∷ []) (update_at-last f c.rtp_proxies p))

  -- A text that is stored in one field of the proxy, with or without an error.
  abbrev pub Stores : Str → Str → (RtpProxy → RtpProxy) → RtpProxy → Type 0
  Stores name content f p =
      (err : Option ConfigError) × (characters content (inside name p)
        ≡ some (inside name (f p), err))

  pub gap_lem : (gap : Str) (p : RtpProxy) → characters gap (inside [] p) ≡ some (inside [] p, none)
  unfolding characters proxy_characters str_dec
  gap_lem gap p = refl

  pub first_gap_lem :
      (gap : Str) (p : RtpProxy)
      → characters gap (inside (codes "rtpproxy") p) ≡ some (inside (codes "rtpproxy") p, none)
  unfolding characters proxy_characters str_dec
  first_gap_lem gap p = refl

  -- One element of a proxy.
  pub field_lem :
      (e name content gap : Str) (rest : List Token) (f : RtpProxy → RtpProxy) (p : RtpProxy)
      → start_element name [] (inside e p) ≡ some (inside name p)
      → end_element name (inside name (f p)) ≡ some (inside [] (f p))
      → Stores name content f p
      → handle_all (field name content gap ++ rest) (inside e p) ≡ handle_all rest (inside [] (f p))
  unfolding handle
  field_lem e name content gap rest f p a b s =
      element_lem name content gap rest _ _ _ _ a s.1 b (gap_lem gap (f p))

  abbrev pub before_proxy : Str → ValidateHandler
  before_proxy e = record h { element = e; rtp_cluster = some (length pre); config = pre ++ c ∷ [] }

  pub start_lem :
      (e : Str)
      → start_element (codes "rtpproxy") [] (before_proxy e)
        ≡ some (inside (codes "rtpproxy") new_proxy)
  unfolding start_element start_proxy with_cluster next_proxy str_dec
  start_lem e =
      rw
        (
          update_at-last
              (λ (d : RtpCluster). record d { rtp_proxies = d.rtp_proxies ++ new_proxy ∷ [] }) pre
              c,
          get_elem-last pre c,
          next_proxy,
        )
        refl

  abbrev pub after_proxy : RtpProxy → ValidateHandler
  after_proxy p = record h {
    element = [];
    rtp_cluster = some (length pre);
    config = pre ++ record c { rtp_proxies = c.rtp_proxies ++ p ∷ [] } ∷ [];
    rtpproxy = none;
  }

  pub end_lem : (p : RtpProxy) → end_element (codes "rtpproxy") (inside [] p) ≡ some (after_proxy p)
  unfolding end_element pop str_dec
  end_lem p = refl
