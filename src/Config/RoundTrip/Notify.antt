-- ===== src/Config/RoundTrip/Notify.antt =====
-- The handler in the elements of the notify configuration of a document.

use go_rtp_cluster.Base.{
  ◌≡◌, refl, ◌∙◌, ap, true, Option, none, some, List, [], ◌∷◌, Str, codes, ◌==◌, str_eq, str_dec,
  length, arith,
}
use go_rtp_cluster.Relay.{DisconnectNotify}
use go_rtp_cluster.Config.{
  RtpCluster, ValidateHandler, Token, in_config, in_cluster, in_dnconfig, new_disconnect_notify,
  with_notify, update_notify,
}
use go_rtp_cluster.Config.Tokens.{start_element, end_element, start_notify, pop}
use go_rtp_cluster.Config.Characters.{characters, notify_characters}
use go_rtp_cluster.Config.Reading.{handle, handle_all}
use go_rtp_cluster.Config.RoundTrip.{token_lem, element_lem, update_at-last}
use go_rtp_cluster.Config.RoundTrip.Documents.{readable_notify, notify_tokens}
use go_rtp_cluster.Config.RoundTrip.Handler.{gap_token, here, with_cluster-here, gap_here}

module _ (pre : List RtpCluster) where
  -- The handler in an element of the notify configuration of the last cluster.
  abbrev noting : Str → RtpCluster → ValidateHandler
  noting e c = record (here pre e c) {
    dnconfig = some (length pre);
    ctx = in_dnconfig ∷ in_cluster ∷ in_config ∷ [];
  }

  with_notify-noting :
      (e : Str) (f : DisconnectNotify → DisconnectNotify) (c : RtpCluster)
      → with_notify f (noting e c) ≡ some (noting e (update_notify f c))
  unfolding with_notify
  with_notify-noting e f c =
      ap (λ config. some (record (noting e c) { config = config }))
        (update_at-last (update_notify f) pre c)

  gap_noting :
      (gap : Str) (c : RtpCluster) → characters gap (noting [] c) ≡ some (noting [] c, none)
  unfolding characters notify_characters str_dec
  gap_noting gap c = refl

  first_gap_noting :
      (gap : Str) (c : RtpCluster)
      → characters gap (noting (codes "disconnect_notify") c)
        ≡ some (noting (codes "disconnect_notify") c, none)
  unfolding characters notify_characters str_dec
  first_gap_noting gap c = refl

  in_address_noting :
      (content : Str) (c : RtpCluster)
      → characters content (noting (codes "inbound_address") c)
        ≡ some (
          noting
              (codes "inbound_address")
              (update_notify (λ d. record d { in_address = content }) c),
          none,
        )
  unfolding characters notify_characters str_dec
  in_address_noting content c =
      rw (with_notify-noting (codes "inbound_address") (λ d. record d { in_address = content }) c)
        refl

  dest_noting :
      (content : Str) (c : RtpCluster)
      → characters content (noting (codes "dest_socket_prefix") c)
        ≡ some (
          noting
              (codes "dest_socket_prefix")
              (update_notify (λ d. record d { dest_sprefix = content }) c),
          none,
        )
  unfolding characters notify_characters str_dec
  dest_noting content c =
      rw
        (with_notify-noting (codes "dest_socket_prefix") (λ d. record d { dest_sprefix = content })
          c)
        refl

  start_noting :
      (c : RtpCluster)
      → start_element (codes "disconnect_notify") [] (here pre [] c)
        ≡ some (
            noting
              (codes "disconnect_notify")
              (record c { dnconfig = some (new_disconnect_notify (codes "disconnect_notify")) }))
  unfolding start_element start_notify str_dec
  start_noting c =
      rw
        (
          with_cluster-here pre (codes "disconnect_notify")
              (λ d. record d {
                dnconfig = some (new_disconnect_notify (codes "disconnect_notify"));
              })
              c,
          start_notify,
        )
        refl

  pub notify_read :
      (gap : Str) (o : Option DisconnectNotify) (c : RtpCluster) (rest : List Token)
      → c.dnconfig ≡ none
      → readable_notify o ≡ true
      → handle_all (notify_tokens gap o rest) (here pre [] c)
        ≡ handle_all rest (here pre [] (record c { dnconfig = o }))
  unfolding handle start_element end_element pop str_dec
  notify_read gap none c rest unset ok =
      ap
        (λ (o : Option DisconnectNotify). handle_all rest (here pre [] (record c { dnconfig = o })))
        unset
  notify_read gap (some d) c rest unset ok =
      token_lem (Token.start_element (codes "disconnect_notify") []) _ (here pre [] c)
        (noting (codes "disconnect_notify") c1) (start_noting c)
      ∙ gap_token gap _ (noting (codes "disconnect_notify") c1) (first_gap_noting gap c1)
      ∙ element_lem (codes "inbound_address") d.in_address gap _
          (noting (codes "disconnect_notify") c1) (noting (codes "inbound_address") c1)
          (noting (codes "inbound_address") c2) (noting [] c2) refl
          (in_address_noting d.in_address c1) refl (gap_noting gap c2)
      ∙ element_lem (codes "dest_socket_prefix") d.dest_sprefix gap _ (noting [] c2)
          (noting (codes "dest_socket_prefix") c2) (noting (codes "dest_socket_prefix") c3)
          (noting [] c3) refl (dest_noting d.dest_sprefix c2) refl (gap_noting gap c3)
      ∙ token_lem (Token.end_element (codes "disconnect_notify")) _ (noting [] c3) (here pre [] c3)
          refl
      ∙ gap_token gap rest (here pre [] c3) (gap_here pre gap c3)
      ∙ ap
          (λ name.
            handle_all rest
              (here pre [] (record c { dnconfig = some (record d { section_name = name }) })))
          (named d.section_name (codes "disconnect_notify") ok)
    where
      named : (s t : Str) → (s == t) ≡ true → t ≡ s
      named s t e = ground (arith, e)

      c1 : RtpCluster
      c1 = record c { dnconfig = some (new_disconnect_notify (codes "disconnect_notify")) }

      c2 : RtpCluster
      c2 = record c {
        dnconfig = some (record (new_disconnect_notify (codes "disconnect_notify")) {
          in_address = d.in_address;
        });
      }

      c3 : RtpCluster
      c3 = record c { dnconfig = some (record d { section_name = codes "disconnect_notify" }) }
