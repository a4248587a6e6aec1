-- ===== src/Command/Reply/Sending.antt =====
-- What `down_command` changes.
use go_rtp_cluster.Base.{◌≡◌, refl, Option, some, [], ◌∷◌, ◌++◌, Str}
use go_rtp_cluster.Externals.{Externals, Cmd}
use go_rtp_cluster.Member.{Member}
use go_rtp_cluster.Cluster.{Cluster, Clim, udp, unix}
use go_rtp_cluster.Command.Reply.{answer, down_command, send_clim, close_clim, finish, remember}

module _ ⦃E : Externals⦄ where
  open E use {Rest}

  -- The state once a response is sent.
  unfoldable pub closed : Clim → Str → Cluster → Cluster
  unfolding finish remember
  closed clim response c = remember clim response (finish clim c)

  pub closed_frame :
      (clim : Clim) (response : Str) (c : Cluster)
      → ((closed clim response c).members ≡ c.members)
        × ((closed clim response c).active ≡ c.active)
        × ((closed clim response c).pending ≡ c.pending)
        × ((closed clim response c).dnrelay ≡ c.dnrelay)
        × ((closed clim response c).broadcasts ≡ c.broadcasts)
  unfolding closed
  closed_frame (udp cookie address) response c = (refl, refl, refl, refl, refl)
  closed_frame (unix k) response c = (refl, refl, refl, refl, refl)

  pub down_command_lem :
      (result text : Str) (clim : Clim) (cmd : Cmd Rest) (m : Option Member) (c : Cluster)
      → answer result cmd m ≡ some text
      → down_command result clim cmd m c
        ≡ some
            (closed clim (text ++ 10 ∷ []) c, send_clim clim (text ++ 10 ∷ []) ++ close_clim clim)
  unfolding down_command closed
  down_command_lem result text clim cmd m c e = rw (e, down_command)
