-- ===== src/Member/StatusText.antt =====
-- `rtp_cluster_member_status` and its text.
use go_rtp_cluster.Base.{
  ◌≡◌, refl, Bool, true, false, Str, codes, ◌==◌, str_eq, if◌then◌else◌, str_dec,
}
use go_rtp_cluster.Text.{to_upper, to_lower}

pub data Status : Type 0 where
  active suspended draining : Status

-- `RTPCMStatusFromString`
unfoldable pub status_from_string : Str → Status
status_from_string s =
    if to_upper s == codes "ACTIVE"
    then active
    else if to_upper s == codes "SUSPENDED"
    then suspended
    else if to_upper s == codes "DRAINING"
    then draining
    else suspended

-- `String`
unfoldable pub status_string : Status → Str
status_string active = codes "ACTIVE"
status_string suspended = codes "SUSPENDED"
status_string draining = codes "DRAINING"

unfoldable pub status_is : Status → Status → Bool
status_is active active = true
status_is suspended suspended = true
status_is draining draining = true
status_is _ _ = false

-- The printed status of a member, in either case, reads back as that status.
status_from_string-string :
    (s : Status)
    → (status_from_string (status_string s) ≡ s)
      × (status_from_string (to_lower (status_string s)) ≡ s)
unfolding status_from_string status_string to_upper to_lower str_dec
status_from_string-string active = (refl, refl)
status_from_string-string suspended = (refl, refl)
status_from_string-string draining = (refl, refl)
