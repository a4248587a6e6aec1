-- ===== src/Config/RoundTrip/Values.antt =====
-- The values that a document can give a proxy.
use mathlib.Core.Path.{subst}
use go_rtp_cluster.Base.{
  Bool-cases, inl, inr, ◌^◌, ◌≡◌, refl, Bool, true, false, ◌||◌, ◌&&◌, some, Str, codes, ◌==◌,
  str_eq, ℤ, ltb, pos, negsuc, arith,
}
use go_rtp_cluster.Text.{to_lower}
use go_rtp_cluster.Text.Decimal.{atoi, itoa}
use go_rtp_cluster.Text.Decimal.RoundTrip.{atoi-itoa, atoi-itoa_negative}
use go_rtp_cluster.Config.{RtpProxy}
use go_rtp_cluster.Config.Characters.{is_protocol}

-- A number of the type int.
abbrev pub fits : ℤ → Bool
fits (pos n) = ltb n (2 ^ 63)
fits (negsuc n) = ltb n (2 ^ 63)

pub fits_lem : (n : ℤ) → fits n ≡ true → atoi (itoa n) ≡ some n
fits_lem (pos n) h = atoi-itoa n (ground (arith, h))
fits_lem (negsuc n) h = atoi-itoa_negative n (ground (arith, h))

abbrev pub is_status : Str → Bool
is_status s = s == codes "suspended" || s == codes "active"

-- A text equal to one that is in lower case.
lowered : (s t : Str) → (s == t) ≡ true → to_lower t ≡ t → to_lower s ≡ s
lowered s t e low = subst (λ x. to_lower x ≡ x) (same s t e) low
  where
    same : (s t : Str) → (s == t) ≡ true → t ≡ s
    same s t e = ground (arith, e)

in_lower_case :
    (to_lower (codes "udp") ≡ codes "udp")
    × (to_lower (codes "udp6") ≡ codes "udp6")
    × (to_lower (codes "unix") ≡ codes "unix")
    × (to_lower (codes "suspended") ≡ codes "suspended")
    × (to_lower (codes "active") ≡ codes "active")
unfolding to_lower
in_lower_case = (refl, refl, refl, refl, refl)

pub lower_protocol : (s : Str) → is_protocol s ≡ true → to_lower s ≡ s
lower_protocol s h =
    let (udp, udp6, unix, _, _) = in_lower_case in
    elim (Bool-cases (s == codes "udp")) [
      | inl a ↦ lowered s (codes "udp") a udp
      | inr a ↦ elim (Bool-cases (s == codes "udp6")) [
        | inl b ↦ lowered s (codes "udp6") b udp6
        | inr b ↦ lowered s (codes "unix") (last_of _ _ _ h a b) unix
      ]
    ]
  where
    last_of : (a b c : Bool) → (a || b || c) ≡ true → a ≡ false → b ≡ false → c ≡ true
    last_of a b c h e f = ground (arith, h, e, f)

pub lower_status : (s : Str) → is_status s ≡ true → to_lower s ≡ s
lower_status s h =
    let (_, _, _, suspended, active) = in_lower_case in
    elim (Bool-cases (s == codes "suspended")) [
      | inl a ↦ lowered s (codes "suspended") a suspended
      | inr a ↦ lowered s (codes "active") (last_of _ _ h a) active
    ]
  where
    last_of : (a b : Bool) → (a || b) ≡ true → a ≡ false → b ≡ true
    last_of a b h e = ground (arith, h, e)

-- The values that a document can give a proxy, but for its name.
abbrev pub readable : RtpProxy → Bool
readable p = (is_protocol p.protocol && is_status p.status) && fits p.weight && fits p.capacity
