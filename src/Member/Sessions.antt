-- ===== src/Member/Sessions.antt =====
-- The two call maps of a member: which calls it knows, and what aging forgets.
use go_rtp_cluster.Base.{
  ℕ, ◌≡◌, refl, ◌≢◌, Bool, true, false, ◌||◌, [], ◌∷◌, Str, arith, nat_eq, str_eq,
}
use go_rtp_cluster.Base.Dict.{Dict, lookup, insert, erase, has, has-insert, has-erase}
use go_rtp_cluster.Externals.{Externals}
use go_rtp_cluster.Member.{Member, is_yours, bind_session, unbind_session, call_id_map_aging}

-- No call is entered twice, so that the length of a map is the number of its calls.
abbrev pub NodupKeys : Dict Bool → Type 0
NodupKeys [] = Unit
NodupKeys ((k, _) ∷ m) = (has k m ≡ false) × NodupKeys m

pub insert-NodupKeys : (k : Str) (v : Bool) (m : Dict Bool) → NodupKeys m → NodupKeys (insert k v m)
unfolding insert has lookup
insert-NodupKeys k v [] d = (refl, tt)
insert-NodupKeys k v ((j, w) ∷ m) d = ground (arith, insert-NodupKeys k v m, has-insert j k v m)

pub erase-NodupKeys : (k : Str) (m : Dict Bool) → NodupKeys m → NodupKeys (erase k m)
unfolding erase
erase-NodupKeys k [] d = tt
erase-NodupKeys k ((j, w) ∷ m) d = ground (arith, erase-NodupKeys k m, has-erase j k m)

module _ ⦃E : Externals⦄ where
  abbrev pub knows : Str → Member → Bool
  knows c m = has c m.call_id_map || has c m.call_id_map_old

  pub record HasMaps (m : Member) : Type 0 where
    pub fresh : NodupKeys m.call_id_map
    pub old : NodupKeys m.call_id_map_old

  -- The lookup of a call answers whether either map has it, forgets no call and makes none up, and
  -- leaves a call that it finds in the new map.
  pub is_yours_known :
      (c j : Str) (m : Member)
      → ((is_yours c m).1 ≡ knows c m)
        × (knows j (is_yours c m).0 ≡ knows j m)
        × (has c (is_yours c m).0.call_id_map ≡ (is_yours c m).1)
  unfolding is_yours
  is_yours_known c j m = ground (
    arith,
    has-insert j c true m.call_id_map,
    has-insert c c true m.call_id_map,
    has-erase j c m.call_id_map_old,
  )

  -- A call that was looked up successfully is still found after one run of the aging timer.
  is_yours-aging :
      (c : Str) (m : Member)
      → (is_yours c m).1 ≡ true
      → (is_yours c (call_id_map_aging (is_yours c m).0)).1 ≡ true
  unfolding is_yours call_id_map_aging
  is_yours-aging c m h =
      ground (arith, has-insert c c true m.call_id_map, has-erase c c m.call_id_map_old)

  has-nil : (c : Str) → has {V = Bool} c [] ≡ false
  unfolding has lookup
  has-nil c = refl

  -- A call that is bound by a command other than `D`, and was not in the new map, is found at once,
  -- and is forgotten by the next run of the aging timer if nothing looked it up in between and the
  -- client was not shut down.
  pub bind_session-aging :
      (c : Str) (kind : ℕ) (m : Member)
      → kind ≢ b'D'
      → has c m.call_id_map ≡ false
      → E.is_shut_down m.client ≡ false
      → ((is_yours c (bind_session c kind m)).1 ≡ true)
        × ((is_yours c (call_id_map_aging (bind_session c kind m))).1 ≡ false)
  unfolding is_yours bind_session call_id_map_aging
  bind_session-aging c kind m k h s =
      ground (arith, has-insert c c true m.call_id_map_old, has-nil c)

  -- A call that is unbound is still found, for late commands, and is forgotten by the next run of
  -- the aging timer if the client was not shut down.
  unbind_session-aging :
      (c : Str) (m : Member)
      → E.is_shut_down m.client ≡ false
      → ((is_yours c (unbind_session c m)).1 ≡ true)
        × ((is_yours c (call_id_map_aging (unbind_session c m))).1 ≡ false)
  unfolding is_yours unbind_session call_id_map_aging
  unbind_session-aging c m s =
      ground (arith, has-insert c c true m.call_id_map_old, has-erase c c m.call_id_map, has-nil c)

  -- Every operation on the call maps keeps the calls of each map distinct.
  HasMaps-kept :
      (c : Str) (kind : ℕ) (m : Member)
      → HasMaps m
      → HasMaps (is_yours c m).0
        × HasMaps (bind_session c kind m)
        × HasMaps (unbind_session c m)
        × HasMaps (call_id_map_aging m)
  unfolding is_yours bind_session unbind_session call_id_map_aging
  HasMaps-kept c kind m v = ground (
    arith,
    insert-NodupKeys c true m.call_id_map,
    insert-NodupKeys c true m.call_id_map_old,
    erase-NodupKeys c m.call_id_map,
    erase-NodupKeys c m.call_id_map_old,
  )
