-- ===== src/Member/Usage.antt =====
-- The call maps of a member over time: lookups, bindings, releases and runs of the aging timer, in
-- any order.
use go_rtp_cluster.Base.{
  ℕ, ◌≤◌, ◌<◌, ◌≡◌, true, List, [], ◌∷◌, Str, arith, ◌==◌, nat_eq, str_eq, if◌then◌else◌,
}
use go_rtp_cluster.Base.Dict.{has, has-insert, has-erase}
use go_rtp_cluster.Externals.{Externals}
use go_rtp_cluster.Member.{Member, is_yours, bind_session, unbind_session, call_id_map_aging}
use go_rtp_cluster.Member.Sessions.{knows, is_yours_known}

-- A call is looked up, bound by a kind of command, or released; or the timer runs.
pub data CallEvent : Type 0 where
  looked_up unbound : Str → CallEvent
  bound : Str → ℕ → CallEvent
  aged : CallEvent

-- What the events, the latest of them last, make sure of for a call: 2 that the next run of the timer
-- keeps it, 1 that it is known until then, and 0 nothing. A successful lookup or a binding renews
-- it, a run of the timer lowers it, and so does a release.
unfoldable pub lifetime : Str → ℕ → List CallEvent → ℕ
lifetime k n [] = n
lifetime k n (looked_up j ∷ h) = lifetime k (if j == k then (if n == 0 then 0 else 2) else n) h
lifetime k n (bound j kind ∷ h) =
    lifetime k (if j == k then (if kind == b'D' then 2 else if n == 2 then 2 else 1) else n) h
lifetime k n (unbound j ∷ h) = lifetime k (if j == k then 1 else n) h
lifetime k n (aged ∷ h) = lifetime k (if n == 2 then 1 else 0) h

module _ ⦃E : Externals⦄ where
  unfoldable pub call_step : CallEvent → Member → Member
  call_step (looked_up j) m = (is_yours j m).0
  call_step (bound j kind) m = bind_session j kind m
  call_step (unbound j) m = unbind_session j m
  call_step aged m = call_id_map_aging m

  unfoldable pub call_run : List CallEvent → Member → Member
  unfolding call_step
  call_run [] m = m
  call_run (e ∷ h) m = call_run h (call_step e m)

  -- In the new map, or in one of the two.
  record Lasts (k : Str) (n : ℕ) (m : Member) : Type 0 where
    most : n ≤ 2
    newer : n ≡ 2 → has k m.call_id_map ≡ true
    either : 0 < n → knows k m ≡ true

  looked_up_Lasts :
      (k j : Str) (n : ℕ) (m : Member)
      → Lasts k n m
      → Lasts k (if j == k then (if n == 0 then 0 else 2) else n) (is_yours j m).0
  unfolding is_yours
  looked_up_Lasts k j n m v = record {
    most = ground (arith, v.most);
    newer = λ e. ground (arith, v.newer, v.either, has-insert k j true m.call_id_map, e);
    either = λ p. ground (arith, v.either, is_yours_known j k m, p);
  }

  bound_Lasts :
      (k j : Str) (kind n : ℕ) (m : Member)
      → Lasts k n m
      → Lasts k
          (if j == k then (if kind == b'D' then 2 else if n == 2 then 2 else 1) else n)
          (bind_session j kind m)
  unfolding bind_session
  bound_Lasts k j kind n m v = record {
    most = ground (arith, v.most);
    newer = λ e. ground (arith, v.newer, has-insert k j true m.call_id_map, e);
    either = λ p. ground (
      arith,
      v.either,
      has-insert k j true m.call_id_map,
      has-insert k j true m.call_id_map_old,
      p,
    );
  }

  unbound_Lasts :
      (k j : Str) (n : ℕ) (m : Member)
      → Lasts k n m
      → Lasts k (if j == k then 1 else n) (unbind_session j m)
  unfolding unbind_session
  unbound_Lasts k j n m v = record {
    most = ground (arith, v.most);
    newer = λ e. ground (arith, v.newer, has-erase k j m.call_id_map, e);
    either = λ p.
        ground
          (arith, v.either, has-erase k j m.call_id_map, has-insert k j true m.call_id_map_old, p);
  }

  aged_Lasts :
      (k : Str) (n : ℕ) (m : Member)
      → Lasts k n m
      → Lasts k (if n == 2 then 1 else 0) (call_id_map_aging m)
  unfolding call_id_map_aging
  aged_Lasts k n m v = record {
    most = ground arith;
    newer = λ e. absurd (ground (arith, e));
    either = λ p. ground (arith, v.newer, v.either, p);
  }

  step_Lasts :
      (k : Str) (e : CallEvent) (h : List CallEvent) (n : ℕ) (m : Member)
      → ((o : ℕ) (x : Member) → Lasts k o x → Lasts k (lifetime k o h) (call_run h x))
      → Lasts k n m
      → Lasts k (lifetime k n (e ∷ h)) (call_run (e ∷ h) m)
  unfolding lifetime call_run
  step_Lasts k (looked_up j) h n m go v = go _ _ (looked_up_Lasts k j n m v)
  step_Lasts k (bound j kind) h n m go v = go _ _ (bound_Lasts k j kind n m v)
  step_Lasts k (unbound j) h n m go v = go _ _ (unbound_Lasts k j n m v)
  step_Lasts k aged h n m go v = go _ _ (aged_Lasts k n m v)

  run_Lasts :
      (k : Str) (h : List CallEvent) (n : ℕ) (m : Member)
      → Lasts k n m
      → Lasts k (lifetime k n h) (call_run h m)
  unfolding lifetime call_run
  run_Lasts k [] n m v = v
  run_Lasts k (e ∷ h) n m v = step_Lasts k e h n m (run_Lasts k h) v

  -- Whatever lookups, bindings, releases and runs of the aging timer a member has seen: a call is
  -- found for which `lifetime` is above 0. So it is where the call was bound or released, and since
  -- the last time it was, it was looked up before the next run of the timer and again between any
  -- two runs.
  pub call_run-found :
      (k : Str) (h : List CallEvent) (m : Member)
      → 0 < lifetime k 0 h
      → (is_yours k (call_run h m)).1 ≡ true
  call_run-found k h m p =
      let v = run_Lasts k h 0 m (record {
        most = omega arith;
        newer = λ e. absurd (omega (arith, e));
        either = λ p. absurd (omega (arith, p));
      }) in
      ground (arith, (is_yours_known k k (call_run h m)).0, v.either p)
