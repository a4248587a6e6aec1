-- ===== src/Tests/Members.antt =====
-- Members, their lists and their removal.
use go_rtp_cluster.Base.{
  ◌≡◌, refl, true, false, List, [], ◌∷◌, pos, Str, codes, arith, ◌==◌, nat_eq, str_eq, ℕ_discrete,
  if◌then◌else◌,
}
use go_rtp_cluster.Base.Dict.{has, lookup}
use go_rtp_cluster.Member.{Member, suspended, draining, is_yours, bind_session, call_id_map_aging}
use go_rtp_cluster.Member.Sessions.{bind_session-aging}
use go_rtp_cluster.Cluster.{Cluster}
use go_rtp_cluster.Cluster.Events.{bring_down, update_active}
use go_rtp_cluster.Cluster.Invariant.{Inv, is_listed}
use go_rtp_cluster.Cluster.Invariant.History.{
  Event, adds, goes_online, goes_offline, ages, brings_down, updates, sets_status, run,
}
use go_rtp_cluster.Cluster.Drain.{IsDraining, bring_down_lem, update_active-draining, run-gone}
use go_rtp_cluster.Tests.Toy.{toy, member, trio}

abbrev call : Str
call = codes "c1"

-- A member that has the call in its old map.
abbrev busy : Member
busy = record (member true) { call_id_map_old = (call, true) ∷ [] }

-- A member that serves two calls.
abbrev serving : Member
serving = record (member true) { call_id_map = (call, true) ∷ (codes "c2", true) ∷ [] }

bind_session-aging_example :
    (is_yours call (call_id_map_aging (bind_session call b'U' (member true)))).1 ≡ false
unfolding has lookup
bind_session-aging_example = (bind_session-aging call b'U' (member true) (omega arith) refl refl).1

history : List Event
history =
    goes_offline 0
    ∷ goes_online 2
    ∷ brings_down 1
    ∷ updates 1 (pos 0) (pos 0) (pos 0) (pos 0) (pos 0)
    ∷ adds (member true)
    ∷ sets_status 2 suspended
    ∷ ages 2
    ∷ []

-- Member 0 of the trio serves two calls and three sessions.
abbrev loaded : Cluster
loaded = record trio { members = λ r. if r == 0 then serving else trio.members r }

loaded-Inv : Inv loaded
loaded-Inv = record {
  active_once = ground arith;
  pending_once = ground arith;
  apart = λ r h. ground arith;
  allocated = λ r h. ground arith;
  up = λ r h. ground arith;
  down = λ r h. ground arith;
  wired = λ r h. ground arith;
}

bring_down_lem_example : IsDraining 0 loaded (bring_down 0 loaded)
unfolding ℕ_discrete
bring_down_lem_example = bring_down_lem 0 loaded loaded-Inv

abbrev drained : Cluster
drained = record trio {
  members = λ r.
      if r == 0
      then record serving { status = draining; on_active_update = true }
      else trio.members r;
}

drained-Inv : Inv drained
drained-Inv = record {
  active_once = ground arith;
  pending_once = ground arith;
  apart = λ r h. ground arith;
  allocated = λ r h. ground arith;
  up = λ r h. ground arith;
  down = λ r h. ground arith;
  wired = λ r h. ground arith;
}

update_active-draining_example :
    is_listed 0 (update_active 0 (pos 0) (pos 0) (pos 0) (pos 0) (pos 0) drained) ≡ false
unfolding ℕ_discrete
update_active-draining_example =
    update_active-draining 0 drained drained-Inv (pos 0) (pos 0) (pos 0) (pos 0) (pos 0) refl refl
      refl (ground arith)

abbrev reduced : Cluster
reduced = record trio { active = 1 ∷ [] }

run-gone_example : is_listed 0 (run history reduced) ≡ false
unfolding ℕ_discrete
run-gone_example = run-gone 0 history reduced (omega arith) refl
