-- ===== src/Command/Broadcasts.antt =====
-- A command that goes to every online member: the sending, and `merge_results` and
-- `merge_stats_results`, which collect the answers.
pub mod Merging
pub mod Sent
pub mod Statistics
pub mod Report
use mathlib.Core.Option
use go_rtp_cluster.Base.{
  ℕ, suc, ◌≡◌, Bool, true, false, ◌&&◌, ◌||◌, not, Option, none, some, List, [], ◌∷◌, ◌++◌, ℤ, pos,
  dec64, ltb_ℤ, Str, codes, ◌==◌, nat_eq, str_eq, if◌then◌else◌, length, replicate, keep_if,
}
use go_rtp_cluster.Text.{to_upper, join_bar}
use go_rtp_cluster.Externals.{Externals, Cmd, UlOpts}
use go_rtp_cluster.Member.{Member, is_online, bind_session, stats_cache_get, stats_cache_set}
use go_rtp_cluster.Cluster.{
  Cluster, Broadcast, Clim, Effect, Callback, command, merge, merge_stats, put, put_broadcast,
}
use go_rtp_cluster.Command.{Outcome}
use go_rtp_cluster.Command.Reply.{down_command}

-- `make([]string, 1000)`
unfoldable pub made_results : List Str
made_results = replicate 1000 []

-- Whether the first byte of an answer is `E` in either case.
abbrev pub is_error : ℕ → Bool
is_error b = to_upper (b ∷ []) == codes "E"

abbrev pub is_ul : ℕ → Bool
is_ul kind = kind == b'U' || kind == b'L'

module _ ⦃E : Externals⦄ where
  open E use {Rest, Stats}

  unfoldable pub new_broadcaster : ℤ → Clim → Cmd Rest → Option Stats → Option ℕ → Broadcast
  new_broadcaster n clim cmd sobj rtpp = record {
    bcount = n;
    ecount = n;
    nparts = n;
    results = made_results;
    clim = clim;
    cmd = cmd;
    sobj = sobj;
    rtpp = rtpp;
  }

  abbrev pub online : Cluster → List ℕ
  online c = keep_if (λ r. is_online (c.members r)) c.active

  -- The text for one member. A U or L command to a member with a private address is parsed again,
  -- which can fail, and gets that address.
  unfoldable pub member_command : ℕ → Str → Member → Option Str
  member_command kind orig m =
      if is_ul kind && not (m.lan_address == [])
      then Option.map
          (λ (cmd : Cmd Rest). E.cmd_string (record cmd {
            ul_opts = record cmd.ul_opts { local_ip = m.lan_address; destination_ip = [] };
          }))
          (E.parse_cmd orig)
      else some orig

  -- The loop over the members, with the variable that its callbacks share: what was sent, the last
  -- value of the variable, and whether the loop came to its end.
  unfoldable pub send_each :
      (Member → Option Str) → Callback → (ℕ → Member) → Option ℕ → List ℕ → List Effect × Option ℕ
  send_each text callback members rtpp [] = ([], rtpp)
  send_each text callback members rtpp (r ∷ rs) =
      let (es, last) = send_each text callback members (some r) rs in
      elim (text (members r)) [
        | none ↦ ([], some r)
        | some out ↦ (command r out callback ∷ es, last)
      ]

  abbrev pub next_id : Cluster → Cluster
  next_id c = record c { next_broadcast = suc c.next_broadcast }

  -- The broadcast of a command for a session that no member is known to have.
  unfoldable pub broadcast : Clim → Cmd Rest → Str → Cluster → Outcome
  broadcast clim cmd orig c =
      let b = c.next_broadcast in
      let (es, last) =
        send_each (member_command cmd.kind orig) (merge b) c.members none (online c) in
      some (
        put_broadcast b (new_broadcaster (pos (length (online c))) clim cmd none last) (next_id c),
        es,
      )

  -- The broadcast of a G command.
  unfoldable pub broadcast_stats : Clim → Cmd Rest → Stats → Cluster → Outcome
  broadcast_stats clim cmd sobj c =
      let b = c.next_broadcast in
      let (es, last) =
        send_each (λ _. some (E.cmd_string cmd)) (merge_stats b) c.members none (online c) in
      some (
        put_broadcast b (new_broadcaster (pos (length (online c))) clim cmd (some sobj) last)
            (next_id c),
        es,
      )

  abbrev pub member_at : Cluster → Option ℕ → Option Member
  member_at c = Option.map c.members

  -- `merge_results`, for an answer that is not empty.
  unfoldable pub collect : Broadcast → Str → Bool → Broadcast
  collect br result failed =
      if not failed && not (is_ul br.cmd.kind && result == codes "0")
      then record br { results = br.results ++ result ∷ []; bcount = dec64 br.bcount }
      else record br { bcount = dec64 br.bcount }

  unfoldable pub bind_at : Option ℕ → Cmd Rest → Cluster → Option Cluster
  bind_at none cmd c = none
  bind_at (some r) cmd c = some (put r (bind_session cmd.call_id cmd.kind (c.members r)) c)

  unfoldable pub failed_merge : Broadcast → Cluster → Outcome
  failed_merge br c =
      down_command (if is_ul br.cmd.kind then codes "0" else codes "E995") br.clim br.cmd
        (member_at c br.rtpp) c

  -- All the answers are in: exactly one result binds the session and goes back.
  unfoldable pub merged : Broadcast → List Str → Cluster → Outcome
  unfolding bind_at failed_merge
  merged br (result ∷ []) c = elim (bind_at br.rtpp br.cmd c) [
    | none ↦ none
    | some c' ↦ down_command result br.clim br.cmd (member_at c' br.rtpp) c'
  ]
  merged br results c = failed_merge br c

  unfoldable pub merge_answer : ℕ → Str → Bool → Cluster → Outcome
  merge_answer b result failed c =
      let br = collect (c.broadcasts b) result failed in
      let c' = put_broadcast b br c in
      if ltb_ℤ (pos 0) br.bcount then some (c', []) else merged br br.results c'

  -- `merge_results`; the broadcast is given by its number.
  unfoldable pub merge_results : Str → ℕ → Cluster → Outcome
  unfolding merge_answer
  merge_results [] b c = merge_answer b (codes "E996") true c
  merge_results (x ∷ s) b c = merge_answer b (x ∷ s) (is_error x) c

  -- The answer to count: an empty one is replaced by the member's last good answer, or else by an
  -- error, and a good one is kept.
  unfoldable pub cached : Str → Member → Str
  unfolding stats_cache_get
  cached names m = elim (stats_cache_get names m) [ none ↦ codes "E994" | some old ↦ old ]

  unfoldable pub stats_answer : Str → ℕ → Str → Cluster → Cluster × Str
  unfolding cached
  stats_answer names r [] c = (c, cached names (c.members r))
  stats_answer names r (x ∷ s) c =
      if is_error x
      then (c, x ∷ s)
      else (put r (stats_cache_set names (x ∷ s) (c.members r)) c, x ∷ s)

  -- A good answer that parses is added up. The second result is `ecount` of the source: the count
  -- that was read before, or the one that this answer lowered it to.
  unfoldable pub add_stats : Broadcast → Stats → Str → Option (Broadcast × ℤ)
  add_stats br sobj [] = none
  add_stats br sobj (x ∷ s) =
      let (sobj', parsed) = E.parse_and_add (x ∷ s) sobj in
      let lower = dec64 br.ecount in
      if is_error x
      then some (br, br.ecount)
      else if parsed
      then some (record br { sobj = some sobj'; ecount = lower }, lower)
      else some (record br { sobj = some sobj' }, br.ecount)

  unfoldable pub stats_reply : Broadcast → ℤ → Str
  stats_reply br ecount =
      if ltb_ℤ ecount br.nparts || ltb_ℤ br.nparts ecount
      then elim br.sobj [ none ↦ [] | some sobj ↦ E.stats_string sobj ]
      else codes "E993"

  unfoldable pub count_stats : ℕ → ℕ → Cluster → Broadcast × ℤ → Outcome
  unfolding stats_reply
  count_stats b r c (br, ecount) =
      let br' = record br { bcount = dec64 br.bcount } in
      let c' = put_broadcast b br' c in
      if ltb_ℤ (pos 0) br'.bcount
      then some (c', [])
      else down_command (stats_reply br' ecount) br'.clim br'.cmd (some (c'.members r)) c'

  unfoldable pub merge_stats_at : Str → ℕ → Broadcast → Stats → ℕ → Cluster → Outcome
  unfolding stats_answer add_stats count_stats
  merge_stats_at result b br sobj r c =
      let (c', text) = stats_answer (join_bar (E.all_names sobj)) r result c in
      elim (add_stats br sobj text) [ none ↦ none | some counted ↦ count_stats b r c' counted ]

  -- `merge_stats_results`. A broadcast with no statistics or no member is a nil pointer.
  unfoldable pub merge_stats_results : Str → ℕ → Cluster → Outcome
  unfolding merge_stats_at
  merge_stats_results result b c =
      let br = c.broadcasts b in
      elim br.sobj [
        | none ↦ none
        | some sobj ↦ elim br.rtpp [ none ↦ none | some r ↦ merge_stats_at result b br sobj r c ]
      ]
