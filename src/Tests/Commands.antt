-- ===== src/Tests/Commands.antt =====
-- Commands, answers, repeated datagrams and notifications.
use go_rtp_cluster.Base.{
  if◌then◌else◌, ◌==◌, nat_eq, ◌≡◌, refl, ◌≢◌, true, false, none, some, List, [], ◌∷◌, ◌++◌, pos,
  codes, arith, nat_eq, str_eq, str_dec, ℕ_discrete, inl,
}
use go_rtp_cluster.Base.Int.{◌+ℤ◌, ◌-ℤ◌}
use go_rtp_cluster.Base.Dict.{has, lookup, insert, erase}
use go_rtp_cluster.Text.{
  trim_prefix, has_byte, has_prefix, fields, trim_space, is_space, to_upper, split_n2,
}
use go_rtp_cluster.Text.Url.{query_unescape}
use go_rtp_cluster.Externals.{Cmd}
use go_rtp_cluster.Member.{unbind_session, is_yours, status_is, get_caputil}
use go_rtp_cluster.Cluster.{
  Cluster, Effect, unix, command, down, ignore, merge, merge_stats, send_to, send, close, put,
}
use go_rtp_cluster.Relay.{new_worker, queued, recv_dnotify, worker_of}
use go_rtp_cluster.Relay.Workers.{recv_dnotify_lem}
use go_rtp_cluster.Command.Reply.{answer, down_command}
use go_rtp_cluster.Command.Reply.Addresses.{answer_address}
use go_rtp_cluster.Command.Pick.{heaviest, pick_proxy, walk, weight_of, sum_weights}
use go_rtp_cluster.Command.Pick.Overload.{IsOrder, pick_proxy-heaviest}
use go_rtp_cluster.Command.Pick.Choice.{Eligible, pick_proxy-Eligible, pick_proxy-ne-none}
use go_rtp_cluster.Command.Notify.{passed, rewrite_notify}
use go_rtp_cluster.Command.Notify.RoundTrip.{rewrite_notify_round_trip, Delivers}
use go_rtp_cluster.Command.Broadcasts.{broadcast, broadcast_stats, member_command}
use go_rtp_cluster.Command.Broadcasts.Statistics.{tally, merge_stats_each}
use go_rtp_cluster.Command.Broadcasts.Report.{broadcast_stats_lem}
use go_rtp_cluster.Command.Broadcasts.Merging.{merge_each}
use go_rtp_cluster.Command.Broadcasts.Sent.{broadcast_lem}
use go_rtp_cluster.Command.Dispatch.{owner, find_yours, dispatch}
use go_rtp_cluster.Command.Dispatch.Routing.{first_knowing, Sent, SentRedirected}
use go_rtp_cluster.Command.Dispatch.Sticky.{dispatch-sticky}
use go_rtp_cluster.Command.Dispatch.Known.{dispatch-known, dispatch-delete}
use go_rtp_cluster.Command.Dispatch.Offline.{dispatch-delete_offline}
use go_rtp_cluster.Command.Reply.Sending.{closed}
use go_rtp_cluster.Command.Udp.{up_command_udp, cached_response, rcache_purge}
use go_rtp_cluster.Command.Udp.Retransmit.{Repeats, down_command-repeated, unparsable-silent}
use go_rtp_cluster.Command.Udp.Window.{
  CacheEvent, cache_run, cache_step, latest, cached_response-latest,
}
use go_rtp_cluster.Tests.Toy.{toy, no_opts, member, trio, relay, command_of}

abbrev update : Cmd (Unit {0})
update = command_of b'U' (codes "c1")

picked : pick_proxy (pos 0) (owner update trio).0 ≡ some 1
unfolding pick_proxy owner find_yours is_yours has lookup put weight_of get_caputil sum_weights walk
    status_is str_dec ℕ_discrete ◌+ℤ◌ ◌-ℤ◌
picked = refl

dispatch-sticky_example :
    (d : Cluster) × (es : List Effect) × (dispatch (pos 0) (unix 1) update (codes "U c1") trio
      ≡ some (d, es))
    × SentRedirected (unix 1) 1 update (codes "U c1") d es
    × ((owner (command_of b'D' (codes "c1")) d).1 ≡ some 1)
unfolding first_knowing has lookup str_dec ℕ_discrete
dispatch-sticky_example =
    dispatch-sticky (pos 0) (unix 1) update (command_of b'D' (codes "c1")) (codes "U c1") trio 1
      refl refl picked refl

abbrev served : Cluster
served = record trio {
  members = λ r.
      if r == 1
      then record (member true) { call_id_map = (codes "c1", true) ∷ [] }
      else trio.members r;
}

-- A command of a call that member 1 serves.
abbrev lookup_c1 : Cmd (Unit {0})
lookup_c1 = command_of b'L' (codes "c1")

dispatch-known_example :
    (es : List Effect) × (dispatch (pos 0) (unix 1) lookup_c1 (codes "L c1") served
      ≡ some ((owner lookup_c1 served).0, es))
    × SentRedirected (unix 1) 1 lookup_c1 (codes "L c1") (owner lookup_c1 served).0 es
unfolding first_knowing has_byte has lookup str_dec ℕ_discrete
dispatch-known_example =
    dispatch-known (pos 0) (unix 1) lookup_c1 (codes "L c1") served 1 refl refl refl

abbrev delete_c1 : Cmd (Unit {0})
delete_c1 = command_of b'D' (codes "c1")

dispatch-delete_example :
    (es : List Effect) × (dispatch (pos 0) (unix 1) delete_c1 (codes "D c1") served
      ≡ some (
        put 1
            (unbind_session (codes "c1") ((owner delete_c1 served).0.members 1))
            (owner delete_c1 served).0,
        es,
      ))
    × Sent
        (down (unix 1) delete_c1 1)
        1
        b'D'
        (codes "D c1")
        (put 1
          (unbind_session (codes "c1") ((owner delete_c1 served).0.members 1))
          (owner delete_c1 served).0)
        es
unfolding first_knowing has_byte owner find_yours put is_yours has lookup str_dec ℕ_discrete
dispatch-delete_example =
    dispatch-delete (pos 0) (unix 1) delete_c1 (codes "D c1") served 1 refl refl refl refl

-- The member that serves the call is offline, and pending.
abbrev away : Cluster
away = record trio {
  active = 0 ∷ [];
  pending = 1 ∷ [];
  members = λ r.
      if r == 1
      then record (member false) { call_id_map = (codes "c1", true) ∷ [] }
      else trio.members r;
}

dispatch-delete_offline_example :
    (d : Cluster) × (es : List Effect) × (dispatch (pos 0) (unix 1) delete_c1 (codes "D c1") away
      ≡ some (d, (send 1 (codes "0\n") ∷ close 1 ∷ []) ++ es))
    × (d
        ≡ closed (unix 1) (codes "0\n") (
            put 1
              (unbind_session (codes "c1") ((owner delete_c1 away).0.members 1))
              (owner delete_c1 away).0))
    × Sent (ignore 1) 1 b'D' (codes "D c1") d es
unfolding first_knowing owner find_yours put is_yours has lookup str_dec ℕ_discrete
dispatch-delete_offline_example =
    dispatch-delete_offline (pos 0) (unix 1) delete_c1 (codes "D c1") away 1 refl (λ e. cc) refl
      refl refl

first_picked : pick_proxy (pos 0) trio ≡ some 1
unfolding pick_proxy weight_of get_caputil sum_weights walk status_is ℕ_discrete ◌+ℤ◌ ◌-ℤ◌
first_picked = refl

pick_proxy-Eligible_example : Eligible trio 1
pick_proxy-Eligible_example = pick_proxy-Eligible (pos 0) trio first_picked

pick_proxy-ne-none_example : pick_proxy (pos 0) trio ≢ none
unfolding status_is weight_of get_caputil ℕ_discrete ◌-ℤ◌
pick_proxy-ne-none_example = pick_proxy-ne-none (pos 0) trio 1 refl refl (inl refl)

answer_address_example :
    answer (codes "40000 9.9.9.9") update (some (member true)) ≡ some (codes "40000 1.2.3.4")
unfolding has_byte fields trim_space is_space to_upper str_dec ℕ_discrete
answer_address_example =
    answer_address b'4' (codes "0000 9.9.9.9") (codes "40000") (codes "9.9.9.9" ∷ []) update
      (member true) refl refl refl

abbrev answered : Cluster
answered = record trio { l1rcache = (codes "k", codes "0\n") ∷ [] }

split_k : toy.fields_n (codes "k U c1") 2 ≡ codes "k" ∷ codes "U c1" ∷ []
unfolding split_n2 ℕ_discrete
split_k = refl

down_command-repeated_example :
    Repeats
      (pos 0)
      (codes "k U c1")
      (codes "k")
      (codes "U c1")
      (codes "h:1")
      []
      split_k
      (codes "h:1")
      answered
      (send_to (codes "k 0\n") (codes "h:1") ∷ [])
unfolding down_command answer has_byte str_dec ℕ_discrete erase insert
down_command-repeated_example =
    down_command-repeated (pos 0) (codes "k U c1") (codes "k") (codes "U c1") (codes "h:1") []
      split_k (codes "0") (codes "h:1") (command_of b'D' (codes "c1")) none trio answered
      (send_to (codes "k 0\n") (codes "h:1") ∷ []) refl

unparsable-silent_example :
    (d : Cluster) × (up_command_udp (pos 0) (codes "k U") (codes "h:1") trio ≡ some (d, []))
    × (up_command_udp (pos 0) (codes "k U") (codes "h:1") d ≡ some (d, []))
    × (up_command_udp (pos 0) (codes "k U") (codes "h:1") (rcache_purge d)
        ≡ some (rcache_purge d, []))
unfolding split_n2 has lookup cached_response str_dec ℕ_discrete
unparsable-silent_example =
    unparsable-silent (pos 0) (codes "k U") (codes "k") (codes "U") (codes "h:1") [] refl trio refl
      refl refl

-- An update whose notification goes to unix:/r/a with the tag t%201.
abbrev notifying : Cmd (Unit {0})
notifying = record update {
  ul_opts = record no_opts { notify_socket = codes "unix:/r/a"; notify_tag = codes "t%201" };
}

rewrite_notify_round_trip_example :
    (cmd' : Cmd (Unit {0})) × (rewrite_notify (some relay) (member true) notifying (codes "U c1")
      ≡ passed cmd' (cmd'.kind ∷ 32 ∷ cmd'.call_id))
    × (cmd'.ul_opts.notify_socket ≡ codes "tcp:%%CC_SELF%%:1.1.1.1:9")
    × Delivers relay [] notifying (codes "t 1") cmd'
unfolding has_byte has_prefix query_unescape worker_of lookup str_dec ℕ_discrete
rewrite_notify_round_trip_example =
    rewrite_notify_round_trip relay [] (member true) notifying (codes "U c1") (codes "t 1") refl
      refl refl refl refl refl (omega arith) refl (omega arith) refl refl

broadcast_lem_example :
    (d e : Cluster) × (broadcast (unix 1) (command_of b'Q' (codes "c9")) (codes "Q c9") trio
      ≡ some (d, command 0 (codes "Q c9") (merge 0) ∷ command 1 (codes "Q c9") (merge 0) ∷ []))
    × (merge_each 0 (codes "E8" ∷ codes "5 0 0" ∷ []) d
        ≡ some (e, send 1 (codes "E995\n") ∷ close 1 ∷ []))
    × (e.members ≡ trio.members)
unfolding member_command ℕ_discrete
broadcast_lem_example =
    broadcast_lem (unix 1) (command_of b'Q' (codes "c9")) (codes "Q c9") (λ q. codes "Q c9") trio 0
      (1 ∷ []) (codes "E8") (codes "5 0 0" ∷ []) refl (λ q. refl) refl (omega arith)

recv_dnotify_lem_example :
    recv_dnotify (codes "/a t 1") relay
    ≡ queued (record relay {
      workers = some (
          (
            codes "unix:/r/a",
            record {
              spath = codes "/r/a";
              queue = codes "t 1" ∷ [];
              connected = false;
              stopped = false;
            },
          )
          ∷ []);
    })
unfolding trim_prefix worker_of new_worker lookup insert str_dec ℕ_discrete
recv_dnotify_lem_example = recv_dnotify_lem relay [] refl (codes "/a") (codes "t 1") refl

toy-IsOrder : IsOrder toy (λ x. Unit)
toy-IsOrder = record {
  asym = λ a b p q h. ground arith;
  chain = λ a b c p q r h k. ground arith;
  irreflexive = λ a p. ground arith;
}

-- A cluster whose members may take no more, which it may exceed.
abbrev full : Cluster
full = record trio {
  capacity_limit_soft = true;
  members = λ r. record (member true) { weight = pos 0 };
}

full_picked : pick_proxy (pos 0) full ≡ some 0
unfolding pick_proxy weight_of get_caputil sum_weights walk status_is ℕ_discrete ◌+ℤ◌ ◌-ℤ◌ heaviest
full_picked = refl

pick_proxy-heaviest_example :
    toy.lt (weight_of (full.members 0)) (weight_of (full.members 1)) ≡ false
unfolding weight_of get_caputil status_is ℕ_discrete ◌-ℤ◌
pick_proxy-heaviest_example =
    pick_proxy-heaviest (λ x. Unit) toy-IsOrder (pos 0) full 0 1 (λ p i k. tt) (λ p i k. refl)
      full_picked refl refl

cached_response-latest_example : cached_response (codes "k") answered ≡ codes "0\n"
unfolding cache_run cache_step latest down_command answer has_byte str_dec ℕ_discrete erase insert
cached_response-latest_example =
    cached_response-latest (codes "k")
      (CacheEvent.answered (codes "k") (codes "h:1") (codes "0") (command_of b'D' (codes "c1")) none
        ∷ [])
      trio answered refl refl refl

abbrev statistics : Cmd (Unit {0})
statistics = command_of b'G' []

broadcast_stats_lem_example :
    (d e : Cluster) × (broadcast_stats (unix 1) statistics [] trio
      ≡ some
          (d, command 0 (codes "G ") (merge_stats 0) ∷ command 1 (codes "G ") (merge_stats 0) ∷ []))
    × (merge_stats_each 0 (codes "7" ∷ codes "E1" ∷ []) d
        ≡ down_command (codes "7") (unix 1) statistics (some (e.members 1)) e)
unfolding tally to_upper str_dec ℕ_discrete
broadcast_stats_lem_example =
    broadcast_stats_lem (unix 1) statistics [] trio 0 (1 ∷ []) (codes "7") (codes "E1" ∷ []) refl
      refl (omega arith) ((λ e. cc), ((λ e. cc), tt))
