-- ===== src/Tests/Running.antt =====
-- A cluster that serves commands while its members come and go, the use of calls, and the start.
use go_rtp_cluster.Base.{
  All, ◌≡◌, refl, true, false, none, some, List, [], ◌∷◌, pos, ◌+ℤ◌, ◌-ℤ◌, codes, arith, ◌==◌,
  nat_eq, str_eq, str_dec, ℕ_discrete, length, negsuc, if◌then◌else◌,
}
use go_rtp_cluster.Base.Dict.{has, lookup, insert, erase}
use go_rtp_cluster.Text.{cut_at, split_n2, has_byte, to_upper, fields, trim_space, is_space}
use go_rtp_cluster.Member.{is_yours, bind_session, status_is, get_caputil}
use go_rtp_cluster.Cluster.{put, put_broadcast}
use go_rtp_cluster.Cluster.Events.{go_offline}
use go_rtp_cluster.Cluster.Pool.{rtpp_status_change, move_to_pending}
use go_rtp_cluster.Cluster.Invariant.{Inv}
use go_rtp_cluster.Cluster.Invariant.History.{goes_offline, step}
use go_rtp_cluster.Command.Reply.{down_command, answer}
use go_rtp_cluster.Command.Pick.{pick_proxy, weight_of, walk, sum_weights}
use go_rtp_cluster.Command.Notify.{rewrite_notify}
use go_rtp_cluster.Command.Broadcasts.{broadcast, send_each, member_command, new_broadcaster}
use go_rtp_cluster.Command.Dispatch.{
  find_yours, owner, forward, notify_and_forward, new_session, unknown_session, session_command,
  dispatch, up_command,
}
use go_rtp_cluster.Command.Dispatch.Callbacks.{deliver}
use go_rtp_cluster.Command.Udp.{up_command_udp, cached_response, rcache_purge}
use go_rtp_cluster.System.{
  System, Happening, datagram, answered, member_event, purged, happen, happen_all,
}
use go_rtp_cluster.System.Quiet.{Clean}
use go_rtp_cluster.System.Panics.Never.{Sane, happen_all-some}
use go_rtp_cluster.System.Lists.{happen_all-Inv}
use go_rtp_cluster.System.Outstanding.{Tracked}
use go_rtp_cluster.System.Kept.{happen_all-Tracked}
use go_rtp_cluster.Member.Usage.{
  CallEvent, looked_up, bound, unbound, aged, lifetime, call_run, call_run-found,
}
use go_rtp_cluster.Config.RoundTrip.Documents.{config_tokens}
use go_rtp_cluster.Cli.{Cli}
use go_rtp_cluster.Cli.Loading.{on}
use go_rtp_cluster.Cli.Start.{start_program}
use go_rtp_cluster.Cli.Start.Valid.{start_program-on}
use go_rtp_cluster.Cli.Main.{
  Flag, flag_f, flag_o, parse_options, MainConfig, new_main_config, Host, set_owner, main,
}
use go_rtp_cluster.Cli.Main.Ready.{Ready, starting_acts, main-on, Ready-main}
use go_rtp_cluster.Tests.Configs.{documented, document_readable, document_taken}
use go_rtp_cluster.Tests.Toy.{toy, host, toy-IsClient, member, trio, trio-Inv}

-- A new call, which member 1 takes and member 0 leaves; an unknown call, which is asked of all.
abbrev happenings : List Happening
happenings =
    datagram (pos 0) (codes "k U c1") (codes "a")
    ∷ member_event (goes_offline 0)
    ∷ answered 0 (codes "4000")
    ∷ purged
    ∷ datagram (pos 0) (codes "n L c9") (codes "a")
    ∷ []

abbrev started : System
started = record { cluster = trio; waiting = [] }

abbrev finished : System
finished = elim (happen_all happenings started) [ none ↦ started | some t ↦ t ]

ran : happen_all happenings started ≡ some finished
unfolding happen_all happen up_command_udp ℕ_discrete split_n2 has str_dec cached_response
    up_command dispatch has_byte session_command owner find_yours is_yours put new_session
    pick_proxy weight_of get_caputil sum_weights walk status_is ◌+ℤ◌ ◌-ℤ◌ notify_and_forward
    rewrite_notify forward member_command lookup insert erase step go_offline rtpp_status_change
    move_to_pending deliver down_command answer rcache_purge unknown_session broadcast send_each
    put_broadcast new_broadcaster bind_session fields trim_space is_space to_upper
ran = refl

one_waits : length finished.waiting ≡ 1
unfolding ran
one_waits = refl

happen_all-Inv_example : Inv finished.cluster
happen_all-Inv_example = happen_all-Inv toy-IsClient happenings started finished trio-Inv ran

happen_all-Tracked_example : Tracked finished.cluster finished.waiting
happen_all-Tracked_example =
    happen_all-Tracked toy-IsClient happenings trio finished (omega arith) trio-Inv ran

-- A call that is bound, used between the runs of the timer, and released.
abbrev used : List CallEvent
used =
    bound (codes "c1") b'U'
    ∷ looked_up (codes "c1")
    ∷ aged
    ∷ looked_up (codes "c1")
    ∷ aged
    ∷ looked_up (codes "c2")
    ∷ unbound (codes "c1")
    ∷ []

call_run-found_example : (is_yours (codes "c1") (call_run used (member true))).1 ≡ true
unfolding lifetime str_dec
call_run-found_example = call_run-found (codes "c1") used (member true) (ground arith)

-- A system with one user, where every file and socket can be made.
abbrev machine : Host
machine = record {
  user = λ name. if name == codes "rtp" then some (pos 7) else none;
  group = λ name. none;
  tokens = λ file. config_tokens (codes "\n") documented;
  creates = λ file. true;
  listens = λ file uid gid. true;
}

abbrev flags : List Flag
flags = flag_f true ∷ flag_o (codes "rtp") ∷ []

abbrev socket_config : MainConfig
socket_config = record { sock_uid = pos 7; sock_gid = negsuc 0; conffile = [] }

machine-Ready : Ready machine (parse_options flags) socket_config
unfolding parse_options set_owner new_main_config str_dec cut_at
machine-Ready = record { owned = refl; runs = refl; pid = refl; socket = refl }

documented_runs :
    (s : Cli) × (start_program host false (config_tokens (codes "\n") documented) ≡ on s)
    × (length s.rtp_clusters ≡ 1)
unfolding str_dec
documented_runs =
    start_program-on host (codes "\n") documented document_taken document_readable refl

main-on_example :
    (g : MainConfig) × Ready machine (parse_options flags) g
    × ((main machine host flags).0 ≡ starting_acts (parse_options flags) g)
    × (start_program host false (config_tokens (codes "\n") documented) ≡ on documented_runs.0)
unfolding parse_options
main-on_example =
    main-on machine host flags documented_runs.0 (
      Ready-main machine host flags documented_runs.0 socket_config machine-Ready documented_runs.1)

happenings-Sane : All Sane happenings
unfolding split_n2 fields trim_space is_space ℕ_discrete cut_at
happenings-Sane = ((λ e. cc), (tt, ((λ e. cc), (tt, ((λ e. cc), tt)))))

trio-Clean : Clean trio
unfolding lookup
trio-Clean = record { filled = λ r. record { good = λ k. ground arith } }

happen_all-some_example : (t : System) × (happen_all happenings started ≡ some t)
happen_all-some_example =
    happen_all-some (λ text cmd e u t f. cc) happenings trio trio-Clean happenings-Sane
