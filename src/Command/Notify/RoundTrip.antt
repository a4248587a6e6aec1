-- ===== src/Command/Notify/RoundTrip.antt =====
-- A redirected notification comes back to the socket and with the tag of the original command.
use go_rtp_cluster.Base.{
  ◌≡◌, refl, true, false, some, [], ◌∷◌, ◌++◌, Str, codes, arith, ltb, ◌==◌, str_eq, length, drop,
  elem,
}
use go_rtp_cluster.Base.Dict.{Dict, insert}
use go_rtp_cluster.Text.{has_prefix, has_byte, has_prefix-split}
use go_rtp_cluster.Text.Url.{query_escape, query_unescape, IsBytes, unescape-escape}
use go_rtp_cluster.Externals.{Externals, Cmd}
use go_rtp_cluster.Member.{Member}
use go_rtp_cluster.Relay.{Relay, Worker, queued, recv_dnotify, worker_of, queue_cap}
use go_rtp_cluster.Relay.Workers.{recv_dnotify-queued}
use go_rtp_cluster.Command.Notify.{passed, rewrite_notify}

IsBytes-join : (a b : Str) → IsBytes a → IsBytes b → IsBytes (a ++ 32 ∷ b)
IsBytes-join [] b h k = (omega arith, k)
IsBytes-join (c ∷ a) b h k = (h.0, IsBytes-join a b h.1 k)

module _ ⦃E : Externals⦄ where
  open E use {Rest}

  -- What the relay does with the notification that the redirected command asks for: the tag of the
  -- original command goes to the worker of the original command's socket.
  abbrev pub Delivers : Relay → Dict Worker → Cmd Rest → Str → Cmd Rest → Type 0
  Delivers d ws cmd tag cmd' =
      (text : Str) × (query_unescape cmd'.ul_opts.notify_tag ≡ some text)
      × (recv_dnotify text d
          ≡ queued (record d {
            workers = some (
                insert cmd.ul_opts.notify_socket
                  (record (worker_of cmd.ul_opts.notify_socket ws) {
                    queue = (worker_of cmd.ul_opts.notify_socket ws).queue ++ tag ∷ [];
                  })
                  ws);
          }))

  module _ (d : Relay) (ws : Dict Worker) (m : Member) (cmd : Cmd Rest) (orig tag : Str) where
    -- A U or L command whose socket lies under the prefix of the running relay, and whose tag can
    -- be decoded, is sent to a remote member that supports notifications with a new socket and tag.
    -- The notification with that tag reaches the queue of the original socket with the original
    -- tag, if the path behind the prefix has no space and the queue has room.
    pub rewrite_notify_round_trip :
        has_byte (codes "UL") cmd.kind ≡ true
        → (cmd.ul_opts.notify_socket == []) ≡ false
        → E.wdnt_supported m.client ≡ true
        → E.is_local m.client ≡ false
        → has_prefix cmd.ul_opts.notify_socket d.dest_sprefix ≡ true
        → elem 32 (drop (length d.dest_sprefix) cmd.ul_opts.notify_socket) ≡ false
        → IsBytes (drop (length d.dest_sprefix) cmd.ul_opts.notify_socket)
        → query_unescape cmd.ul_opts.notify_tag ≡ some tag
        → IsBytes tag
        → d.workers ≡ some ws
        → ltb (length (worker_of cmd.ul_opts.notify_socket ws).queue) queue_cap ≡ true
        → (cmd' : Cmd Rest) × (rewrite_notify (some d) m cmd orig ≡ passed cmd' (E.cmd_string cmd'))
          × (cmd'.ul_opts.notify_socket ≡ codes "tcp:%%CC_SELF%%:" ++ E.port_string d.in_address)
          × Delivers d ws cmd tag cmd'
    unfolding rewrite_notify
    rewrite_notify_round_trip ul socket wdnt remote prefix no_space bytes unescaped tag_bytes
          running room =
        (
          record cmd {
            ul_opts = record cmd.ul_opts {
              notify_socket = codes "tcp:%%CC_SELF%%:" ++ E.port_string d.in_address;
              notify_tag = query_escape (path ++ (b' ' ∷ tag));
            };
          },
          ground arith,
          refl,
          (
            path ++ (b' ' ∷ tag),
            unescape-escape (path ++ (b' ' ∷ tag)) (IsBytes-join path tag bytes tag_bytes),
            recv_dnotify-queued d ws running path tag cmd.ul_opts.notify_socket no_space
                (has_prefix-split cmd.ul_opts.notify_socket d.dest_sprefix prefix) room,
          ),
        )
      where
        path : Str
        path = drop (length d.dest_sprefix) cmd.ul_opts.notify_socket
