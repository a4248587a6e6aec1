-- ===== src/Relay/Workers.antt =====
-- What a received notification does to the workers.
use go_rtp_cluster.Base.{
  ◌≡◌, true, false, some, [], ◌∷◌, ◌++◌, Str, arith, ltb, str_eq, if◌then◌else◌, length, elem,
}
use go_rtp_cluster.Base.Dict.{Dict, insert}
use go_rtp_cluster.Text.{split_n2-join, split_n2-one}
use go_rtp_cluster.Externals.{Externals}
use go_rtp_cluster.Relay.{
  Worker, Relay, queued, blocked, panicked, recv_dnotify, worker_of, send_denotify, queue_cap,
}

module _ ⦃E : Externals⦄ (r : Relay) (ws : Dict Worker) (running : r.workers ≡ some ws) where
  -- A notification `head tail`, with no space in `head`, to a running relay is put at the end of
  -- the queue of the worker of the socket `dest_sprefix head`, one being made if there is none; no
  -- other worker changes. If that queue is full the sender waits.
  pub recv_dnotify_lem :
      (head tail : Str)
      → elem 32 head ≡ false
      → let socket = r.dest_sprefix ++ head in
        let w = worker_of socket ws in
        recv_dnotify (head ++ 32 ∷ tail) r ≡ (
          if ltb (length w.queue) queue_cap
          then queued (record r {
            workers = some (insert socket (record w { queue = w.queue ++ tail ∷ [] }) ws);
          })
          else blocked (record r { workers = some (insert socket w ws) }))
  unfolding recv_dnotify send_denotify
  recv_dnotify_lem head tail h =
      rw (split_n2-join head tail h, recv_dnotify) (ground (arith, running))

  -- The same where there is room, at the socket's whole name.
  pub recv_dnotify-queued :
      (head tail socket : Str)
      → elem 32 head ≡ false
      → r.dest_sprefix ++ head ≡ socket
      → ltb (length (worker_of socket ws).queue) queue_cap ≡ true
      → recv_dnotify (head ++ 32 ∷ tail) r
        ≡ queued (record r {
          workers = some (
              insert socket
                (record (worker_of socket ws) { queue = (worker_of socket ws).queue ++ tail ∷ [] })
                ws);
        })
  recv_dnotify-queued head tail socket h e room = rw (recv_dnotify_lem head tail h, e, room)

-- A notification with no space in it stops the program.
recv_dnotify_no_space :
    ⦃E : Externals⦄ (dnstring : Str) (r : Relay)
    → elem 32 dnstring ≡ false
    → recv_dnotify dnstring r ≡ panicked
unfolding recv_dnotify
recv_dnotify_no_space s r h = rw (split_n2-one s h, recv_dnotify)
