-- ===== src/Relay/Delivery.antt =====
-- `DNWorker.run` and `deliver_dnotify`: the delivery of one queued notification to its socket. What
-- the operating system answers to a connection and to each write is an argument.
pub mod Tries
use go_rtp_cluster.Base.{
  ℕ, zero, suc, ◌≡◌, Bool, true, false, not, ◌&&◌, Option, none, some, List, [], ◌∷◌, ◌++◌, Str,
  ltb, ◌==◌, nat_eq, if◌then◌else◌, elem,
}
use go_rtp_cluster.Relay.{Worker}

-- The error that `Write` gives, as the loop tells them apart: none; one equal to `syscall.EINTR`; one
-- equal to EPIPE, ENOTCONN or ECONNRESET of package syscall; any other. Package net wraps the error
-- of the operating system, so that what the system says as EINTR or EPIPE is one of the last kind
-- here, and today no write gives the second or the third.
pub data Write : Type 0 where
  written interrupted broken failed : Write

-- What becomes of a notification: delivered as the given text, given up, refused by the socket, not
-- connected, or a panic, with the number of writes that ended. In `unfinished` the fuel is used up.
pub data Delivery : Type 0 where
  delivered : Str → ℕ → Worker → Delivery
  gave_up refused : ℕ → Worker → Delivery
  unconnected : Worker → Delivery
  crashed unfinished : Delivery

abbrev pub max_tries : ℕ
max_tries = 10

-- `strings.HasSuffix(s, "\n")`
unfoldable pub ends_line : Str → Bool
ends_line [] = false
ends_line (c ∷ []) = c == 10
ends_line (_ ∷ c ∷ s) = ends_line (c ∷ s)

unfoldable pub line_of : Str → Str
unfolding ends_line
line_of s = if ends_line s then s else s ++ 10 ∷ []

-- The loop of `deliver_dnotify`. A write through a nil connection is a panic.
unfoldable pub try_write : ℕ → ℕ → (ℕ → Write) → Str → Worker → Delivery
try_write zero tries answers text w = unfinished
try_write (suc fuel) tries answers text w = elim (ltb max_tries tries) [
  | true ↦ gave_up tries w
  | false ↦ elim w.connected [
    | false ↦ crashed
    | true ↦ elim (answers tries) [
      | written ↦ delivered text (suc tries) w
      | interrupted ↦ try_write fuel (suc tries) answers text w
      | broken ↦ try_write fuel (suc tries) answers text (record w { connected = false })
      | failed ↦ refused (suc tries) w
    ]
  ]
]

-- `deliver_dnotify`; `connects` is whether `Connect` succeeds.
unfoldable pub deliver_dnotify : Bool → (ℕ → Write) → Str → Worker → Delivery
unfolding line_of
deliver_dnotify connects answers dnstring w =
    if w.connected
    then try_write 12 0 answers (line_of dnstring) w
    else if connects
    then try_write 12 0 answers (line_of dnstring) (record w { connected = true })
    else unconnected w

-- One round of `run`. Where there is a notification and the worker was told to stop, `select` may
-- take either: `stops_first` is its choice. `none` is the end of the worker, or a wait.
unfoldable pub run_once : Bool → Bool → (ℕ → Write) → Worker → Option Delivery
run_once stops_first connects answers w = elim w.queue [
  | [] ↦ none
  | text ∷ rest ↦
      if w.stopped && stops_first
      then none
      else some (deliver_dnotify connects answers text (record w { queue = rest }))
]
