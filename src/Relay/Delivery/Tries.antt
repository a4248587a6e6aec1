-- ===== src/Relay/Delivery/Tries.antt =====
-- How many writes the delivery of a notification makes.
use go_rtp_cluster.Base.{ℕ, zero, suc, ◌+◌, ◌≤◌, ◌<◌, Bool, true, false, Str, arith}
use go_rtp_cluster.Relay.{Worker}
use go_rtp_cluster.Relay.Delivery.{
  Write, Delivery, delivered, gave_up, refused, unconnected, crashed, unfinished, line_of,
  try_write, deliver_dnotify,
}

-- The loop has ended, after at most so many writes.
abbrev pub EndsWithin : ℕ → Delivery → Type 0
EndsWithin n (delivered _ k _) = k ≤ n
EndsWithin n (gave_up k _) = k ≤ n
EndsWithin n (refused k _) = k ≤ n
EndsWithin n (unconnected _) = Unit
EndsWithin n crashed = Unit
EndsWithin n unfinished = ⊥

try_write-EndsWithin :
    (fuel tries : ℕ) (answers : ℕ → Write) (text : Str) (w : Worker)
    → tries ≤ 11
    → 11 < tries + fuel
    → EndsWithin 11 (try_write fuel tries answers text w)
unfolding try_write
try_write-EndsWithin zero tries answers text w h k = absurd (omega arith)
try_write-EndsWithin (suc fuel) tries answers text w h k = ground (
  arith,
  try_write-EndsWithin fuel (suc tries) answers text w,
  try_write-EndsWithin fuel (suc tries) answers text (record w { connected = false }),
)

-- Whatever the operating system answers, a delivery ends, after at most eleven writes.
pub deliver_dnotify-EndsWithin :
    (connects : Bool) (answers : ℕ → Write) (dnstring : Str) (w : Worker)
    → EndsWithin 11 (deliver_dnotify connects answers dnstring w)
unfolding deliver_dnotify
deliver_dnotify-EndsWithin connects answers dnstring w = ground (
  arith,
  try_write-EndsWithin 12 0 answers (line_of dnstring) w (omega arith) (omega arith),
  try_write-EndsWithin 12 0 answers (line_of dnstring) (record w { connected = true }) (omega arith)
      (omega arith),
)
