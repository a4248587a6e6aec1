-- ===== src/Lib.antt =====
-- rtp_cluster: a dispatcher between the signalling side of a telephone network and a cluster of
-- RTPproxies. It speaks the RTPproxy control protocol on both sides, and looks like one RTPproxy.
--
-- The parts, and how they work together. A command comes in a datagram or over a stream. The
-- datagram server drops the repetition of a command that is in flight, and answers the repetition
-- of one that was answered lately from a cache. The dispatcher finds the member that serves the
-- call of the command, picks one by weight for a new call, and sends a command for an unknown call
-- to all members. The member's answer comes back through a callback, which puts the member's public
-- address into it and sends it to whoever asked. Members move between the lists `active` and
-- `pending` as their clients report, and leave the cluster when they are brought down and drained.
-- Notifications of the end of a session go from the RTPproxies through a relay to the sockets that
-- the signalling side named. At the start the clusters are made from a configuration file; a control
-- interface lists them, changes their members, and makes them follow the file anew.
--
--   Base        tests on numbers and texts, signed 64-bit numbers, lists, association lists
--   Text        the functions of packages strings, strconv, net and net/url that the program calls
--   Externals   the package go-b2bua and the floating-point numbers, as one record of operations
--   Member      rtp_cluster_member.go: a member, its two call maps and its timer (Sessions), also
--               over time (Usage)
--   Relay       dnrelay.go: the relay of notifications, the queues of its workers, and the delivery
--               of a notification to its socket (Delivery)
--   Cluster     rtp_cluster.go: the cluster's lists (Pool), what happens to its members (Events),
--               the invariant of the lists (Invariant), the removal of members (Drain), the names
--               of the members (Names), and the beginning and end of a cluster (Lifecycle)
--   Command     rtp_cluster.go: `pick_proxy` (Pick), the redirection of notifications (Notify),
--               `up_command` (Dispatch), broadcasts and their results (Broadcasts), `down_command`
--               (Reply), `up_command_udp` and `rCachePurge` (Udp)
--   Config      rtp_cluster_config.go: the handler of the tokens of the XML file (Tokens, Characters),
--               `Read_cluster_config` (Reading), the names of the clusters (Names) and what happens
--               to bad input (Failures); documents and what they are read as (RoundTrip);
--               `Gen_cluster_config` (Writing)
--   Cli         rtp_cluster_cli.go: the commands `ls` (Listing), `modify` (Modify) and `reload` (Loading
--               for one cluster, Reload for all) and `receive_command` (Receive); main.go: the
--               clusters that `main` makes (Start), and the flags, the owner of the socket and the
--               pid file around them, with main_config.go (Main); Cli/Names is about the names of
--               the members
--   System      rtp_cluster.go as a whole: commands, answers, changes of members and purges of the
--               cache in any order, with the functions that wait for an answer. What a handler
--               leaves behind (Quiet, Handled, Forwarding, Spreading, Handlers, Counting, Answers,
--               Aside), what is outstanding for a command (Outstanding), what every history keeps
--               (Lists, Sound, Kept), and what keeps it from a panic (Panics)
--   Tests       the theorems at concrete inputs
--
-- How state and operations correspond to the code.
--   Texts are lists of bytes, in UTF-8 where `strings.Fields` and `strings.TrimSpace` look for
--   white space; upper and lower case are those of ASCII. A struct is a record with the source's
--   field names. A pointer to a member is a number, and the cluster holds what each number points
--   to; a pointer to a broadcast likewise. A Go map is an association list. Integers of type int64
--   keep their wrap-around.
--   A method of the program is a function from the state to the new state, with the effects that
--   it has on the outside (commands to members, answers, closed connections) in a list. Each
--   method is one step here, also one that holds no lock or only for a part of its work
--   (`add_member` locks the cluster only where it appends to a list, `merge_results` and
--   `merge_stats_results` do not lock it at all): what other goroutines do inside of a method is
--   not modelled. Histories of steps are lists of events. A callback that the program hands to a
--   client is data in the effect, and runs as a step of its own, once at most. A panic (a nil
--   pointer, an index out of range) is the result `none`.
--   `Externals.Client` is the client of go-b2bua. The theorems on histories rely on three facts of
--   it (`IsClient`): it is offline after `GoOffline`, it stays online over `GoOnline`, and
--   `UpdateActive` leaves it as it was in this.
--   The theorem on panics relies on one fact of package go-b2bua's commands (`Prints`): the
--   options of an update that was parsed and has a `to_tag` can be printed as those of a forced
--   lookup. The program panics on one that cannot.
--   The theorem on the start of the program asks that a client can be made for each proxy of the
--   configuration (`AllTaken`); `NewRtp_cluster_member` gives nil for one where it cannot.
--   The floating-point numbers are abstract; the theorem on the greatest weight asks for an order
--   (`IsOrder`) of the weights that it compares only, as numbers that are no NaN have.
--   A cluster is an object of the heap of the control interface, and a pointer to it is its
--   number. `all_members` appends to the active list, and Go gives the result the array of that
--   list if it has room: the loop of `reload` over it sees the list change, as `seen` says. What
--   the operating system answers is an argument: `Host` for users, groups, files and the control
--   socket, `World` for the start of a server, the resolution of an address and the room in an
--   array, and a list of outcomes for the writes of a delivery. `sort.Slice` may put equal names
--   in any order; here they keep theirs.
--   The random number that `pick_proxy` draws is an argument of each command.
--
-- Bounds. The decimal digits of a number n get n + 1 steps, one for each digit and more. The loop of
-- a delivery gets 12 rounds, one more than the eleven writes that `_MAX_TRIES` allows, and so it never
-- runs out. The loop over `all_members` gets one round for each place of the array. A worker's queue
-- holds 1000 notifications, as its channel does. The count of a broadcast's answers is an int64; the
-- number of members that were ever added bounds it, by hypothesis where it matters.
--
-- Not modelled: log lines; sockets, goroutines and timers, whose handlers are the operations
-- above, and the interleaving of goroutines inside of a method; package encoding/xml, whose tokens
-- are an argument; what `Daemonize` does, and the signals in main.go; the Connect and the drain
-- loop of a worker beyond their success.
pub mod Base
pub mod Text
pub mod Externals
pub mod Member
pub mod Relay
pub mod Cluster
pub mod Command
pub mod Config
pub mod Cli
pub mod System
mod Tests
