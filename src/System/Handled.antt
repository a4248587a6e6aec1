-- ===== src/System/Handled.antt =====
-- What a handler of the cluster leaves behind: the changes of the state and the functions that wait
-- for an answer then. `direct` counts those that answer a cookie, `parts` those of a broadcast.
use go_rtp_cluster.Base.{
  ◌<◌, All, ℕ, suc, ◌+◌, ◌≤◌, ◌≡◌, ◌≢◌, refl, ◌∙◌, ap, Option, none, some, List, [], ◌∷◌, ◌++◌, pos,
  Str, arith, ◌==◌, nat_eq, str_eq, if◌then◌else◌, length, Option-cases, inl, inr,
}
use go_rtp_cluster.Base.Dict.{has, has-erase}
use go_rtp_cluster.Externals.{Externals, Cmd}
use go_rtp_cluster.Member.{Member}
use go_rtp_cluster.Cluster.{
  Cluster, Clim, udp, unix, Effect, Callback, down, ignore, merge, merge_stats,
}
use go_rtp_cluster.Command.{Outcome}
use go_rtp_cluster.Command.Reply.{answer, down_command, send_clim, close_clim}
use go_rtp_cluster.Command.Reply.Sending.{closed, down_command_lem}
use go_rtp_cluster.System.{sent}
use go_rtp_cluster.System.Quiet.{Calm, same-Calm, Calm-refl, Calm-trans, Quiet, Quiet-trans}

-- 1 for the cookie of a datagram, 0 for every other one.
abbrev pub claim : Clim → Str → ℕ
claim (udp k address) j = if k == j then 1 else 0
claim (unix k) j = 0

module _ ⦃E : Externals⦄ where
  open E use {Rest}

  abbrev pub direct : Str → List Callback → ℕ
  direct j [] = 0
  direct j (down clim cmd r ∷ ws) = claim clim j + direct j ws
  direct j (ignore r ∷ ws) = direct j ws
  direct j (merge b ∷ ws) = direct j ws
  direct j (merge_stats b ∷ ws) = direct j ws

  abbrev pub parts : ℕ → List Callback → ℕ
  parts b [] = 0
  parts b (down clim cmd r ∷ ws) = parts b ws
  parts b (ignore r ∷ ws) = parts b ws
  parts b (merge a ∷ ws) = (if a == b then 1 else 0) + parts b ws
  parts b (merge_stats a ∷ ws) = (if a == b then 1 else 0) + parts b ws

  pub direct-append :
      (j : Str) (vs ws : List Callback) → direct j (vs ++ ws) ≡ direct j vs + direct j ws
  direct-append j [] ws = omega arith
  direct-append j (down clim cmd r ∷ vs) ws = omega (arith, direct-append j vs ws)
  direct-append j (ignore r ∷ vs) ws = direct-append j vs ws
  direct-append j (merge b ∷ vs) ws = direct-append j vs ws
  direct-append j (merge_stats b ∷ vs) ws = direct-append j vs ws

  pub parts-append : (b : ℕ) (vs ws : List Callback) → parts b (vs ++ ws) ≡ parts b vs + parts b ws
  parts-append b [] ws = omega arith
  parts-append b (down clim cmd r ∷ vs) ws = parts-append b vs ws
  parts-append b (ignore r ∷ vs) ws = parts-append b vs ws
  parts-append b (merge a ∷ vs) ws = omega (arith, parts-append b vs ws)
  parts-append b (merge_stats a ∷ vs) ws = omega (arith, parts-append b vs ws)

  -- The broadcast is one that a member was asked for, and for which its function can run.
  abbrev pub Fit : Cluster → Callback → Type 0
  Fit c (down clim cmd r) = Unit
  Fit c (ignore r) = Unit
  Fit c (merge b) =
      (b < c.next_broadcast)
      × ((c.broadcasts b).rtpp ≢ none)
      × (1 < length (c.broadcasts b).results)
  Fit c (merge_stats b) =
      (b < c.next_broadcast)
      × ((c.broadcasts b).rtpp ≢ none)
      × ((c.broadcasts b).sobj ≢ none)
      × ((c.broadcasts b).cmd.kind ≡ b'G')

  -- Nothing is left to wait for.
  pub record Idle (ws : List Callback) : Type 0 where
    pub no_direct : (j : Str) → direct j ws ≡ 0
    pub no_parts : (b : ℕ) → parts b ws ≡ 0

  -- At most one member is asked for the answer to the sender.
  pub record Asks (clim : Clim) (ws : List Callback) : Type 0 where
    pub one_direct : (j : Str) → direct j ws ≤ claim clim j
    pub no_parts : (b : ℕ) → parts b ws ≡ 0

  -- The members of a new broadcast are asked, which is to answer the sender.
  pub record Spreads (clim : Clim) (c d : Cluster) (ws : List Callback) : Type 0 where
    pub calm : Calm c d
    pub flight : d.commands_inflight ≡ c.commands_inflight
    pub next_book : d.next_broadcast ≡ suc c.next_broadcast
    pub others : (b : ℕ) → b ≢ c.next_broadcast → d.broadcasts b ≡ c.broadcasts b
    pub sender : (d.broadcasts c.next_broadcast).clim ≡ clim
    pub size : ℕ
    pub counted : (d.broadcasts c.next_broadcast).bcount ≡ pos size
    pub bounded : size ≤ length c.active
    pub no_direct : (j : Str) → direct j ws ≡ 0
    pub few_parts : parts c.next_broadcast ws ≤ size
    pub no_others : (b : ℕ) → b ≢ c.next_broadcast → parts b ws ≡ 0
    pub fits : All (Fit d) ws

  -- The sender has its answer: no other command ceases to be in flight.
  pub record Settled (clim : Clim) (c d : Cluster) : Type 0 where
    pub calm : Calm c d
    pub books : d.broadcasts ≡ c.broadcasts
    pub next_book : d.next_broadcast ≡ c.next_broadcast
    pub others :
        (j : Str) → claim clim j ≡ 0 → has j d.commands_inflight ≡ has j c.commands_inflight

  pub data Handled (clim : Clim) (c d : Cluster) (ws : List Callback) : Type 0 where
    settled : Settled clim c d → Idle ws → Handled clim c d ws
    asked : Quiet c d → Asks clim ws → Handled clim c d ws
    spread : Spreads clim c d ws → Handled clim c d ws

  -- The same of a handler's outcome; there is none where it panics.
  abbrev pub Handles : Clim → Cluster → Outcome → Type 0
  Handles clim c none = Unit
  Handles clim c (some (d, es)) = Handled clim c d (sent es)

  pub Handled-Calm :
      (clim : Clim) (c d : Cluster) (ws : List Callback) → Handled clim c d ws → Calm c d
  Handled-Calm clim c d ws (settled k i) = k.calm
  Handled-Calm clim c d ws (asked k a) = k.calm
  Handled-Calm clim c d ws (spread k) = k.calm

  Settled-after : (clim : Clim) (c d e : Cluster) → Quiet c d → Settled clim d e → Settled clim c e
  Settled-after clim c d e q k = record {
    calm = Calm-trans c d e q.calm k.calm;
    books = k.books ∙ q.books;
    next_book = k.next_book ∙ q.next_book;
    others = λ j f. k.others j f ∙ ap (has j) q.flight;
  }

  pub Handled-after :
      (clim : Clim) (c d e : Cluster) (ws : List Callback)
      → Quiet c d
      → Handled clim d e ws
      → Handled clim c e ws
  Handled-after clim c d e ws q (settled k i) = settled (Settled-after clim c d e q k) i
  Handled-after clim c d e ws q (asked k a) = asked (Quiet-trans c d e q k) a
  Handled-after clim c d e ws q (spread k) = spread (record {
    calm = Calm-trans c d e q.calm k.calm;
    flight = k.flight ∙ q.flight;
    next_book = k.next_book ∙ ap suc q.next_book;
    others = λ b n. k.others b (rw q.next_book n) ∙ ap (λ f. f b) q.books;
    sender = rw (← q.next_book) k.sender;
    size = k.size;
    counted = rw (← q.next_book) k.counted;
    bounded = rw (← q.calm.active) k.bounded;
    no_direct = k.no_direct;
    fits = k.fits;
    few_parts = rw (← q.next_book) k.few_parts;
    no_others = λ b n. k.no_others b (rw q.next_book n);
  })

  pub Handles-after :
      (clim : Clim) (c d : Cluster) (o : Outcome) → Quiet c d → Handles clim d o → Handles clim c o
  Handles-after clim c d none q h = tt
  Handles-after clim c d (some (e, es)) q h = Handled-after clim c d e (sent es) q h

  closed-Settled :
      (clim : Clim) (response : Str) (c : Cluster) → Settled clim c (closed clim response c)
  unfolding closed
  closed-Settled (udp k address) response c = record {
    calm = same;
    books = refl;
    next_book = refl;
    others = λ j f. ground (arith, has-erase j k c.commands_inflight, f);
  }
    where
      same : Calm c (closed (udp k address) response c)
      same = same-Calm _ _ refl refl refl refl
  closed-Settled (unix k) response c = record {
    calm = Calm-refl c;
    books = refl;
    next_book = refl;
    others = λ j f. refl;
  }

  pub nil_Idle : Idle []
  nil_Idle = record { no_direct = λ j. refl; no_parts = λ b. refl }

  pub nil_Asks : (clim : Clim) → Asks clim []
  nil_Asks clim = record { one_direct = λ j. omega arith; no_parts = λ b. refl }

  sent_response :
      (clim : Clim) (text : Str) (es : List Effect)
      → sent ((send_clim clim text ++ close_clim clim) ++ es) ≡ sent es
  sent_response (udp k address) text es = refl
  sent_response (unix k) text es = refl

  response_Idle : (clim : Clim) (text : Str) → Idle (sent (send_clim clim text ++ close_clim clim))
  response_Idle (udp k address) text = nil_Idle
  response_Idle (unix k) text = nil_Idle

  -- A text is sent to the sender, and then more that leaves nothing to wait for.
  pub answered_Handled :
      (clim : Clim) (text : Str) (c : Cluster) (es : List Effect)
      → Idle (sent es)
      → Handled clim c (closed clim text c) (sent ((send_clim clim text ++ close_clim clim) ++ es))
  answered_Handled clim text c es i =
      settled (closed-Settled clim text c) (rw (sent_response clim text es) i)

  -- What `down_command` does, whatever it is given.
  abbrev pub Settles : Clim → Cluster → Outcome → Type 0
  Settles clim c none = Unit
  Settles clim c (some (d, es)) = Settled clim c d × Idle (sent es)

  pub Settles-after :
      (clim : Clim) (c d : Cluster) (o : Outcome) → Quiet c d → Settles clim d o → Settles clim c o
  Settles-after clim c d none q h = tt
  Settles-after clim c d (some (e, es)) q h = (Settled-after clim c d e q h.0, h.1)

  Settles-Handles : (clim : Clim) (c : Cluster) (o : Outcome) → Settles clim c o → Handles clim c o
  Settles-Handles clim c none h = tt
  Settles-Handles clim c (some (d, es)) h = settled h.0 h.1

  pub down_command-Settles :
      (result : Str) (clim : Clim) (cmd : Cmd Rest) (m : Option Member) (c : Cluster)
      → Settles clim c (down_command result clim cmd m c)
  unfolding down_command
  down_command-Settles result clim cmd m c = elim (Option-cases (answer result cmd m)) [
    | inl e ↦ rw (e, down_command) tt
    | inr (text, e) ↦
        rw (down_command_lem result text clim cmd m c e)
          (closed-Settled clim (text ++ 10 ∷ []) c, response_Idle clim (text ++ 10 ∷ []))
  ]

  pub down_command-Handles :
      (result : Str) (clim : Clim) (cmd : Cmd Rest) (m : Option Member) (c : Cluster)
      → Handles clim c (down_command result clim cmd m c)
  down_command-Handles result clim cmd m c =
      Settles-Handles clim c (down_command result clim cmd m c)
        (down_command-Settles result clim cmd m c)
