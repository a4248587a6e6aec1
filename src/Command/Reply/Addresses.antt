-- ===== src/Command/Reply/Addresses.antt =====
-- The address that the signalling side reads in an answer, and the answers that stop the program.
use mathlib.Core.Option.{some-ne-none}
use go_rtp_cluster.Base.{
  sym, ◌∙◌, ℕ, ◌≡◌, refl, ◌≢◌, ◌↔◌, Bool, true, false, ◌&&◌, ◌||◌, not, Option, none, some, List,
  [], ◌∷◌, ◌++◌, Str, codes, arith, ◌==◌, str_eq, if◌then◌else◌,
}
use go_rtp_cluster.Text.{to_upper, has_byte, fields, trim_space}
use go_rtp_cluster.Externals.{Externals, Cmd}
use go_rtp_cluster.Member.{Member}
use go_rtp_cluster.Command.Reply.{answer, with_wan, is_dst_local}

module _ ⦃E : Externals⦄ where
  open E use {Rest}

  abbrev pub is_success : ℕ → Cmd Rest → Bool
  is_success b cmd = has_byte (codes "UL") cmd.kind && not (to_upper (b ∷ []) == codes "E")

  one_test :
      (p d l q : Bool) (x y : Str)
      → (if not p && not d && not false && not q
          then some x
          else if not p && l
          then some x
          else some y)
        ≡ some (if not p && (l || (not d && not q)) then x else y)
  one_test true d l q x y = refl
  one_test false true true q x y = refl
  one_test false true false q x y = refl
  one_test false false true true x y = refl
  one_test false false true false x y = refl
  one_test false false false true x y = refl
  one_test false false false false x y = refl

  -- The answer to a U or L command, successful at a member with a public address, whose first field
  -- is `port`: the public address follows the port, unless the port is 0, or the command named a
  -- local address and either no destination or the member's private address. Then the answer stays.
  pub answer_address :
      (b : ℕ) (s port : Str) (rest : List Str) (cmd : Cmd Rest) (m : Member)
      → is_success b cmd ≡ true
      → (m.wan_address == []) ≡ false
      → fields (trim_space (b ∷ s)) ≡ port ∷ rest
      → answer (b ∷ s) cmd (some m)
        ≡ some (
            if not (port == codes "0")
              && (cmd.ul_opts.local_ip == []
                  || (not (cmd.ul_opts.destination_ip == [])
                      && not (cmd.ul_opts.local_ip == m.lan_address)))
            then port ++ (b' ' ∷ m.wan_address)
            else b ∷ s)
  unfolding answer
  answer_address b s port rest cmd m ok wan f =
      rw (ok, wan, f)
        (one_test (port == codes "0") (cmd.ul_opts.destination_ip == [])
          (cmd.ul_opts.local_ip == []) (cmd.ul_opts.local_ip == m.lan_address) _ _)

  with_wan-eq-none :
      (result : Str) (cmd : Cmd Rest) (m : Member) (fs : List Str)
      → with_wan result cmd m fs ≡ none
      → fs ≡ []
  unfolding with_wan is_dst_local
  with_wan-eq-none result cmd m [] h = refl
  with_wan-eq-none result cmd m (f ∷ fs) h = absurd (
      some-ne-none _ (
        sym (
          one_test (f == codes "0") (cmd.ul_opts.destination_ip == []) (cmd.ul_opts.local_ip == [])
            (cmd.ul_opts.local_ip == m.lan_address) (f ++ (b' ' ∷ m.wan_address)) result)
        ∙ h))

  -- The answers that stop the program.
  abbrev pub Stops : ℕ → Str → Cmd Rest → Option Member → Type 0
  Stops b s cmd none = is_success b cmd ≡ true
  Stops b s cmd (some n) =
      (is_success b cmd ≡ true) × (n.wan_address ≢ []) × (fields (trim_space (b ∷ s)) ≡ [])

  -- The answer stops the program only where it is looked at and has no first field, or no member.
  pub answer-eq-none :
      (b : ℕ) (s : Str) (cmd : Cmd Rest) (m : Option Member)
      → (answer (b ∷ s) cmd m ≡ none) ↔ Stops b s cmd m
  unfolding answer
  answer-eq-none b s cmd none = (λ h. ground arith, λ h. ground arith)
  answer-eq-none b s cmd (some n) = (
    λ h. ground (arith, with_wan-eq-none (b ∷ s) cmd n (fields (trim_space (b ∷ s)))),
    λ h. ground arith,
  )
