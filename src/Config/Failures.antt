-- ===== src/Config/Failures.antt =====
-- Configurations that stop the program.
use go_rtp_cluster.Base.{ℕ, zero, suc, ◌≡◌, refl, Bool, none, List, [], ◌∷◌, ◌++◌, Str, str_eq}
use go_rtp_cluster.Config.{ValidateHandler, Token, new_validate_handler}
use go_rtp_cluster.Config.Characters.{characters}
use go_rtp_cluster.Config.Reading.{handle, handle_all, read_cluster_config}

-- Comments, directives and instructions.
abbrev pub others : ℕ → List Token
others zero = []
others (suc n) = Token.other ∷ others n

others_passed :
    (n : ℕ) (ts : List Token) (h : ValidateHandler)
    → handle_all (others n ++ ts) h ≡ handle_all ts h
unfolding handle_all handle
others_passed zero ts h = refl
others_passed (suc n) ts h = others_passed n ts h

-- A configuration with text before its first element, as the line end behind an XML declaration,
-- stops the program, whatever follows.
pub read_cluster_config-prologue :
    (debug : Bool) (n : ℕ) (content : Str) (ts : List Token)
    → read_cluster_config debug (others n ++ Token.char_data content ∷ ts) ≡ none
unfolding read_cluster_config handle_all handle characters
read_cluster_config-prologue debug n content ts =
    rw (others_passed n (Token.char_data content ∷ ts) new_validate_handler, read_cluster_config)
      refl
