-- ===== src/Cli/Receive.antt =====
-- `receive_command`: one command of the control interface.
use go_rtp_cluster.Base.{◌||◌, some, List, [], ◌∷◌, ◌++◌, Str, codes, ◌==◌, str_eq, if◌then◌else◌}
use go_rtp_cluster.Text.{trim_space, split_n2}
use go_rtp_cluster.Externals.{Externals}
use go_rtp_cluster.Cluster.Lifecycle.{World}
use go_rtp_cluster.Config.{Token}
use go_rtp_cluster.Cli.{Cli, say, hang_up, Reaction}
use go_rtp_cluster.Cli.Listing.{ls}
use go_rtp_cluster.Cli.Modify.{modify}
use go_rtp_cluster.Cli.Reload.{reload}

-- The first word of a command.
unfoldable pub first_word : Str → Str
first_word cmd = elim (split_n2 (trim_space cmd)) [ [] ↦ [] | word ∷ _ ↦ word ]

module _ ⦃E : Externals⦄ where
  -- A command by its first word; the configuration file is given by its tokens.
  unfoldable pub run_word : World → List Token → Str → Str → Cli → Reaction
  run_word w tokens word cmd s =
      if word == codes "ls"
      then ls (E.fields_n cmd 2) s
      else if word == codes "modify"
      then modify (E.fields_n cmd 5) s
      else if word == codes "h" || word == codes "help"
      then some (
        s,
        say (
              codes "Supported commands:\n"
              ++ (codes "\tls [CLUSTER_NAME]\n"
                  ++ (codes "\tmodify CLUSTER_NAME [add|remove|delete|pause|resume] ARGS\n"
                      ++ (codes "\treload\n" ++ codes "\tquit\n"))))
            ∷ [],
      )
      else if word == codes "q" || word == codes "quit" || word == codes "exit"
      then some (s, hang_up ∷ [])
      else if word == codes "reload"
      then reload w tokens s
      else some (s, say (codes "ERROR: unknown command\n") ∷ [])

  unfoldable pub receive_command : World → List Token → Str → Cli → Reaction
  receive_command w tokens cmd s = run_word w tokens (first_word cmd) cmd s
