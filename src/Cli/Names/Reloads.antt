-- ===== src/Cli/Names/Reloads.antt =====
-- The names of the members under the command `reload`, and under any command.
use mathlib.Core.Path.{subst}
use go_rtp_cluster.Base.{
  ℕ, ◌≡◌, refl, false, ◌||◌, none, some, List, [], ◌∷◌, Str, codes, ◌==◌, nat_eq, str_eq, if_cases,
  elem,
}
use go_rtp_cluster.Externals.{Externals}
use go_rtp_cluster.Cluster.{Cluster}
use go_rtp_cluster.Cluster.Names.{UniqueNames, none-UniqueNames}
use go_rtp_cluster.Cluster.Lifecycle.{World, shutdown}
use go_rtp_cluster.Config.{RtpCluster, Token}
use go_rtp_cluster.Config.Reading.{read_cluster_config}
use go_rtp_cluster.Cli.{Cli, Answer}
use go_rtp_cluster.Cli.Modify.{}
use go_rtp_cluster.Cli.Loading.{Progress, on, returned, panicked}
use go_rtp_cluster.Cli.Reload.{
  Reloading, reload_clusters, shut_missing, finish_reload, reload_from, reload, begin,
}
use go_rtp_cluster.Cli.Receive.{run_word, receive_command, first_word}
use go_rtp_cluster.Cli.Names.Commands.{
  AllUnique, KeptReaction, ls-Kept, modify-Kept, put_cluster-AllUnique, option-Kept,
}
use go_rtp_cluster.Cli.Names.Loops.{KeptLoop, reload_clusters-Kept}

module _ ⦃E : Externals⦄ where
  shutdown-UniqueNames : (c : Cluster) → UniqueNames (shutdown c)
  unfolding shutdown
  shutdown-UniqueNames c = none-UniqueNames _ refl refl

  shut_missing-AllUnique :
      (new ps : List ℕ) (s : Cli) → AllUnique s → AllUnique (shut_missing new ps s)
  unfolding shut_missing
  shut_missing-AllUnique new [] s all = all
  shut_missing-AllUnique new (p ∷ ps) s all = shut_missing-AllUnique new ps _ (
      if_cases AllUnique (elem p new) (λ _. all)
        (λ _. put_cluster-AllUnique p _ s all (shutdown-UniqueNames (s.heap p))))

  reload_from-Kept :
      (w : World) (config : List RtpCluster) (s : Cli)
      → AllUnique s
      → KeptReaction (reload_from w config s)
  unfolding reload_from finish_reload
  reload_from-Kept w config s all =
      go (reload_clusters w config (begin s)) (reload_clusters-Kept w config (begin s) all)
    where
      go :
          (o : Progress Reloading)
          → KeptLoop o
          → KeptReaction (elim o [
            | panicked ↦ none
            | returned l ↦ some (l.cli, l.sent)
            | on l ↦ some (finish_reload l)
          ])
      go panicked k = tt
      go (returned l) k = k
      go (on l) k = shut_missing-AllUnique l.new_clusters l.cli.rtp_clusters l.cli k

  reload-Kept :
      (w : World) (tokens : List Token) (s : Cli) → AllUnique s → KeptReaction (reload w tokens s)
  unfolding reload
  reload-Kept w tokens s all =
      option-Kept (read_cluster_config false tokens) none (λ config. reload_from w config s) tt
        (λ config _. reload_from-Kept w config s all)

  run_word-Kept :
      (w : World) (tokens : List Token) (word cmd : Str) (s : Cli)
      → AllUnique s
      → KeptReaction (run_word w tokens word cmd s)
  unfolding run_word
  run_word-Kept w tokens word cmd s all =
      if_cases KeptReaction (word == codes "ls") (λ _. ls-Kept s all (E.fields_n cmd 2))
        (λ _.
          if_cases KeptReaction (word == codes "modify") (λ _. modify-Kept s all (E.fields_n cmd 5))
            (λ _.
              if_cases KeptReaction (word == codes "h" || word == codes "help") (λ _. all)
                (λ _.
                  if_cases KeptReaction
                    (word == codes "q" || word == codes "quit" || word == codes "exit") (λ _. all)
                    (λ _.
                      if_cases KeptReaction (word == codes "reload")
                        (λ _. reload-Kept w tokens s all) (λ _. all)))))

  -- If in each cluster the listed members have pairwise different names, then they have after any
  -- command of the control interface too, whatever its words, the configuration file and the
  -- operating system.
  pub receive_command-AllUnique :
      (w : World) (tokens : List Token) (cmd : Str) (s t : Cli) (answers : List Answer)
      → receive_command w tokens cmd s ≡ some (t, answers)
      → AllUnique s
      → AllUnique t
  unfolding receive_command
  receive_command-AllUnique w tokens cmd s t answers e all =
      subst KeptReaction e (run_word-Kept w tokens (first_word cmd) cmd s all)
