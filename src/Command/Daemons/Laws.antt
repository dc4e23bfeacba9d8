-- ===== src/Command/Daemons/Laws.antt =====
-- How the commands of the daemons end.
use mathlib.Core.List.Perm
use konk.Base.{ℕ, true, List, none, some, wrap, ◌≡◌, ◌⊎◌}
use konk.Base.Exec.{returns}
use konk.Config.{Viper}
use konk.Util.Server.{Sockets}
use konk.Util.Serving.{NoSuccess, with_error, with_error-NoSuccess}
use konk.Nymph.Daemon.{Node, Nymph}
use konk.Nymph.Daemon.Laws.{IsTracked}
use konk.Nymph.Process.{Outcome, run}
use konk.Nymph.Process.Start.{IsQuiet, Started}
use konk.Coordinator.Process
use konk.Command.Daemons.{NymphFlags, coordinator_command}

module _ (S : Sockets) (V : Viper) where
  -- The command of the coordinator never returns without an error.
  coordinator_command-NoSuccess :
      (fuel : ℕ) (w : S.World) → NoSuccess (coordinator_command S V fuel w)
  unfolding coordinator_command
  coordinator_command-NoSuccess fuel w =
      let ended = Process.run S V fuel w in
      with_error-NoSuccess (wrap "Failed to init the scheduler: %v") ended
        (Process.run-NoSuccess S V fuel w)

  module _ (N : Node S.World) (live : S.World → List N.Network) (L : IsTracked N live) where
    -- The command has done nothing, and returns no error.
    abbrev Initialised : NymphFlags → S.World → Outcome S N V → Type 0
    Initialised f w o = (f.init_only ≡ true) × (o.handed ≡ none) × (o.result ≡ some (returns tt w))

    -- What the command does with its flags.
    abbrev pub Commanded : NymphFlags → S.World → Outcome S N V → Type 0
    Commanded f w o = Initialised f w o ⊎ Started S N V live L (live w) o

    module _ (Q : IsQuiet S N V live) (f : NymphFlags) (tries rounds : ℕ) (w : S.World) where
      -- `Run`, with its error wrapped by the command.
      abbrev wrapped_run : Outcome S N V
      wrapped_run =
          let o = run S N V tries rounds w in
          record o { result = with_error (wrap "Nymph failed: %v") o.result }
