-- ===== src/Command/Daemons.antt =====
-- The commands that run the daemons: cmd/nymph.go and cmd/coordinator.go, with `Init` of
-- pkg/node/node.go. This is what the goroutine of the command does. The goroutine of `NewContext`
-- (Util/Context) can end the process at any time upon a signal, and with the exit code 0, so that the
-- exit code says nothing of how the command went.
pub mod Laws
use konk.Base.{
  ℕ, Bool, true, false, ◌&&◌, Option, none, some, ok, err, errorf, wrap, wrap_err, Fallible,
}
use konk.Base.Exec.{Exec, returns, fails, exits, panics}
use konk.Config.{Viper}
use konk.Util.Server.{Sockets}
use konk.Util.Serving.{Ending, with_error}
use konk.Nymph.Daemon.{Node}
use konk.Nymph.Process.{Outcome, run}
use konk.Coordinator.Process

-- The flags of the nymph's command: whether the command line has them, and their values.
pub record NymphFlags : Type 0 where
  pub changed_no_init : Bool
  pub changed_init : Bool
  pub no_init : Bool
  pub init_only : Bool

-- `Init` returns before it does anything.
abbrev pub init : Fallible
init = ok tt

abbrev pub pre_run : NymphFlags → Fallible
pre_run f = elim (f.changed_no_init && f.changed_init) [
  | true ↦
      err (errorf "Requested to do only initialisation and do no initialisation simultaneously")
  | false ↦ ok tt
]

abbrev pub initialise : NymphFlags → Fallible
initialise f = elim f.no_init [ true ↦ ok tt | false ↦ wrap_err "Failed to init the node: %v" init ]

module _ (S : Sockets) (V : Viper) where
  unfoldable pub coordinator_command : ℕ → S.World → Ending S.World
  coordinator_command fuel w =
      with_error (wrap "Failed to init the scheduler: %v") (Process.run S V fuel w)

  module _ (N : Node S.World) where
    -- Nothing has been started.
    abbrev pub only : Exec S.World (Unit {0}) → Outcome S N V
    only r = record { handed = none; result = some r }

    unfoldable pub run_nymph : NymphFlags → ℕ → ℕ → S.World → Outcome S N V
    run_nymph f tries rounds w = elim (initialise f) [
      | err e ↦ only (fails e w)
      | ok _ ↦ elim f.init_only [
        | true ↦ only (returns tt w)
        | false ↦
            let o = run S N V tries rounds w in
            record o { result = with_error (wrap "Nymph failed: %v") o.result }
      ]
    ]

    -- The command runs if its `PreRunE` has no error.
    unfoldable pub nymph_command : NymphFlags → ℕ → ℕ → S.World → Outcome S N V
    nymph_command f tries rounds w = elim (pre_run f) [
      | err e ↦ only (fails e w)
      | ok _ ↦ run_nymph f tries rounds w
    ]
