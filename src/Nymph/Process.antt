-- ===== src/Nymph/Process.antt =====
-- srv/nymph/nymph.go: the process of a node daemon, from its start on.
pub mod Start
pub mod Exit
pub mod Whole
use konk.Base.{ℕ, String, Option, none, some, Result, ok, err, wrap, Error}
use konk.Base.Exec.{Exec, Cmd, returns, fails, exits, panics, ◌>>=◌, call, wrapped, world_of}
use konk.Config.{Viper, get_int}
use konk.Config.Key
use konk.Util.Server.{Sockets, create_listener}
use konk.Util.Serving.{Ending, close_after, serve}
use konk.Nymph.Daemon.{Node, Nymph, new_nymph}
use konk.Nymph.Daemon.Registration.{register_nymph}

module _ (S : Sockets) (N : Node S.World) (V : Viper) where
  -- The daemon whose closing `CrashHandler` was given, with the world at that time, if it came to that;
  -- and how `Run` ended, unless it still runs.
  pub record Outcome : Type 0 where
    pub handed : Option (Nymph N × S.World)
    pub result : Ending S.World

  -- Registering at the coordinator, which a daemon without a client cannot.
  unfoldable pub register_and_serve : ℕ → ℕ → S.Listener → Nymph N → S.World → Ending S.World
  register_and_serve tries rounds l n w = elim n.client [
    | none ↦ some (panics w)
    | some c ↦ elim (register_nymph N c tries n w) [
      | none ↦ none
      | some (n', w') ↦ serve S rounds l w'
    ]
  ]

  -- What follows the opening of the listener. Making the recipient does not fail.
  unfoldable pub run_with : ℕ → ℕ → S.Listener → S.World → Outcome
  run_with tries rounds l w = elim (wrapped "NewNymph: %v" (new_nymph N V) w) [
    | returns n w' ↦ record {
      handed = some (n, w');
      result = close_after S l (register_and_serve tries rounds l n w');
    }
    | fails e w' ↦ record { handed = none; result = close_after S l (some (fails e w')) }
    | exits w' ↦ record { handed = none; result = some (exits w') }
    | panics w' ↦ record { handed = none; result = close_after S l (some (panics w')) }
  ]

  abbrev open_port : Cmd S.World S.Listener
  open_port = do port ← get_int V Key.nymph_port; call (create_listener S port)

  -- `Run`, with the fuel of the registration and that of the loop that accepts connections.
  unfoldable pub run : ℕ → ℕ → S.World → Outcome
  run tries rounds w = elim (open_port w) [
    | returns l w' ↦ run_with tries rounds l w'
    | fails e w' ↦ record { handed = none; result = some (fails e w') }
    | exits w' ↦ record { handed = none; result = some (exits w') }
    | panics w' ↦ record { handed = none; result = some (panics w') }
  ]
