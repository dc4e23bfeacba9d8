-- ===== src/Nymph/Process/Whole.antt =====
-- The process of a node daemon from its start to its end upon a signal.
use konk.Base.{List, ◌≡◌, ◌⊎◌}
use konk.Util.Context.{Process, selecting, waiting}
use konk.Util.Server.{Sockets}
use konk.Config.{Viper}
use konk.Nymph.Daemon.{Node, Nymph}
use konk.Nymph.Daemon.Laws.{IsTracked}
use konk.Nymph.Process.Start.{IsQuiet}

module _ (S : Sockets) (N : Node S.World) (V : Viper) (live : S.World → List N.Network)
    (L : IsTracked N live) (Q : IsQuiet S N V live) where
  -- The goroutine of `NewContext` is at its select, or has seen the cancelled context and is in its wait.
  abbrev pub IsWatching : Process (Nymph N) → Type 0
  IsWatching p = (p.watcher ≡ selecting) ⊎ (p.watcher ≡ waiting)
