-- ===== src/Tests/Process.antt =====
-- The process of a daemon on the node in memory, which no connection reaches.
use mathlib.Core.List.Permᴰ
use konk.Util.Context.{
  Process, new_context, waiting, ready, gone, crash_handler, cancel, begin, finish, watch,
}
use konk.Nymph.Daemon.{Nymph, close, connect}
use konk.Nymph.Process.Exit.{Site}
use konk.Base.{some, false, [], ◌∷◌, ok, err, errorf}
use konk.Util.Server.{Sockets}
use konk.Command.Daemons.{NymphFlags}
use konk.Tests.Daemon.{World, memory_node}

abbrev memory_sockets : Sockets
memory_sockets = record {
  World = World;
  Listener = Unit;
  Conn = Unit;
  itoa = λ n. "1";
  listen = λ a w. (ok tt, w);
  connect = λ a w. (ok tt, w);
  accept = λ l w. (err (errorf "listener closed"), w);
  close = λ l w. w;
  go_serve = λ c w. w;
  serve = λ c w. w;
}

abbrev node : World
node = record { live = tt ∷ []; refusals = 1 }

-- The daemon that has started, with a network of its own, and the node at that time.
abbrev daemon : Nymph memory_node
daemon = record {
  client = some tt;
  containers = some tt;
  images = [];
  networks = tt ∷ [];
  root_dir = "nymph.root_dir";
  hostname = "a";
  id = 0;
}

abbrev both : World
both = record { live = tt ∷ tt ∷ []; refusals = 1 }

abbrev signalled : Process (Nymph memory_node)
signalled = cancel (crash_handler daemon new_context)

abbrev running : Process (Nymph memory_node)
running = begin daemon [] (watch waiting signalled)

abbrev site : Process (Nymph memory_node) → World → Site memory_node (λ w. w.live)
site p w = record { process = p; world = w }

abbrev last : Site memory_node (λ w. w.live)
last = site (watch gone (watch ready (finish daemon [] running))) (close memory_node daemon both)

-- The command line has no flag.
abbrev flags : NymphFlags
flags = record { changed_no_init = false; changed_init = false; no_init = false; init_only = false }
