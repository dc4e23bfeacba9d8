-- ===== src/Tests/Daemon.antt =====
-- A daemon on a node in memory, whose state is the list of its networks and the calls that the
-- coordinator still refuses.
use mathlib.Core.List.{Perm}
use mathlib.Core.List.Perm
use konk.Base.{
  ℕ, zero, suc, List, [], ◌∷◌, true, some, ok, err, errorf, Fallible, refl, subst, arith,
}
use konk.Base.Exec.{returns}
use konk.Base.Exec.Ensures.{Ensures}
use konk.Nymph.Daemon.{Node, Nymph, blank}
use konk.Nymph.Daemon.Laws.{IsTracked}
use konk.Nymph.Daemon.Start.{Base}
use konk.Nymph.Daemon.Registration.{
  register_nymph, register_nymph_lem, Accepts, Registered, now, later,
}
use konk.Tests.Network.{memory_viper}

pub record World : Type 0 where
  pub live : List (Unit {0})
  pub refusals : ℕ

abbrev tail : List (Unit {0}) → List (Unit {0})
tail [] = []
tail (_ ∷ ns) = ns

-- The coordinator answers with its identifier 3, once it accepts the node.
abbrev answer : ℕ → World → ℕ × Fallible × World
answer zero w = (3, ok tt, w)
answer (suc n) w = (0, err (errorf "connection lost"), record w { refusals = n })

abbrev pub memory_node : Node World
memory_node = record {
  Network = Unit;
  Register = Unit;
  Image = Unit;
  Client = Unit;
  is_missing = λ d w. true;
  remove_all = λ d w. w;
  mkdir_all = λ d w. (ok tt, w);
  chdir = λ d w. (ok tt, w);
  hostname = λ w. ok "a";
  new_network = λ t w. returns tt (record w { live = tt ∷ w.live });
  destroy_network = λ n w. record w { live = tail w.live };
  new_register = λ d w. some (tt, w);
  destroy_register = λ r w. w;
  close_image = λ i w. w;
  new_client = λ w. returns tt w;
  register_nymph = λ c h w. answer w.refusals w;
  unregister_nymph = λ c h w. (ok tt, w);
  close_client = λ c w. w;
}

tail-perm : (l m : List (Unit {0})) → Perm m (tt ∷ l) → Perm (tail m) l
tail-perm l [] p = let e = Perm.nil-eq p in absurd (ground arith)
tail-perm l (_ ∷ ns) p = Perm.cons_inv p

pub tracked : IsTracked memory_node (λ w. w.live)
tracked = record {
  new_ok = λ t n w w' e. subst (λ l. Perm l (n ∷ w.live)) (ground arith) Perm.rfl;
  new_fails = λ t e w w' f. absurd (ground arith);
  destroy_ok = λ n l w p. tail-perm l w.live p;
  live-remove_all = λ d w. refl;
  live-mkdir_all = λ d w. refl;
  live-chdir = λ d w. refl;
  live-new_register = λ d r w w' e. ground arith;
  live-destroy_register = λ r w. refl;
  live-close_image = λ i w. refl;
  live-new_client = λ c w w' e. ground arith;
  live-client_fails = λ e w w' f. absurd (ground arith);
  live-unregister_nymph = λ c h w. refl;
  live-close_client = λ c w. refl;
}

abbrev world : World
world = record { live = tt ∷ []; refusals = 2 }

-- Two calls are refused, and the third is accepted.
third : Accepts memory_node tt 2 world
third =
    later world
      (later (record world { refusals = 1 }) (now (record world { refusals = 0 }) "a" refl refl))

abbrev daemon : Nymph memory_node
daemon = blank memory_node memory_viper "/tmp"

register_nymph_lem_example :
    Registered memory_node tt daemon (register_nymph memory_node tt 3 daemon world)
register_nymph_lem_example =
    register_nymph_lem memory_node tt {k = 2} 3 daemon world third (omega arith)
