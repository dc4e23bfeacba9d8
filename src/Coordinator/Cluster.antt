-- ===== src/Coordinator/Cluster.antt =====
-- The coordinator connected to the nymph that has a container: srv/coordinator/migrate.go calls the
-- method `Nymph.Send` of srv/nymph/migrate.go, which calls the recipient at the destination.
pub mod Laws
use konk.Base.{
  String, List, [], ◌∷◌, true, false, Option, none, some, ok, err, errorf, Error, Fallible, ◌==◌,
  string_eq,
}
use konk.Util.Rpc.{Delivery, delivered, refused, lost}
use konk.Container.Runtime.{Runtime}
use mathlib.Core.List.Permᴰ
use konk.Nymph.Client.{Transport, Call, rpc_send, rpc_signal, rpc_run, RunArgs}
use konk.Nymph.Send.{Remote, Nymph, send}

-- `at` is the host of the nymph, and `serve_run` its method `Nymph.Run`.
module _ (S : Runtime) (N : Remote S) (root at : String)
    (serve_run : RunArgs → Nymph S N root → Option (Fallible × Nymph S N root)) where
  -- The nymph, unless a panic has ended its process, and what becomes of the next calls to it; every
  -- call after these is answered.
  pub record Cluster : Type 0 where
    pub nymph : Option (Nymph S N root)
    pub deliveries : List Delivery

  -- `Nymph.Signal` panics; `none` is a panic.
  abbrev pub serve : Call → Nymph S N root → Option (Fallible × Nymph S N root)
  serve (rpc_send args) n = send S N root args n
  serve (rpc_signal args) n = none
  serve (rpc_run args) n = serve_run args n

  -- The client sees that the connection is gone when the process ends.
  abbrev pub answer : Option (Fallible × Nymph S N root) → Fallible × Option (Nymph S N root)
  answer none = (err (errorf "unexpected EOF"), none)
  answer (some (r, n)) = (r, some n)

  abbrev pub handled : Call → Option (Nymph S N root) → Fallible × Option (Nymph S N root)
  handled call none = (err (errorf "connection refused"), none)
  handled call (some n) = answer (serve call n)

  abbrev pub deliver :
      Delivery → Call → Option (Nymph S N root) → Fallible × Option (Nymph S N root)
  deliver delivered call o = handled call o
  deliver (refused e) call o = (err e, o)
  deliver (lost e) call o = (err e, (handled call o).1)

  abbrev pub next_call : Delivery → List Delivery → Call → Cluster → Fallible × Cluster
  next_call d ds call w =
      let (r, o) = deliver d call w.nymph in (r, record { nymph = o; deliveries = ds })

  abbrev pub call : String → Call → Cluster → Fallible × Cluster
  call host c w = elim w.deliveries [
    | [] ↦ next_call delivered [] c w
    | d ∷ ds ↦ next_call d ds c w
  ]

  abbrev pub transport : Transport
  transport = record {
    World = Cluster;
    dial = λ host w. w;
    call = call;
    reached = λ host w. host == at;
    answered = λ host c w. true;
    range = λ w l. l;
    range-Perm = λ w l. Permᴰ.refl l;
  }
