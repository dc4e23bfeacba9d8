-- ===== src/Nymph/Migration.antt =====
-- A migration as the two nymphs carry it out: the donor of srv/nymph/migrate.go, connected to the
-- recipient of srv/nymph/migrate-recipient.go at the destination, whose methods srv/nymph/nymph.go
-- registers.

pub mod Calls
pub mod Destination
pub mod Laws
use konk.Base.{
  ℕ, String, List, [], ◌∷◌, Bool, true, false, Option, none, some, Result, ok, err, errorf,
  Fallible, ◌==◌, string_eq,
}
use konk.Util.Rpc.{Delivery, delivered, refused, lost}
use konk.Container.Runtime.{Runtime}
use konk.Container.Registry.{ContainerRegister}
use konk.Nymph.Os.{Os}
use konk.Nymph.MigrationClient.{Message}
use konk.Nymph.MigrationDonor.{DonorFs}
use konk.Nymph.Relaunch.{Network, relaunch}
use konk.Nymph.Send.{Remote}
use konk.Nymph.Transfer.{Receiving, serve}

-- The destination without its recipient and disk: the register, the world of its containers, and what
-- becomes of the calls that it still gets; every call after these is answered, as long as its process
-- runs.
pub record Target (D : Runtime) : Type 0 where
  pub register : ContainerRegister D
  pub world : D.World
  pub deliveries : List Delivery
  pub running : Bool

-- `sees` is what libcontainer sees of the disk, `files` what the donor can read of its own node.
module _ (S D : Runtime) (O : Os) (nets : List (Network D)) (root : String)
    (sees : O.Disk → D.World → D.World) (files : S.World → DonorFs) where
  abbrev pub Destination : Type 0
  Destination = Receiving O (Target D)

  -- `Recipient.Relaunch`, with the containers of the node. The reply keeps its zero value. The donor
  -- sees that the connection is gone if the process ends.
  unfoldable pub launch : Destination → Result ℕ × Destination
  launch w =
      let n = w.node in
      let (r, register, world) =
        relaunch D nets w.recipient.info n.register (sees w.disk n.world) in
      let w' = record w { node = record n { register = register; world = world } } in
      elim r [
        | none ↦
            (err (errorf "unexpected EOF"), record w' { node = record w'.node { running = false } })
        | some s ↦ elim s [ err e ↦ (err e, w') | ok _ ↦ (ok 0, w') ]
      ]

  abbrev pub next_delivery : List Delivery → Delivery
  next_delivery [] = delivered
  next_delivery (d ∷ ds) = d

  abbrev pub later_deliveries : List Delivery → List Delivery
  later_deliveries [] = []
  later_deliveries (d ∷ ds) = ds

  -- Only a process that runs answers.
  abbrev pub handle : Message → Destination → Result ℕ × Destination
  handle msg w = elim w.node.running [
    | true ↦ serve O (Target D) launch root msg w
    | false ↦ (err (errorf "connection refused"), w)
  ]

  -- A call that may be lost, or its answer.
  abbrev pub deliver : Delivery → Message → Destination → Result ℕ × Destination
  deliver delivered msg w = handle msg w
  deliver (refused e) msg w = (err e, w)
  deliver (lost e) msg w = (err e, (handle msg w).1)

  -- One delivery is used up.
  abbrev pub one_less : Destination → Destination
  one_less w = record w { node = record w.node { deliveries = later_deliveries w.node.deliveries } }

  unfoldable pub call : Message → Destination → Result ℕ × Destination
  call msg w = deliver (next_delivery w.node.deliveries) msg (one_less w)

  -- The donor's view of the other nodes, where `dest` is the name of the destination.
  abbrev pub remote : String → Remote S
  remote dest = record {
    Net = Destination;
    dial =
        λ host w. (elim (host == dest) [ true ↦ ok tt | false ↦ err (errorf "no such host") ], w);
    call = λ host msg w. call msg w;
    fs = files;
  }
