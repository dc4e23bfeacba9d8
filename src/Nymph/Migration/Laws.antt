-- ===== src/Nymph/Migration/Laws.antt =====
-- Where a container is after a migration, whichever calls get through.
use konk.Base.{
  true, false, ◌≡◌, ◌≢◌, ◌⊎◌, inl, inr, String, List, Option, none, some, ok, err, Error, Fallible,
  string_eq, int_eq,
}
use konk.Base.Dict.{lookup, NodupKeys}
use konk.Container.Types.{launches, Rank}
use konk.Container.Runtime.{Runtime}
use konk.Container.Checkpoint.{Container}
use konk.Nymph.Client.{SendArgs}
use konk.Nymph.Os.{Os}
use konk.Nymph.MigrationDonor.{DonorFs}
use konk.Nymph.Relaunch.{Network}
use konk.Nymph.Send.{Nymph, send}
use konk.Nymph.Send.Laws.{Left, send_lem}
use konk.Nymph.Migration.{remote}
use konk.Nymph.Migration.Destination.{Runs, Settled, send-Settled}

module _ (S D : Runtime) (O : Os) (nets : List (Network D)) (root : String)
    (sees : O.Disk → D.World → D.World) (files : S.World → DonorFs) where
  module _ (dest here : String) (args : SendArgs) (q : Rank) (ne : q ≢ args.container_rank) where
    abbrev pub Source : Type 0
    Source = Nymph S (remote S D O nets root sees files dest) here

    -- The container is still registered at the source: after an error, or for a kind that launches
    -- nothing, which changes no register at the destination.
    abbrev pub Stays : Source → Fallible → Source → Type 0
    Stays n r n' =
        (lookup args.container_rank n'.containers.reg ≢ none)
        × (((e : Error) × (r ≡ err e)) ⊎ (launches args.migration_type ≡ false))
        × (launches args.migration_type ≡ false → n'.net.node.register ≡ n.net.node.register)

    -- The container has left the source, and the destination has launched it.
    abbrev pub Moves : Source → Fallible → Source → Type 0
    Moves n r n' =
        (r ≡ ok tt)
        × (launches args.migration_type ≡ true)
        × (lookup args.container_rank n'.containers.reg ≡ none)
        × Runs S D O nets root sees files args.container_rank q ne n.net.node.register n'.net

    abbrev pub Migrated : Source → Option (Fallible × Source) → Type 0
    Migrated n none = ⊥
    Migrated n (some (r, n')) =
        (lookup q n'.containers.reg ≡ lookup q n.containers.reg)
        × (n'.net.node.running ≡ true
            → lookup q n'.net.node.register.reg ≡ lookup q n.net.node.register.reg)
        × (Stays n r n' ⊎ Moves n r n')

    both-Migrated :
        (n : Source) (o : Option (Fallible × Source))
        → Left S (remote S D O nets root sees files dest) here args q ne n o
        → Settled S D O nets root sees files dest here args q ne n.net.node.register o
        → Migrated n o
    both-Migrated n none l e = l
    both-Migrated n (some (r, n')) (away, inl (x, f, held)) (spared, untouched, runs) =
        (away, spared, inl (held, inl (x, f), untouched))
    both-Migrated n (some (r, n')) (away, inr (inl (f, kind, held))) (spared, untouched, runs) =
        (away, spared, inl (held, inr kind, untouched))
    both-Migrated n (some (r, n')) (away, inr (inr (f, kind, gone, l))) (spared, untouched, runs) =
        (away, spared, inr (f, kind, gone, runs kind f))

    -- A nymph that lists no rank twice sends a container, which it has under its rank, to another
    -- nymph, over connections that may lose any calls and answers. The nymph does not panic, and its
    -- other containers are as they were, as are those of the destination, unless a driver has ended
    -- the process there. If the call succeeds and the kind of migration launches the container, it has
    -- left the register of the source, and the process at the destination runs and has it, where its
    -- rank was free, with the devices of the drivers there and a terminal. In all other cases the
    -- container is still registered at the source: after an error, which does not say whether it has
    -- been launched at the destination, too; and for the other kinds, which leave the register of the
    -- destination as it was.
    pub migration_lem :
        (c : Container S) (n : Source)
        → lookup args.container_rank n.containers.reg ≡ some c
        → c.rank ≡ args.container_rank
        → NodupKeys n.containers.reg
        → Migrated n (send S (remote S D O nets root sees files dest) here args n)
    migration_lem c n e same u =
        let N = remote S D O nets root sees files dest in
        both-Migrated n (send S N here args n) (send_lem S N here args q ne c n e u)
          (send-Settled S D O nets root sees files dest here args q ne c n e same)
