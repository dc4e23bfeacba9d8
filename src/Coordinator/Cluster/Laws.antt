-- ===== src/Coordinator/Cluster/Laws.antt =====
-- The coordinator's record of a container and the registers of the nymphs after a migration.
use konk.Base.{
  false, not, ap, ◌≡◌, ◌≢◌, refl, ◌∙◌, ◌⊎◌, inl, inr, String, List, [], ◌∷◌, true, Option, none,
  some, ok, err, Error, Fallible, wrap_err, ◌==◌, string_eq, int_eq, arith, Result-cases,
  Bool-cases, eq_self,
}
use konk.Base.Dict.{lookup, NodupKeys}
use konk.Util.Rpc.{Delivery, delivered, refused, lost}
use konk.Container.Types.{
  Rank, MigrationType, migrate, pre_dump, with_pre_dump, above, below, launches, IsConstant,
  migration_type_eq,
}
use konk.Container.Runtime.{Runtime}
use konk.Container.Checkpoint.{Container}
use konk.Nymph.Client.{SendArgs, RunArgs, rpc_send, new_client, Transport}
use konk.Nymph.Client
use konk.Nymph.Os.{Os}
use konk.Nymph.MigrationDonor.{DonorFs}
use konk.Nymph.Relaunch.{Network}
use konk.Nymph.Send.{Nymph, send}
use konk.Nymph.Migration.{remote}
use konk.Nymph.Migration.Destination.{Runs}
use konk.Nymph.Migration.Laws.{Migrated, migration_lem}
use konk.Coordinator.LocationDb.{get}
use konk.Coordinator.LocationDb.Laws.{get-set}
use konk.Coordinator.NymphSet.Bits.{BitSet}
use konk.Coordinator.Migrate
use konk.Coordinator.Control.{Control, Reply, migrate_impl, relocate}
use konk.Coordinator.Cluster.{Cluster, answer, transport}

-- What the coordinator does of its own with a kind that is one of the constants agrees with what the nymph
-- does.
agrees : (k : MigrationType) → IsConstant k → (k == pre_dump) ≡ not (launches k)
unfolding migration_type_eq
agrees migrate h = refl
agrees pre_dump h = refl
agrees with_pre_dump h = refl
agrees (above n) h = absurd h
agrees (below n) h = absurd h

module _ (S D : Runtime) (O : Os) (nets : List (Network D)) (root : String)
    (sees : O.Disk → D.World → D.World) (files : S.World → DonorFs) (dest here at : String) where
  abbrev pub Node : Type 0
  Node = Nymph S (remote S D O nets root sees files dest) here

  module _ (serve_run : RunArgs → Node → Option (Fallible × Node)) (rank q : Rank) (ne : q ≢ rank)
      (kind : MigrationType) where
    abbrev pub State : Type 0
    State = Cluster S (remote S D O nets root sees files dest) here at serve_run

    abbrev args : SendArgs
    args = record { container_rank = rank; host = dest; migration_type = kind }

    -- The nymph runs and has the container in its register.
    abbrev pub Here : State → Type 0
    Here w = (n : Node) × (w.nymph ≡ some n) × (lookup rank n.containers.reg ≢ none)

    -- The nymph runs, and the destination has the container, where `n` was the nymph before.
    abbrev pub There : Node → State → Type 0
    There n w =
        (n' : Node) × (w.nymph ≡ some n')
        × (lookup rank n'.containers.reg ≡ none)
        × Runs S D O nets root sees files rank q ne n.net.node.register n'.net

    -- What the result of a call says of the registers.
    abbrev Placed : Node → Fallible → State → Type 0
    Placed n r w =
        (Here w × (((e : Error) × (r ≡ err e)) ⊎ (launches kind ≡ false)))
        ⊎ ((r ≡ ok tt) × (launches kind ≡ true) × There n w)

    answer-Placed :
        (n : Node) (ds : List Delivery) (o : Option (Fallible × Node))
        → Migrated S D O nets root sees files dest here args q ne n o
        → let (r, after) = answer S (remote S D O nets root sees files dest) here at serve_run o in
          Placed n r (record { nymph = after; deliveries = ds })
    answer-Placed n ds none h = absurd h
    answer-Placed n ds (some (r, n')) (_, _, inl (held, why, _)) = inl ((n', refl, held), why)
    answer-Placed n ds (some (r, n')) (_, _, inr (f, moved, gone, runs)) =
        inr (f, moved, (n', refl, gone, runs))

    -- The next answer of the nymph is not lost.
    abbrev pub Answers : List Delivery → Type 0
    Answers [] = Unit
    Answers (delivered ∷ ds) = Unit
    Answers (refused e ∷ ds) = Unit
    Answers (lost e ∷ ds) = ⊥

    abbrev T : Transport
    T = transport S (remote S D O nets root sees files dest) here at serve_run

    module _ (n : Node) (c : Container S) (e : lookup rank n.containers.reg ≡ some c)
        (same : c.rank ≡ rank) (u : NodupKeys n.containers.reg) where
      held : lookup rank n.containers.reg ≢ none
      held p = cc

      call-Placed :
          (ds : List Delivery)
          → Answers ds
          → let (r, w) = T.call at (rpc_send args) (record { nymph = some n; deliveries = ds }) in
            Placed n r w
      call-Placed [] h =
          answer-Placed n [] (send S (remote S D O nets root sees files dest) here args n)
            (migration_lem S D O nets root sees files dest here args q ne c n e same u)
      call-Placed (delivered ∷ ds) h =
          answer-Placed n ds (send S (remote S D O nets root sees files dest) here args n)
            (migration_lem S D O nets root sees files dest here args q ne c n e same u)
      call-Placed (refused x ∷ ds) h = inl ((n, refl, held), inl (x, refl))
      call-Placed (lost x ∷ ds) h = absurd h

      wrap-Placed :
          (s : String) (r : Fallible) (w : State) → Placed n r w → Placed n (wrap_err s r) w
      wrap-Placed s (ok _) w h = h
      wrap-Placed s (err x) w (inl (here, why)) = inl (here, inl (_, refl))
      wrap-Placed s (err x) w (inr (f, _, _)) = absurd cc

      dialled :
          (w : State)
          → let (r, w') = new_client T at w in (r ≡ ok (record { client = at })) × (w' ≡ w)
      unfolding new_client
      dialled w = (ground (arith, eq_self {A = String} at), ground (arith, eq_self {A = String} at))

      migrate-Placed :
          (ds : List Delivery)
          → Answers ds
          → let (r, w) =
              Migrate.migrate T rank at dest kind (record { nymph = some n; deliveries = ds }) in
            Placed n r w
      unfolding Migrate.migrate Client.send
      migrate-Placed ds h =
          let w : State = record { nymph = some n; deliveries = ds } in
          let (r, w') = T.call at (rpc_send args) w in
          elim (Bool-cases (at == dest)) [
            | inl f ↦ rw (f, Migrate.migrate) (inl ((n, refl, held), inl (_, refl)))
            | inr f ↦
                rw (f, (dialled w).0, (dialled w).1, Migrate.migrate)
                  (wrap-Placed "Container did not migrate: %v" r w' (call-Placed ds h))
          ]

      -- A coordinator that has a container at its nymph is asked to migrate it, with one of the three
      -- kinds that there are constants for, and the nymph, which lists no rank twice, has the
      -- container under its rank. Whichever calls between the nymphs get through, if the answer of
      -- the nymph is not lost, the coordinator's record agrees afterwards with the register of the
      -- nymph: it has the container at the nymph, and the nymph has it registered; or it has the
      -- container at the destination, and the nymph has it no more, while the process at the
      -- destination runs and has launched it, its rank having been free there. In the first case
      -- nothing is said of the destination: if the answer to that call was lost, the container may have
      -- been launched there, too.
      pub migrate_impl-right :
          (B : BitSet) (k : Control B) (ds : List Delivery) (reply : Reply)
          → IsConstant kind
          → get k.location_db rank ≡ some (record { hostname = at })
          → Answers ds
          → let o =
              migrate_impl B T k
                (record { nymph = some n; deliveries = ds })
                rank
                dest
                kind
                reply in
            ((get o.control.location_db rank ≡ some (record { hostname = at })) × Here o.world)
            ⊎ ((get o.control.location_db rank ≡ some (record { hostname = dest }))
                × There n o.world)
      unfolding migrate_impl
      migrate_impl-right B k ds reply constant known h =
          let m =
            Migrate.migrate T rank at dest kind (record { nymph = some n; deliveries = ds }) in
          elim (migrate-Placed ds h) [
            | inl (here, inl (x, f)) ↦ rw (known, f, migrate_impl) (inl (known, here))
            | inl (here, inr p) ↦ elim (Result-cases m.0) [
              | inr (x, f) ↦ rw (known, f, migrate_impl) (inl (known, here))
              | inl (_, f) ↦
                  rw (known, f, agrees kind constant ∙ ap not p, migrate_impl, relocate)
                    (inl (known, here))
            ]
            | inr (f, moved, there) ↦
                rw (known, f, agrees kind constant ∙ ap not moved, migrate_impl, relocate)
                  (inr (
                    get-set k.location_db rank rank (record { hostname = dest })
                        ∙ rw (eq_self {A = Rank} rank) refl,
                    there,
                  ))
          ]
