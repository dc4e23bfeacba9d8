-- ===== src/Coordinator/Control/Migration.antt =====
-- How a migration and a broadcast of signals use the database and the nymphs.
use konk.Base.{
  String, ◌≡◌, ◌≢◌, refl, Bool, some, arith, ok, err, ◌==◌, string_eq, int_eq, if◌then◌else◌, ◌&&◌,
  not, Option-cases, inl, inr, Error, Result-cases, ◌⊎◌,
}
use konk.Container.Types.{Rank, MigrationType, pre_dump, migration_type_eq}
use konk.Nymph.Client.{Transport, rpc_send, rpc_signal, SendArgs, SignalArgs, new_client}
use konk.Nymph.Client
use konk.Coordinator.LocationDb.{Location, get}
use konk.Coordinator.LocationDb.Laws.{get-set}
use konk.Coordinator.NymphSet.Bits.{BitSet}
use konk.Coordinator.Migrate
use konk.Coordinator.Control.{Control, Reply, migrate_impl}

-- A pre-dump does not move the container.
abbrev pub moved : MigrationType → Bool
moved kind = not (kind == pre_dump)

module _ (T : Transport) where
  -- The nymph at `src` was reached and told to send the container to `dest`, and agreed.
  abbrev pub Sent : Rank → String → String → MigrationType → T.World → T.World → Type 0
  Sent rank src dest kind w w' =
      T.call src (rpc_send (record { container_rank = rank; host = dest; migration_type = kind }))
        (T.dial src w)
      ≡ (ok tt, w')

  migrate-Sent :
      (rank : Rank) (src dest : String) (kind : MigrationType) (w : T.World)
      → let (r, w') = Migrate.migrate T rank src dest kind w in
        r ≡ ok tt → (src ≢ dest) × Sent rank src dest kind w w'
  unfolding Migrate.migrate new_client Client.send
  migrate-Sent rank src dest kind w e = ((λ same. ground arith), ground arith)

module _ (B : BitSet) (T : Transport) where
  -- A migration either fails, and leaves the control as it was; or the container was registered at a
  -- host other than the destination, the nymph there was reached and agreed to send it, and the
  -- database then has the container at the destination, unless the migration was a pre-dump, and
  -- every other container where it was.
  pub migrate_impl_lem :
      (c : Control B) (w : T.World) (rank q : Rank) (dest : String) (kind : MigrationType)
      (reply : Reply)
      → let o = migrate_impl B T c w rank dest kind reply in
        ((e : Error) × (o.error ≡ err e) × (o.control ≡ c))
        ⊎ ((src : Location) × (o.error ≡ ok tt)
            × (get c.location_db rank ≡ some src)
            × (src.hostname ≢ dest)
            × Sent T rank src.hostname dest kind w o.world
            × (o.control.nymph_set ≡ c.nymph_set)
            × (get o.control.location_db q ≡ (
                if (q == rank) && moved kind
                then some (record { hostname = dest })
                else get c.location_db q)))
  unfolding migrate_impl
  migrate_impl_lem c w rank q dest kind reply = elim (Option-cases (get c.location_db rank)) [
    | inl e ↦ rw (e, migrate_impl) (inl (_, refl, refl))
    | inr (src, e) ↦ elim (Result-cases (Migrate.migrate T rank src.hostname dest kind w).0) [
      | inl (_, f) ↦
          let (ne, sent) = migrate-Sent T rank src.hostname dest kind w f in
          rw (e, migrate_impl, f)
            (inr (
              src,
              refl,
              refl,
              ne,
              sent,
              ground arith,
              ground (arith, get-set c.location_db rank q (record { hostname = dest })),
            ))
      | inr (x, f) ↦ rw (e, migrate_impl, f) (inl (_, refl, refl))
    ]
  ]
