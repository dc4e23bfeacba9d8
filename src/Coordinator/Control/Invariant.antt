-- ===== src/Coordinator/Control/Invariant.antt =====
-- What every request preserves, and so what holds of a coordinator at any time.
use konk.Base.{
  ℕ, String, ◌≡◌, some, List, [], ◌∷◌, Option-cases, Result-cases, Bool-cases, eq_of, eq_of_ne,
  subst, sym, inl, inr, int_eq,
}
use konk.Base.Dict.{lookup}
use konk.Container.Types.{Rank, MigrationType, pre_dump, migration_type_eq}
use konk.Nymph.Client.{Transport}
use konk.Coordinator.LocationDb.{Location, location_eq, get, set}
use konk.Coordinator.LocationDb.Laws as LocationLaws
use konk.Coordinator.LocationDb.Laws.{set-IsValid, unset-IsValid}
use konk.Coordinator.NymphSet.Bits.{BitSet, IsLawful}
use konk.Coordinator.NymphSet.Laws as NymphLaws
use konk.Coordinator.NymphSet.Laws.{add-IsValid, del-IsValid, new_nymph_set-IsValid}
use konk.Coordinator.NymphSet.{NymphSet, del}
use konk.Coordinator.Migrate
use konk.Coordinator.Control.{
  Control, Args, Reply, no_reply, string_reply, int_reply, new_control, handle, start, relocate,
  allocate_host_args, register_container_args, unregister_container_args, migrate_args, signal_args,
  register_nymph_args, unregister_nymph_args, allocate_host, register_impl, unregister_impl,
  migrate_impl, signal_impl, register_nymph_impl, unregister_nymph_impl,
}
use konk.Coordinator.Control.Allocate.{allocate_host_lem}

pub record IsValid (B : BitSet) (c : Control B) : Type 0 where
  pub locations : LocationLaws.IsValid c.location_db
  pub nymphs : NymphLaws.IsValid B c.nymph_set

module _ (B : BitSet) (L : IsLawful B) (T : Transport) where
  moved-IsValid :
      (c : Control B) (rank : Rank) (loc : Location)
      → IsValid B c
      → IsValid B (record c { location_db = set c.location_db rank loc })
  moved-IsValid c rank loc v = record {
    locations = set-IsValid c.location_db rank loc v.locations;
    nymphs = v.nymphs;
  }

  relocate-IsValid :
      (c : Control B) (rank : Rank) (dest : String) (kind : MigrationType)
      → IsValid B c
      → IsValid B (relocate B T c rank dest kind)
  relocate-IsValid c rank dest kind v = elim (migration_type_eq.dec kind pre_dump) [
    | yes p ↦ rw (eq_of p, relocate) v
    | no n ↦ rw (eq_of_ne n, relocate) (moved-IsValid c rank (record { hostname = dest }) v)
  ]

  migrate_impl-IsValid :
      (c : Control B) (w : T.World) (rank : Rank) (dest : String) (kind : MigrationType)
      (reply : Reply)
      → IsValid B c
      → IsValid B (migrate_impl B T c w rank dest kind reply).control
  unfolding migrate_impl
  migrate_impl-IsValid c w rank dest kind reply v = elim (Option-cases (get c.location_db rank)) [
    | inl e ↦ rw (e, migrate_impl) v
    | inr (src, e) ↦ elim (Result-cases (Migrate.migrate T rank src.hostname dest kind w).0) [
      | inl (_, f) ↦ rw (e, migrate_impl, f) (relocate-IsValid c rank dest kind v)
      | inr (_, f) ↦ rw (e, migrate_impl, f) v
    ]
  ]

  nymphs-IsValid :
      {c : Control B} (n : NymphSet B)
      → IsValid B c
      → NymphLaws.IsValid B n
      → IsValid B (record c { nymph_set = n })
  nymphs-IsValid n v u = record { locations = v.locations; nymphs = u }

  unregister_nymph_impl-IsValid :
      (c : Control B) (w : T.World) (hostname : String) (reply : Reply)
      → IsValid B c
      → IsValid B (unregister_nymph_impl B T c w hostname reply).control
  unfolding unregister_nymph_impl
  unregister_nymph_impl-IsValid c w hostname reply v =
      let u =
        nymphs-IsValid _ v
          (del-IsValid B L c.nymph_set (record { hostname = hostname }) v.nymphs) in
      elim (Bool-cases (del B c.nymph_set (record { hostname = hostname })).1) [
        | inl e ↦ rw (e, unregister_nymph_impl) u
        | inr e ↦ rw (e, unregister_nymph_impl) u
      ]

  -- Over a lawful bit set, every request preserves the validity of the location database and of the
  -- set of nymphs.
  pub handle-IsValid :
      (c : Control B) (w : T.World) (args : Args) (reply : Reply)
      → IsValid B c
      → IsValid B (handle B T c w args reply).control
  unfolding handle allocate_host register_impl unregister_impl signal_impl register_nymph_impl
  handle-IsValid c w (allocate_host_args rank) (string_reply s) v =
      subst (IsValid B) (sym (allocate_host_lem B T c w rank s).0) v
  handle-IsValid c w (allocate_host_args rank) no_reply v = v
  handle-IsValid c w (allocate_host_args rank) (int_reply i) v = v
  handle-IsValid c w (register_container_args rank host) reply v =
      moved-IsValid c rank (record { hostname = host }) v
  handle-IsValid c w (unregister_container_args rank host) reply v = record {
    locations = unset-IsValid c.location_db rank (record { hostname = host }) v.locations;
    nymphs = v.nymphs;
  }
  handle-IsValid c w (migrate_args rank dest kind) reply v =
      migrate_impl-IsValid c w rank dest kind reply v
  handle-IsValid c w (signal_args s) reply v = v
  handle-IsValid c w (register_nymph_args host) no_reply v = v
  handle-IsValid c w (register_nymph_args host) (string_reply s) v = v
  handle-IsValid c w (register_nymph_args host) (int_reply i) v =
      nymphs-IsValid _ v (add-IsValid B L c.nymph_set (record { hostname = host }) v.nymphs)
  handle-IsValid c w (unregister_nymph_args host) reply v =
      unregister_nymph_impl-IsValid c w host reply v

  start-IsValid :
      (c : Control B) (w : T.World) (requests : List (Args × Reply))
      → IsValid B c
      → IsValid B (start B T c w requests).0
  unfolding start
  start-IsValid c w [] v = v
  start-IsValid c w ((args, reply) ∷ requests) v =
      let o = handle B T c w args reply in
      start-IsValid o.control o.world requests (handle-IsValid c w args reply v)

  pub new_control-IsValid : IsValid B (new_control B T)
  new_control-IsValid = record {
    locations = record { nodup = tt };
    nymphs = new_nymph_set-IsValid B L;
  }

  -- Over a lawful bit set, whatever requests a fresh coordinator has handled, no two registered
  -- nymphs have the same identifier.
  start_distinct_ids :
      (w : T.World) (requests : List (Args × Reply)) (a b : Location) (i : ℕ)
      → let c = (start B T (new_control B T) w requests).0 in
        lookup a c.nymph_set.set ≡ some i → lookup b c.nymph_set.set ≡ some i → a ≡ b
  start_distinct_ids w requests a b i =
      (start-IsValid (new_control B T) w requests new_control-IsValid).nymphs.distinct a b i
