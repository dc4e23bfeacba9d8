-- ===== src/Coordinator/Control/Ends.antt =====
-- Whether a request of the control loop ends: control.go and migrate.go call nymphs, and a call ends if
-- its host is reached and the nymph answers.
use konk.Base.{ℤ, [], ◌∷◌, Bool, true, none, some, ◌==◌, ◌&&◌, ◌||◌, string_eq}
use konk.Base.Dict.{Dict}
use konk.Container.Types.{Rank}
use konk.Nymph.Client.{Transport, rpc_send, rpc_signal}
use konk.Coordinator.LocationDb.{Location, get, dump}
use konk.Coordinator.NymphSet.Bits.{BitSet}
use konk.Coordinator.Migrate
use konk.Coordinator.Control.{
  Control, Args, allocate_host_args, register_container_args, unregister_container_args,
  migrate_args, signal_args, register_nymph_args, unregister_nymph_args,
}

module _ (B : BitSet) (T : Transport) where
  -- Every call of the loop of `signalImpl`, in the world that the calls before it leave.
  unfoldable pub signal_ends : ℤ → Dict Rank Location → T.World → Bool
  signal_ends s [] w = true
  signal_ends s ((rank, loc) ∷ db) w =
      T.reached loc.hostname w
      && (T.answered loc.hostname (rpc_signal (record { rank = rank; signal = s }))
            (T.dial loc.hostname w)
          && signal_ends s db (Migrate.signal T rank loc.hostname s w).1)

  -- The other requests make no call.
  unfoldable pub ends : Control B → T.World → Args → Bool
  ends c w (migrate_args rank dest_host kind) = elim (get c.location_db rank) [
    | none ↦ true
    | some src ↦
        (src.hostname == dest_host)
        || (T.reached src.hostname w
            && T.answered src.hostname
                (rpc_send
                  (record { container_rank = rank; host = dest_host; migration_type = kind }))
                (T.dial src.hostname w))
  ]
  ends c w (signal_args s) = signal_ends s (dump c.location_db).db w
  ends c w (allocate_host_args rank) = true
  ends c w (register_container_args rank hostname) = true
  ends c w (unregister_container_args rank hostname) = true
  ends c w (register_nymph_args hostname) = true
  ends c w (unregister_nymph_args hostname) = true
