-- ===== src/Coordinator/Control.antt =====
-- control.go: the coordinator's control loop, which handles one request at a time.
pub mod Allocate
pub mod Migration
pub mod Broadcast
pub mod Invariant
pub mod Ends
use konk.Base.{
  ℕ, ℤ, pos, ◌+◌, ltb, String, true, false, Bool, Option, none, some, List, [], ◌∷◌, ◌==◌, ok, err,
  errorf, wrap, wrap_err, Error, Result, Fallible, if◌then◌else◌, nat_beq,
}
use konk.Base.Dict.{Dict}
use konk.Container.Types.{Rank, MigrationType, pre_dump, migration_type_eq}
use konk.Nymph.Client.{Transport}
use konk.Coordinator.LocationDb.{
  Location, LocationDb, LocationInfo, new_location_db, get, set, unset, locations_stat, dump,
}
use konk.Coordinator.NymphSet.Bits.{BitSet}
use konk.Coordinator.NymphSet.{NymphSet, new_nymph_set, add, del}
use konk.Coordinator.Migrate

-- The arguments of the requests, a constructor for each type that the loop tells apart.
pub data Args : Type 0 where
  allocate_host_args : Rank → Args
  register_container_args : Rank → String → Args
  unregister_container_args : Rank → String → Args
  migrate_args : Rank → String → MigrationType → Args
  signal_args : ℤ → Args
  register_nymph_args : String → Args
  unregister_nymph_args : String → Args

-- What `reply` points to. A handler asks for a pointer to a value of its own type.
pub data Reply : Type 0 where
  no_reply : Reply
  string_reply : String → Reply
  int_reply : ℤ → Reply

pub record Control (B : BitSet) : Type 0 where
  pub location_db : LocationDb
  pub nymph_set : NymphSet B

abbrev pub max_int_32 : ℕ
max_int_32 = 2147483647

-- The loop of `allocateHost`, over the report in the order in which its range visits it.
unfoldable pub min_loop : Dict Location LocationInfo → Location → ℕ → Location × ℕ
min_loop [] best count = (best, count)
min_loop ((location, info) ∷ rest) best count =
    let better = ltb info.container_count count in
    min_loop rest (if better then location else best)
      (if better then info.container_count else count)

unfoldable pub choose : Dict Location LocationInfo → Result String
choose info_map =
    let (location, count) = min_loop info_map (record { hostname = "" }) max_int_32 in
    if nat_beq count max_int_32
    then err (errorf "No location has been found")
    else ok location.hostname

module _ (B : BitSet) (T : Transport) where
  -- What a handler leaves: the control, the world, the reply and the error.
  pub record Outcome : Type 0 where
    pub control : Control B
    pub world : T.World
    pub reply : Reply
    pub error : Fallible

  abbrev pub new_control : Control B
  new_control = record { location_db = new_location_db; nymph_set = new_nymph_set B }

  abbrev pub failed : Control B → T.World → Reply → Error → Outcome
  failed c w reply e = record { control = c; world = w; reply = reply; error = err e }

  abbrev pub done : Control B → T.World → Reply → Outcome
  done c w reply = record { control = c; world = w; reply = reply; error = ok tt }

  unfoldable pub allocate_host : Control B → T.World → Rank → Reply → Outcome
  allocate_host c w rank (string_reply old) = elim (get c.location_db rank) [
    | some location ↦ done c w (string_reply location.hostname)
    | none ↦ elim (choose (T.range w (locations_stat c.location_db))) [
      | err e ↦ failed c w (string_reply old) e
      | ok hostname ↦ done c w (string_reply hostname)
    ]
  ]
  allocate_host c w rank no_reply = failed c w no_reply (errorf "Failed to parse reply parameter")
  allocate_host c w rank (int_reply i) =
      failed c w (int_reply i) (errorf "Failed to parse reply parameter")

  unfoldable pub register_impl : Control B → T.World → Rank → String → Reply → Outcome
  register_impl c w rank hostname reply =
      done (record c { location_db = set c.location_db rank (record { hostname = hostname }) }) w
        reply

  -- An error of `Unset` is only logged.
  unfoldable pub unregister_impl : Control B → T.World → Rank → String → Reply → Outcome
  unregister_impl c w rank hostname reply =
      let (db, _) = unset c.location_db rank (record { hostname = hostname }) in
      done (record c { location_db = db }) w reply

  -- A pre-dump leaves the container where it is.
  abbrev pub relocate : Control B → Rank → String → MigrationType → Control B
  relocate c rank dest_host kind = elim (kind == pre_dump) [
    | true ↦ c
    | false ↦ record c { location_db = set c.location_db rank (record { hostname = dest_host }) }
  ]

  unfoldable pub migrate_impl :
      Control B → T.World → Rank → String → MigrationType → Reply → Outcome
  migrate_impl c w rank dest_host kind reply = elim (get c.location_db rank) [
    | none ↦ failed c w reply (errorf "Container %v is not known")
    | some src ↦
        let (r, w') = Migrate.migrate T rank src.hostname dest_host kind w in
        elim r [
          | err e ↦ failed c w' reply (wrap "Failed to migrate: %v" e)
          | ok _ ↦ done (relocate c rank dest_host kind) w' reply
        ]
  ]

  -- `anyErr` is the error of the last call that failed.
  abbrev pub last_error : Fallible → Fallible → Fallible
  last_error any_err (ok _) = any_err
  last_error any_err (err e) = err e

  unfoldable pub signal_loop : Dict Rank Location → ℤ → Fallible → T.World → Fallible × T.World
  signal_loop [] s any_err w = (any_err, w)
  signal_loop ((rank, loc) ∷ db) s any_err w =
      let (r, w') = Migrate.signal T rank loc.hostname s w in
      signal_loop db s (last_error any_err r) w'

  unfoldable pub signal_impl : Control B → T.World → ℤ → Reply → Outcome
  signal_impl c w s reply =
      let (any_err, w') = signal_loop (dump c.location_db).db s (ok tt) w in
      record { control = c; world = w'; reply = reply; error = any_err }

  unfoldable pub register_nymph_impl : Control B → T.World → String → Reply → Outcome
  register_nymph_impl c w hostname (int_reply old) =
      let (set', id) = add B c.nymph_set (record { hostname = hostname }) in
      done (record c { nymph_set = set' }) w (int_reply (pos id))
  register_nymph_impl c w hostname no_reply =
      failed c w no_reply (errorf "Failed to parse reply parameter")
  register_nymph_impl c w hostname (string_reply s) =
      failed c w (string_reply s) (errorf "Failed to parse reply parameter")

  unfoldable pub unregister_nymph_impl : Control B → T.World → String → Reply → Outcome
  unregister_nymph_impl c w hostname reply =
      let (set', found) = del B c.nymph_set (record { hostname = hostname }) in
      let c' = record c { nymph_set = set' } in
      elim found [
        | true ↦ done c' w reply
        | false ↦ failed c' w reply (errorf "Nymph was not registered")
      ]

  -- The body of the loop in `Start`. Its default, the panic for an unknown argument, has no case:
  -- the constructors are all the arguments that the server sends.
  unfoldable pub handle : Control B → T.World → Args → Reply → Outcome
  handle c w (allocate_host_args rank) reply = allocate_host c w rank reply
  handle c w (register_container_args rank hostname) reply = register_impl c w rank hostname reply
  handle c w (unregister_container_args rank hostname) reply =
      unregister_impl c w rank hostname reply
  handle c w (migrate_args rank dest_host kind) reply = migrate_impl c w rank dest_host kind reply
  handle c w (signal_args s) reply = signal_impl c w s reply
  handle c w (register_nymph_args hostname) reply = register_nymph_impl c w hostname reply
  handle c w (unregister_nymph_args hostname) reply = unregister_nymph_impl c w hostname reply

  -- `Start`: the requests in the order in which the channel delivers them.
  unfoldable pub start : Control B → T.World → List (Args × Reply) → Control B × T.World
  start c w [] = (c, w)
  start c w ((args, reply) ∷ requests) =
      let o = handle c w args reply in start o.control o.world requests

  abbrev pub request_failed : Fallible → Fallible
  request_failed = wrap_err "Request to coordinator control failed: %v"

  -- `RequestReply`, from the side of the caller: what it sees once the loop has answered.
  unfoldable pub request_reply : Control B → T.World → Args → Reply → Outcome
  request_reply c w args reply =
      let o = handle c w args reply in record o { error = request_failed o.error }

  -- `Request` passes no place for a reply.
  unfoldable pub request : Control B → T.World → Args → Outcome
  request c w args = let o = handle c w args no_reply in record o { error = request_failed o.error }
