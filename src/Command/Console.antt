-- ===== src/Command/Console.antt =====
-- cmd/console.go: the command that asks the coordinator for a migration.
use konk.Base.{String, List, [], ◌∷◌, Bool, true, false, ◌&&◌, ok, err, errorf, Fallible}
use konk.Base.Exec.{Cmd, ◌>>=◌, ◌>>◌, call, check, wrapped, deferring}
use konk.Container.Types.{Rank, MigrationType, migrate, pre_dump, with_pre_dump}

-- The flags of the command.
pub record Flags : Type 0 where
  pub rank : Rank
  pub destination : String
  pub pre_dump : Bool
  pub with_pre_dump : Bool

unfoldable pub console_args : Bool → List String → Fallible
console_args true args = err (errorf "Interactive mode is not supported yet")
console_args false [] = err (errorf "need to specify a command")
console_args false (_ ∷ _) = ok tt

unfoldable pub migrate_args : Flags → Fallible
migrate_args f = elim (f.pre_dump && f.with_pre_dump) [
  | true ↦ err (errorf "Flags pre-dump and with-pre-dump are conflicting")
  | false ↦ ok tt
]

unfoldable pub migration_type : Flags → MigrationType
migration_type f = elim f.pre_dump [
  | true ↦ pre_dump
  | false ↦ elim f.with_pre_dump [ true ↦ with_pre_dump | false ↦ migrate ]
]

module _ {W C : Type 0} (new_client : Cmd W C)
    (request : C → Rank → String → MigrationType → W → Fallible × W) (close : C → W → W) where
  -- The arguments are tested before the command runs.
  unfoldable pub migrate_command : Flags → Cmd W (Unit {0})
  migrate_command f = do
    check (migrate_args f)
    coord ← new_client
    deferring (close coord) (
        wrapped "Migration failed: %v"
          (call (request coord f.rank f.destination (migration_type f))))
