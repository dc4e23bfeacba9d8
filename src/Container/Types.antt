-- ===== src/Container/Types.antt =====
-- The types that pkg/container shares with its clients: ranks, kinds of migration and the
-- arguments of the calls that a recipient serves (container.go, checkpoint.go, rpc.go).
use konk.Base.{ℕ, ℤ, String, List, Eq, Bool, true, false, Option, none, some, ℕ_discrete}

abbrev pub Rank : Type 0
Rank = ℤ

-- An `int`, which a caller can set to any value: `above n` is 3 + n, and `below n` is -1 - n.
pub data MigrationType : Type 0 where
  migrate pre_dump with_pre_dump : MigrationType
  above below : ℕ → MigrationType

MigrationType-discrete : Discrete MigrationType
MigrationType-discrete = hlevel (ℕ_discrete)

instance unfoldable pub migration_type_eq : Eq MigrationType
unfolding MigrationType-discrete
migration_type_eq = record { dec = MigrationType-discrete }

-- `MigrationType.String`; `none` is the panic of its default.
pub to_string : MigrationType → Option String
to_string migrate = some "migrate"
to_string pre_dump = some "pre-dump"
to_string with_pre_dump = some "migrate-with-pre-dump"
to_string (above n) = none
to_string (below n) = none

-- The kinds whose last checkpoint is launched at the destination.
abbrev pub launches : MigrationType → Bool
launches migrate = true
launches pre_dump = false
launches with_pre_dump = true
launches (above n) = false
launches (below n) = false

-- One of the three constants.
abbrev pub IsConstant : MigrationType → Type 0
IsConstant migrate = Unit
IsConstant pre_dump = Unit
IsConstant with_pre_dump = Unit
IsConstant (above n) = ⊥
IsConstant (below n) = ⊥

pub data StartType : Type 0 where
  start restore : StartType

pub record ImageInfoArgs : Type 0 where
  pub rank : Rank
  pub id : String
  pub args : List String
  pub generation : ℤ
  pub parent : ℤ

pub record LinkInfoArgs : Type 0 where
  pub filename : String
  pub link : String
  pub size : ℕ
  pub mode : ℕ
  pub mod_time : ℕ

pub record FileInfoArgs : Type 0 where
  pub filename : String
  pub size : ℕ
  pub mode : ℕ
  pub mod_time : ℕ

pub record FileDataArgs : Type 0 where
  pub bytes : List ℕ
