-- ===== src/Container/Runtime.antt =====
-- What containers use of libcontainer, of the operating system and of the configuration: a
-- parameter. Every call that can fail returns an error.
use konk.Base.{ℤ, String, List, Bool, Option, Result, Fallible}

-- The fields of `libcontainer.CriuOpts` that differ between calls; the others are constants.
pub record CriuOpts : Type 0 where
  pub images_directory : String
  pub parent_image : String
  pub leave_running : Bool
  pub pre_dump : Bool
  pub external : List String
  pub external_unix_connections : Bool

pub record Process : Type 0 where
  pub args : List String
  pub user : String
  pub init : Bool

pub record Runtime : Type 1 where
  pub World : Type 0
  -- `libcontainer.Container` and `configs.Config`.
  pub Lib : Type 0
  pub Config : Type 0
  pub id : Lib → String
  pub create : String → Config → World → Result Lib × World
  pub load : String → World → Result Lib × World
  pub run : Lib → Process → World → Fallible × World
  pub checkpoint : Lib → CriuOpts → World → Fallible × World
  pub restore : Lib → Process → CriuOpts → World → Fallible × World
  pub kill : Lib → World → Fallible × World
  pub destroy : Lib → World → Fallible × World
  pub status : Lib → World → Fallible
  pub host_root_uid : Lib → Fallible
  pub host_root_gid : Lib → Fallible
  -- `setupIO` with `detach` false: the pair of console sockets.
  pub setup_io : World → Fallible × World
  pub mkdir_all : String → World → Fallible × World
  pub read_dir : String → World → Fallible
  -- `path.Join` of two parts, and `strconv.Itoa`.
  pub join : String → String → String
  pub itoa : ℤ → String
  -- The key container.user, if it is set.
  pub username : Option String
