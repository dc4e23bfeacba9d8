-- ===== src/Command/Mpirun.antt =====
-- pkg/mpirun/mpirun.go: the parameters of mpirun, its container, and the signals that are passed on.
pub mod Laws
use konk.Base.{
  ℤ, String, ◌<>◌, List, [], ◌∷◌, ◌++◌, Bool, true, false, Option, none, some, Result, ok, err,
  errorf, Fallible,
}
use konk.Base.Exec.{Cmd, returns, ◌>>=◌, ◌>>◌, pure, call, check, wrapped, or_exit, deferring}
use konk.Config.{Viper, get_string, get_string_slice, get_int}
use konk.Config.Key

module _ {W : Type 0} where
  -- `executable` is what `os.Executable` gives, `itoa` prints a number, `cfg_file` is the global.
  unfoldable pub compose_params :
      Viper → Result String → (ℤ → String) → String → String → List String → Cmd W (List String)
  compose_params V executable itoa cfg_file image free_args = do
    numproc ← get_int V Key.mpirun_numproc
    hosts ← get_string V Key.mpirun_hosts
    numproc_name ← get_string V Key.mpirun_name_numproc
    hosts_name ← get_string V Key.mpirun_name_hosts
    saved_params ← get_string_slice V Key.mpirun_params
    konk_path ← or_exit (check executable)
    pure (
        saved_params
        ++ hosts_name
          ∷ hosts
          ∷ numproc_name
          ∷ itoa numproc
          ∷ (konk_path <> "-suid")
          ∷ "--config"
          ∷ cfg_file
          ∷ "run"
          ∷ "--image"
          ∷ image
          ∷ free_args)

  -- A signal goes to the process also when the coordinator cannot be told; `none` is a signal of
  -- another type than `syscall.Signal`.
  unfoldable pub forward_signal :
      {C : Type 0} → Cmd W C → (C → ℤ → W → Fallible × W) → (W → W) → Option ℤ → Cmd W (Unit {0})
  forward_signal new_client signal send number = deferring send (do
    coord ← wrapped "Cannot reach the coordinator: %v" new_client
    elim number [
      | none ↦ check (err (errorf "Signal type is not supported"))
      | some s ↦ wrapped "Could not send signal to the coordinator: %v" (call (signal coord s))
    ])

  -- A directory that is left from before is removed.
  abbrev purge : (String → W → Bool) → (String → W → W) → String → Cmd W (Unit {0})
  purge is_missing remove_all dir w =
      returns tt (elim (is_missing dir w) [ true ↦ w | false ↦ remove_all dir w ])

  -- `is_missing` is `os.IsNotExist` of the error of `os.Stat`; `new_factory` is `libcontainer.New`.
  unfoldable pub create_container_factory :
      {F : Type 0}
      → Viper
      → (String → W → Bool)
      → (String → W → W)
      → (String → W → Fallible × W)
      → (String → String → String)
      → (String → W → Result F × W)
      → Cmd W F
  create_container_factory V is_missing remove_all mkdir_all join new_factory = do
    tmp_dir ← get_string V Key.mpirun_tmp_dir
    purge is_missing remove_all tmp_dir
    wrapped "Failed to create temporary directory %v: %v" (call (mkdir_all tmp_dir))
    wrapped "Failed to create container factory: %v"
        (call (new_factory (join tmp_dir "containers")))

-- The container of mpirun in libcontainer, and the process that is started in it.
pub record Runner (W : Type 0) : Type 1 where
  pub Factory : Type 0
  pub Container : Type 0
  pub create : Factory → String → W → Result Container × W
  pub run : Container → List String → W → Fallible × W
  pub signal : ℤ → W → Fallible × W
  pub wait : W → Fallible × W
  pub destroy : Container → W → Fallible × W

module _ {W : Type 0} (R : Runner W) where
  -- The goroutine that passes the signals on to the process; it ends at the first that fails.
  unfoldable pub pass_signals : List ℤ → W → W
  pass_signals [] w = w
  pass_signals (number ∷ numbers) w =
      let (r, w') = R.signal number w in elim r [ err e ↦ w' | ok _ ↦ pass_signals numbers w' ]

  module _ (V : Viper) (executable : Result String) (itoa : ℤ → String) (cfg_file : String)
      (is_missing : String → W → Bool) (remove_all : String → W → W)
      (mkdir_all : String → W → Fallible × W) (join : String → String → String)
      (new_factory : String → W → Result R.Factory × W) where
    -- What follows the creation of the container. The signals are those that come before the process
    -- ends.
    unfoldable pub run_in : R.Container → String → List String → List ℤ → Cmd W (Unit {0})
    run_in cont image args numbers = do
      mpi_binpath ← get_string V Key.mpirun_binpath
      params ← compose_params V executable itoa cfg_file image args
      wrapped "MPI terminated with an error: %v" (call (R.run cont (mpi_binpath ∷ params)))
      wrapped "Waiting for process failed: %v" (call (λ w. R.wait (pass_signals numbers w)))

    -- What follows the creation of the factory. An error of the deferred call is not looked at.
    unfoldable pub run_with : R.Factory → String → List String → List ℤ → Cmd W (Unit {0})
    run_with factory image args numbers = do
      cont ← wrapped "Creating container failed" (call (R.create factory "mpirun"))
      deferring (λ w. (R.destroy cont w).1) (run_in cont image args numbers)

    unfoldable pub run : String → List String → List ℤ → Cmd W (Unit {0})
    run image args numbers = do
      factory ←
          wrapped "Failed to create mpirun container factory: %v"
            (create_container_factory V is_missing remove_all mkdir_all join new_factory)
      run_with factory image args numbers
