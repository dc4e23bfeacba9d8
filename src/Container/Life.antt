-- ===== src/Container/Life.antt =====
-- container.go: starting, restoring and destroying a container.
use konk.Base.{
  String, List, Bool, true, false, none, some, Result, ok, err, errorf, wrap, wrap_err, Fallible,
  ◌≡◌, arith, ◌↔◌, ◌⊎◌, ◌≢◌,
}
use konk.Container.Types.{StartType, start, restore}
use konk.Container.Runtime.{Runtime, Process}
use konk.Container.Checkpoint.{Container, latest_checkpoint}
use konk.Container.Checkpoint

module _ (R : Runtime) where
  unfoldable pub new_process : List String → Bool → Result Process
  new_process args init = elim R.username [
    | none ↦ err (errorf "Username has not been found")
    | some user ↦ ok (record { args = args; user = user; init = init })
  ]

  -- The call that the kind of start selects.
  unfoldable pub begin : StartType → Process → Container R → R.World → Fallible × R.World
  begin start process c w =
      let (r, w') = R.run c.lib process w in
      (wrap_err "Failed to launch container in a process" r, w')
  begin restore process c w = elim (latest_checkpoint c.checkpoints) [
    | none ↦ (err (errorf "No checkpoint"), w)
    | some checkpoint ↦ Checkpoint.restore R c checkpoint process w
  ]

  -- Waiting for the process goes on in the background and changes nothing here.
  unfoldable pub launch :
      StartType → List String → Bool → Container R → R.World → Fallible × Container R × R.World
  launch kind args init c w = elim (new_process args init) [
    | err e ↦ (err (wrap "Failed to create new process" e), c, w)
    | ok process ↦ elim (R.host_root_uid c.lib) [
      | err e ↦ (err e, c, w)
      | ok _ ↦ elim (R.host_root_gid c.lib) [
        | err e ↦ (err e, c, w)
        | ok _ ↦
            let (set_up, w₁) = R.setup_io w in
            elim set_up [
              | err e ↦ (err (wrap "Failed to setup IO" e), record c { tty = false }, w₁)
              | ok _ ↦
                  let c' = record c { tty = true } in
                  let (r, w₂) = begin kind process c' w₁ in (r, c', w₂)
            ]
      ]
    ]
  ]

  -- `tty.Close` returns no error, and its result takes the place of that of the signal.
  unfoldable pub destroy : Container R → R.World → Fallible × R.World
  destroy c w =
      let (killed, w₁) = R.kill c.lib w in
      let (destroyed, w₂) = R.destroy c.lib w₁ in
      elim c.tty [
        | true ↦ (destroyed, w₂)
        | false ↦ elim killed [ err e ↦ (err e, w₂) | ok _ ↦ (destroyed, w₂) ]
      ]

  -- Launching leaves all of a container but its terminal as it was, and is successful only if the
  -- container then has a terminal.
  pub launch_lem :
      (kind : StartType) (args : List String) (init : Bool) (c : Container R) (w : R.World)
      → let (r, c', _) = launch kind args init c w in
        (record c' { tty = c.tty } ≡ c) × ((r ≢ ok tt) ⊎ (c'.tty ≡ true))
  unfolding launch
  launch_lem kind args init c w = ground arith

  -- The error of the kill is reported exactly when the container has no terminal; the container is
  -- destroyed in any case, and the error of that is reported otherwise.
  pub destroy_lem :
      (c : Container R) (w : R.World)
      → let (killed, w₁) = R.kill c.lib w in
        let (destroyed, w₂) = R.destroy c.lib w₁ in
        let (r, w') = destroy c w in
        (w' ≡ w₂) × (r ≡ ok tt ↔ (destroyed ≡ ok tt × ((c.tty ≡ true) ⊎ (killed ≡ ok tt))))
  unfolding destroy
  destroy_lem c w = ground arith
