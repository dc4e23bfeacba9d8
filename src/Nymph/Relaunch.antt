-- ===== src/Nymph/Relaunch.antt =====
-- srv/nymph/migrate-recipient.go: the call that restores a container from the files received. The
-- network drivers are a parameter.
pub mod Laws
use konk.Base.{
  String, List, [], ◌∷◌, Bool, true, false, ok, err, Result, Fallible, Option, none, some,
}
use konk.Base.Exec.{Cmd, returns, fails, exits, panics}
use konk.Container.Types.{Rank, ImageInfoArgs, restore}
use konk.Container.Runtime.{Runtime}
use konk.Container.Checkpoint.{Container, add_external}
use konk.Container.Registry.{ContainerRegister, load, put}
use konk.Container.Life.{launch}

-- What a relaunch asks of a driver (network.Network).
pub record Network (R : Runtime) : Type 0 where
  pub declare_external : Rank → List String × Bool
  pub post_restore : Container R → Cmd R.World (Unit {0})

module _ (R : Runtime) where
  unfoldable pub declare_all : List (Network R) → Container R → Container R
  declare_all [] cont = cont
  declare_all (net ∷ nets) cont =
      let (external, declared) = net.declare_external cont.rank in
      declare_all nets (elim declared [ true ↦ add_external R external cont | false ↦ cont ])

  -- The drivers one after the other; an error ends the loop, and log.Fatal or a panic the process.
  unfoldable pub post_restore_all : List (Network R) → Container R → Cmd R.World (Unit {0})
  post_restore_all [] cont w = returns tt w
  post_restore_all (net ∷ nets) cont w = elim (net.post_restore cont w) [
    | returns _ w' ↦ post_restore_all nets cont w'
    | fails e w' ↦ fails e w'
    | exits w' ↦ exits w'
    | panics w' ↦ panics w'
  ]

  -- The networks' part and the query of the status, once the container runs. `none` is the end of the
  -- process.
  unfoldable pub settle : List (Network R) → Container R → R.World → Option Fallible × R.World
  settle nets cont w = elim (post_restore_all nets cont w) [
    | returns _ w' ↦ (some (R.status cont.lib w'), w')
    | fails e w' ↦ (some (err e), w')
    | exits w' ↦ (none, w')
    | panics w' ↦ (none, w')
  ]

  -- `Recipient.Relaunch`. The container is shared with the register, so what becomes of it is written
  -- back; the sequence number is left as it is. `none` is the end of the process, and the register then
  -- the one that is lost with it.
  unfoldable pub relaunch :
      List (Network R)
      → ImageInfoArgs
      → ContainerRegister R
      → R.World
      → Option Fallible × ContainerRegister R × R.World
  relaunch nets info c w =
      let (loaded, c₁, w₁) = load R info c w in
      elim loaded [
        | err e ↦ (some (err e), c₁, w₁)
        | ok cont ↦
            let cont₁ = declare_all nets cont in
            let (r, cont₂, w₂) = launch R restore cont₁.args true cont₁ w₁ in
            let c₂ = put R info.rank cont₂ c₁ in
            elim r [
              | err e ↦ (some (err e), c₂, w₂)
              | ok _ ↦ let (s, w₃) = settle nets cont₂ w₂ in (s, c₂, w₃)
            ]
      ]
