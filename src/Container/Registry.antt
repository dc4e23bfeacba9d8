-- ===== src/Container/Registry.antt =====
-- container_registry.go: the containers of a nymph by rank. The mutex makes each method one step.
pub mod Laws
pub mod Start
use konk.Base.{
  ℕ, ℤ, negsuc, succ_ℤ, String, List, [], ◌∷◌, Bool, true, false, Option, none, some, Result, ok,
  err, errorf, wrap, Fallible, ◌==◌, int_eq, if◌then◌else◌,
}
use konk.Base.Dict.{Dict, lookup, insert, erase}
use konk.Container.Types.{Rank, ImageInfoArgs}
use konk.Container.Runtime.{Runtime}
use konk.Container.Checkpoint.{Container, new_container, load_checkpoint}
use konk.Container.Life

module _ (R : Runtime) where
  pub record ContainerRegister : Type 0 where
    pub nymph_dir : String
    pub reg : Dict Rank (Container R)

  abbrev pub empty_register : String → ContainerRegister
  empty_register dir = record { nymph_dir = dir; reg = [] }

  unfoldable pub get_unlocked : ContainerRegister → Rank → Result (Container R)
  get_unlocked c rank = elim (lookup rank c.reg) [
    | some cont ↦ ok cont
    | none ↦ err (errorf "Container %v not found")
  ]

  -- A container is shared with the register: whoever changes it writes it back.
  unfoldable pub put : Rank → Container R → ContainerRegister → ContainerRegister
  put rank cont c = record c { reg = insert rank cont c.reg }

  unfoldable pub get_or_create :
      Rank
      → String
      → List String
      → R.Config
      → ContainerRegister
      → R.World
      → Result (Container R) × ContainerRegister × R.World
  get_or_create rank name args config c w = elim (lookup rank c.reg) [
    | some cont ↦ (ok cont, c, w)
    | none ↦
        let (created, w') = R.create name config w in
        elim created [
          | err e ↦ (err (wrap "Failed to create a libcontainer container: %v" e), c, w')
          | ok lib ↦
              let cont = new_container R lib rank args c.nymph_dir in (ok cont, put rank cont c, w')
        ]
  ]

  -- `if imageInfo.Parent != -1`
  unfoldable pub load_parent : ℤ → Container R → R.World → Fallible × Container R
  load_parent parent cont w = elim (parent == negsuc 0) [
    | true ↦ (ok tt, cont)
    | false ↦ load_checkpoint R parent cont w
  ]

  -- The checkpoints of an image that was received, and the counter behind them.
  unfoldable pub load_checkpoints : ImageInfoArgs → Container R → R.World → Result (Container R)
  load_checkpoints info cont w =
      let (own, c₁) = load_checkpoint R info.generation cont w in
      elim own [
        | err e ↦ err e
        | ok _ ↦
            let (parent, c₂) = load_parent info.parent c₁ w in
            elim parent [
              | err e ↦ err e
              | ok _ ↦ ok (record c₂ { next_checkpoint_id = succ_ℤ info.generation })
            ]
      ]

  unfoldable pub load :
      ImageInfoArgs
      → ContainerRegister
      → R.World
      → Result (Container R) × ContainerRegister × R.World
  load info c w = elim (lookup info.rank c.reg) [
    | some cont ↦ (err (errorf "Container already loaded"), c, w)
    | none ↦
        let (loaded, w') = R.load info.id w in
        elim loaded [
          | err e ↦ (err (wrap "Failed to lead a libcontainer" e), c, w')
          | ok lib ↦
              elim (load_checkpoints info (new_container R lib info.rank info.args c.nymph_dir)
                w') [ err e ↦ (err e, c, w') | ok cont ↦ (ok cont, put info.rank cont c, w') ]
        ]
  ]

  -- `none` is the panic for a container that is not there. An error of destroying it is only logged.
  unfoldable pub delete_unlocked :
      Rank → ContainerRegister → R.World → Option (ContainerRegister × R.World)
  delete_unlocked rank c w = elim (lookup rank c.reg) [
    | none ↦ none
    | some cont ↦
        let (_, w') = Life.destroy R cont w in some (record c { reg = erase rank c.reg }, w')
  ]

  destroy_all : Dict Rank (Container R) → R.World → R.World
  destroy_all [] w = w
  destroy_all ((_, cont) ∷ reg) w = destroy_all reg (Life.destroy R cont w).1

  unfoldable pub destroy : ContainerRegister → R.World → R.World
  unfolding destroy_all
  destroy c w = destroy_all c.reg w
