-- ===== src/Network/Hooks.antt =====
-- network.go, hook.go and konk.go: the commands that a driver puts into the configuration of a
-- container, and what the program does when one of them is run.
pub mod Laws
use konk.Base.{
  ℕ, String, ◌<>◌, List, [], ◌∷◌, ◌++◌, Bool, true, false, Option, none, some, Result, ok, err,
  errorf, wrap, Error, Fallible, ◌==◌, string_eq, length, nat_beq,
}
use konk.Base.Exec.{
  Cmd, Exec, returns, fails, exits, panics, ◌>>=◌, ◌>>◌, pure, call, check, wrapped, deferring,
}
use konk.Network.Netlink.{Netlink}
use konk.Network.HookState.{State}
use konk.Network.Driver.{Env, Network}
use konk.Network.Ovs
use konk.Network.Veth.Hooks as VethHooks
use konk.Network.Rxe.Hooks as RxeHooks

-- `configs.Command`, its timeout in seconds.
pub record Command : Type 0 where
  pub path : String
  pub args : List String
  pub env : List String
  pub dir : String
  pub timeout : ℕ

-- `configs.Hooks`
pub record HookLists : Type 0 where
  pub prestart : List Command
  pub poststart : List Command
  pub poststop : List Command

-- `os.Getwd` and `os.Environ`, which give one result throughout a call.
pub record Process : Type 0 where
  pub getwd : Result String
  pub environ : List String

unfoldable pub create_hook : Process → String → String → Result Command
create_hook p network_type hook_type = elim p.getwd [
  | err e ↦ err e
  | ok cwd ↦ ok (record {
    path = "/proc/self/exe";
    args = "konk" ∷ "hook" ∷ hook_type ∷ network_type ∷ [];
    env = p.environ;
    dir = cwd;
    timeout = 3;
  })
]

-- `InstallHooks`, which stops at the first error with the hooks that it has installed by then.
unfoldable pub install_hooks : Process → String → HookLists → Fallible × HookLists
install_hooks p network_type hooks = elim (create_hook p network_type "prestart") [
  | err e ↦ (err e, hooks)
  | ok hook₁ ↦
      let hooks₁ = record hooks { prestart = hooks.prestart ++ hook₁ ∷ [] } in
      elim (create_hook p network_type "poststart") [
        | err e ↦ (err e, hooks₁)
        | ok hook₂ ↦
            let hooks₂ = record hooks₁ { poststart = hooks₁.poststart ++ hook₂ ∷ [] } in
            elim (create_hook p network_type "poststop") [
              | err e ↦ (err e, hooks₂)
              | ok hook₃ ↦ (ok tt, record hooks₂ { poststop = hooks₂.poststop ++ hook₃ ∷ [] })
            ]
      ]
]

module _ (K : Netlink) (E : Env K) where
  pub record Hooks : Type 0 where
    pub prestart : State → Cmd K.World (Unit {0})
    pub poststart : State → Cmd K.World (Unit {0})
    pub poststop : State → Cmd K.World (Unit {0})

  -- The methods of `baseHooks`.
  abbrev pub base_hook : State → Cmd K.World (Unit {0})
  base_hook state w = returns tt w

  abbrev pub hooks_ovs : Hooks
  hooks_ovs = record {
    prestart = Ovs.prestart E.switch;
    poststart = base_hook;
    poststop = Ovs.poststop E.switch;
  }

  abbrev pub hooks_veth : Hooks
  hooks_veth = record {
    prestart = VethHooks.prestart E.itoa E.atoi K;
    poststart = base_hook;
    poststop = VethHooks.poststop E.itoa E.atoi K;
  }

  abbrev pub hooks_rxe : Hooks
  hooks_rxe = record {
    prestart = RxeHooks.prestart E.proc;
    poststart = base_hook;
    poststop = base_hook;
  }

  -- The two switches of `RunHook`; `none` is the panic of the default.
  unfoldable pub hooks_of : String → Option Hooks
  hooks_of network_type = elim (network_type == "ovs") [
    | true ↦ some hooks_ovs
    | false ↦ elim (network_type == "veth") [
      | true ↦ some hooks_veth
      | false ↦ elim (network_type == "rxe") [ true ↦ some hooks_rxe | false ↦ none ]
    ]
  ]

  unfoldable pub hook_of : String → Hooks → Option (State → Cmd K.World (Unit {0}))
  hook_of hook_type hooks = elim (hook_type == "prestart") [
    | true ↦ some hooks.prestart
    | false ↦ elim (hook_type == "poststart") [
      | true ↦ some hooks.poststart
      | false ↦ elim (hook_type == "poststop") [ true ↦ some hooks.poststop | false ↦ none ]
    ]
  ]

  -- An error is only logged.
  unfoldable pub logged : Cmd K.World (Unit {0}) → Cmd K.World (Unit {0})
  logged m w = elim (m w) [
    | returns _ w' ↦ returns tt w'
    | fails e w' ↦ returns tt w'
    | exits w' ↦ exits w'
    | panics w' ↦ panics w'
  ]

  -- `read_state` decodes what the standard input has; `open_log` and `close_log` are the file of the
  -- log, with its name left out.
  module _ (read_state : K.World → Result State × K.World) (open_log : K.World → Fallible × K.World)
      (close_log : K.World → K.World) where
    -- The call of the hook that has been chosen.
    unfoldable pub run_chosen : (State → Cmd K.World (Unit {0})) → Cmd K.World (Unit {0})
    run_chosen hook = do
      state ← wrapped "Failed to read state: %v" (call read_state)
      logged (hook state)

    unfoldable pub run_hook : String → String → Cmd K.World (Unit {0})
    run_hook hook_type network_type = elim (hooks_of network_type) [
      | none ↦ λ w. panics w
      | some hooks ↦ elim (hook_of hook_type hooks) [
        | none ↦ λ w. panics w
        | some hook ↦ run_chosen hook
      ]
    ]

    unfoldable pub execute_safe : List String → Cmd K.World (Unit {0})
    execute_safe (hook_type ∷ net_type ∷ []) = do
      call open_log
      deferring close_log (run_hook hook_type net_type)
    execute_safe _ = check (err (errorf "Expected exactly two arguments"))

    -- The exit code of the process, when it is not `log.Fatal` or a panic that ends it.
    abbrev pub exit_code : Exec K.World (Unit {0}) → Exec K.World ℕ
    exit_code (returns _ w) = returns 0 w
    exit_code (fails e w) = returns 1 w
    exit_code (exits w) = exits w
    exit_code (panics w) = panics w

    unfoldable pub execute : List String → Cmd K.World ℕ
    execute args w = exit_code (execute_safe args w)

    -- The branch of konk.go for a command whose first argument is "hook"; `none` is another branch.
    unfoldable pub init : List String → Option (Cmd K.World ℕ)
    init (_ ∷ command ∷ args) = elim (command == "hook") [
      | true ↦ some (execute args)
      | false ↦ none
    ]
    init _ = none
