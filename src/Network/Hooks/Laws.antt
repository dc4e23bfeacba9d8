-- ===== src/Network/Hooks/Laws.antt =====
-- network.go, hook.go and konk.go: the commands that a driver installs lead back to its own hooks.
use konk.Base.{
  ℕ, String, List, [], ◌∷◌, ◌++◌, Bool-cases, Option, some, Result, ok, Fallible, ◌==◌, string_eq,
  ◌≡◌, refl, inl, inr, arith, true, subst, sym, ap, ◌∙◌,
}
use konk.Base.Exec.{Cmd, returns, ◌>>=◌, ◌>>◌, pure, call, deferring, bind-returns}
use konk.Network.Netlink.{Netlink}
use konk.Network.HookState.{State}
use konk.Network.Driver.{Env, Driver, rxe, ovs, veth, Network, new, new_driver}
use konk.Network.Rxe.Hooks as RxeHooks
use konk.Network.Ovs
use konk.Network.Veth
use konk.Network.Hooks.{
  Command, HookLists, Process, install_hooks, create_hook, Hooks, hooks_ovs, hooks_veth, hooks_rxe,
  hooks_of, hook_of, run_chosen, run_hook, execute_safe, execute, exit_code, init,
}

-- Where the string is known, so is the test on it.
same_string : (s t : String) → ◌==◌ {A = String} s t ≡ true → s ≡ t
same_string s t e = ground arith

module _ (K : Netlink) (E : Env K) where
  -- The hooks of a driver by its kind, without its name.
  abbrev pub driver_hooks : Driver K → Hooks K E
  driver_hooks (rxe n) = hooks_rxe K E
  driver_hooks (ovs n) = hooks_ovs K E
  driver_hooks (veth n) = hooks_veth K E

  hooks_of_types :
      (hooks_of K E "rxe" ≡ some (hooks_rxe K E))
      × (hooks_of K E "ovs" ≡ some (hooks_ovs K E))
      × (hooks_of K E "veth" ≡ some (hooks_veth K E))
  unfolding hooks_of string_eq
  hooks_of_types = (refl, refl, refl)

  -- A driver that a constructor makes has the hooks of that constructor.
  made-hooks :
      {A : Type 0} (m : Cmd K.World A) (c : A → Driver K) (h : Hooks K E) (d : Driver K)
      (w w' : K.World)
      → ((a : A) → driver_hooks (c a) ≡ h)
      → (m >>= λ a. pure (c a)) w ≡ returns d w'
      → driver_hooks d ≡ h
  made-hooks m c h d w w' all e =
      let (a, v, f, g) = bind-returns m (λ a. pure (c a)) e in
      let same : c a ≡ d = ground arith in subst (λ x. driver_hooks x ≡ h) same (all a)

  -- The switch of `RunHook` chooses the hooks of the driver that the switch of `New` makes.
  new_driver-hooks :
      (t : String) (d : Driver K) (w w' : K.World)
      → new_driver K E t w ≡ returns d w'
      → hooks_of K E t ≡ some (driver_hooks d)
  unfolding new_driver
  new_driver-hooks t d w w' e = elim (Bool-cases (t == "rxe")) [
    | inl p ↦
        let m = RxeHooks.new_rxe E.proc E.viper E.atoi E.trim in
        let f : (m >>= λ n. pure (rxe n)) w ≡ returns d w' = ground arith in
        ap (hooks_of K E) (same_string t "rxe" p)
        ∙ hooks_of_types.0
        ∙ ap some (sym (made-hooks m rxe (hooks_rxe K E) d w w' (λ a. refl) f))
    | inr p ↦ elim (Bool-cases (t == "ovs")) [
      | inl q ↦
          let m = Ovs.new_ovs E.switch E.viper in
          let f : (m >>= λ n. pure (ovs n)) w ≡ returns d w' = ground arith in
          ap (hooks_of K E) (same_string t "ovs" q)
          ∙ hooks_of_types.1
          ∙ ap some (sym (made-hooks m ovs (hooks_ovs K E) d w w' (λ a. refl) f))
      | inr q ↦ elim (Bool-cases (t == "veth")) [
        | inl r ↦
            let m = Veth.new_veth K E.viper E.host in
            let f : (m >>= λ n. pure (veth n)) w ≡ returns d w' = ground arith in
            ap (hooks_of K E) (same_string t "veth" r)
            ∙ hooks_of_types.2
            ∙ ap some (sym (made-hooks m veth (hooks_veth K E) d w w' (λ a. refl) f))
        | inr r ↦ absurd (ground arith)
      ]
    ]
  ]

  new-hooks :
      (t : String) (n : Network K) (w w' : K.World)
      → new K E t w ≡ returns n w'
      → hooks_of K E n.network_type ≡ some (driver_hooks n.driver)
  unfolding new
  new-hooks t n w w' e =
      let made : Driver K → Cmd K.World (Network K) =
        λ d. pure (record { driver = d; network_type = t }) in
      let (d, v, f, g) = bind-returns (new_driver K E t) made e in
      let same : record { driver = d; network_type = t } ≡ n = ground arith in
      subst (λ x. hooks_of K E x.network_type ≡ some (driver_hooks x.driver)) same
        (new_driver-hooks t d w v f)

  module _ (read_state : K.World → Result State × K.World) (open_log : K.World → Fallible × K.World)
      (close_log : K.World → K.World) where
    -- A process that runs one hook, with a log.
    abbrev pub hook_process : (State → Cmd K.World (Unit {0})) → Cmd K.World ℕ
    hook_process hook w = exit_code K E read_state open_log close_log (
        (call open_log >> deferring close_log (run_chosen K E read_state open_log close_log hook))
          w)

    abbrev pub started : List String → Option (Cmd K.World ℕ)
    started = init K E read_state open_log close_log

    -- A command that is installed for a stage starts the hook of that stage.
    started_lem :
        (stage t : String) (h : State → Cmd K.World (Unit {0})) (hooks : Hooks K E)
        → hooks_of K E t ≡ some hooks
        → hook_of K E stage hooks ≡ some h
        → started ("konk" ∷ "hook" ∷ stage ∷ t ∷ []) ≡ some (hook_process h)
    unfolding init execute execute_safe run_hook string_eq
    started_lem stage t h hooks e f =
        ap
          (λ c. some (λ w.
            exit_code K E read_state open_log close_log
              ((call open_log >> deferring close_log c) w)))
          (rw (e, f, run_hook) refl)

    hook_of_stages :
        (hooks : Hooks K E)
        → (hook_of K E "prestart" hooks ≡ some hooks.prestart)
          × (hook_of K E "poststart" hooks ≡ some hooks.poststart)
          × (hook_of K E "poststop" hooks ≡ some hooks.poststop)
    unfolding hook_of string_eq
    hook_of_stages hooks = (refl, refl, refl)

    -- If `New` gives a driver and the working directory can be read, installing its hooks succeeds and
    -- puts one command behind those of each stage; the program that runs with the arguments of such a
    -- command reads the state and calls the hook of that stage of this very driver.
    pub install_hooks_lem :
        (p : Process) (cwd t : String) (n : Network K) (hooks : HookLists) (w w' : K.World)
        → p.getwd ≡ ok cwd
        → new K E t w ≡ returns n w'
        → let (r, hooks') = install_hooks p n.network_type hooks in
          (r ≡ ok tt)
          × (c₁ c₂ c₃ : Command) × (hooks'.prestart ≡ hooks.prestart ++ c₁ ∷ [])
          × (hooks'.poststart ≡ hooks.poststart ++ c₂ ∷ [])
          × (hooks'.poststop ≡ hooks.poststop ++ c₃ ∷ [])
          × (started c₁.args ≡ some (hook_process (driver_hooks n.driver).prestart))
          × (started c₂.args ≡ some (hook_process (driver_hooks n.driver).poststart))
          × (started c₃.args ≡ some (hook_process (driver_hooks n.driver).poststop))
    unfolding install_hooks create_hook
    install_hooks_lem p cwd t n hooks w w' e f =
        let command : String → Command = λ stage. record {
          path = "/proc/self/exe";
          args = "konk" ∷ "hook" ∷ stage ∷ n.network_type ∷ [];
          env = p.environ;
          dir = cwd;
          timeout = 3;
        } in
        let h = new-hooks t n w w' f in
        let own = driver_hooks n.driver in
        let stages = hook_of_stages own in
        (
          ground arith,
          command "prestart",
          command "poststart",
          command "poststop",
          ground arith,
          ground arith,
          ground arith,
          started_lem "prestart" n.network_type own.prestart own h stages.0,
          started_lem "poststart" n.network_type own.poststart own h stages.1,
          started_lem "poststop" n.network_type own.poststop own h stages.2,
        )
