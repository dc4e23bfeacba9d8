-- ===== src/Command/Mpirun/Laws.antt =====
-- What becomes of the container of mpirun at the end.
use konk.Base.{
  ◌⊎◌, ℤ, String, List, [], ◌∷◌, Bool, true, false, Result, ok, err, Error, Fallible, ◌≡◌, refl,
  ◌∙◌, inl, inr, Result-cases, arith,
}
use konk.Base.Exec.{Cmd, Exec, ◌>>=◌, call, check, wrapped, or_exit, panics, returns}
use konk.Base.Exec.Ensures.{Ensures, Ensures-bind, Ensures-wrapped, Ensures-call, Ensures-deferring}
use konk.Config.{Viper, get_string, get_string_slice, get_int}
use konk.Config.Key
use konk.Config.Key.{ViperKey}
use konk.Command.Mpirun.{Runner, compose_params, pass_signals, run_in, run_with}

abbrev run_failed : String
run_failed = "MPI terminated with an error: %v"

abbrev wait_failed : String
wait_failed = "Waiting for process failed: %v"

-- `live` gives the containers of a world: creating one adds it in front, destroying it takes it away,
-- if there is no error, and no other call of libcontainer changes them.
pub record IsTracked {W : Type 0} (R : Runner W) (live : W → List R.Container) : Type 0 where
  pub created :
      (f : R.Factory) (id : String) (w : W) (c : R.Container)
      → (R.create f id w).0 ≡ ok c
      → live (R.create f id w).1 ≡ c ∷ live w
  pub refused :
      (f : R.Factory) (id : String) (w : W) (e : Error)
      → (R.create f id w).0 ≡ err e
      → live (R.create f id w).1 ≡ live w
  pub destroyed :
      (c : R.Container) (l : List R.Container) (w : W)
      → live w ≡ c ∷ l
      → (R.destroy c w).0 ≡ ok tt
      → live (R.destroy c w).1 ≡ l
  pub kept :
      (c : R.Container) (w : W) (e : Error)
      → (R.destroy c w).0 ≡ err e
      → live (R.destroy c w).1 ≡ live w
  pub ran : (c : R.Container) (params : List String) (w : W) → live (R.run c params w).1 ≡ live w
  pub signalled : (number : ℤ) (w : W) → live (R.signal number w).1 ≡ live w
  pub waited : (w : W) → live (R.wait w).1 ≡ live w

module _ {W : Type 0} (R : Runner W) (live : W → List R.Container) (t : IsTracked R live) where
  pass_signals_live : (numbers : List ℤ) (w : W) → live (pass_signals R numbers w) ≡ live w
  unfolding pass_signals
  pass_signals_live [] w = refl
  pass_signals_live (number ∷ numbers) w = elim (Result-cases (R.signal number w).0) [
    | inr (e, p) ↦ ground (arith, t.signalled number w)
    | inl (_, p) ↦
        ground (arith, t.signalled number w, pass_signals_live numbers (R.signal number w).1)
  ]

  -- The containers are `l`.
  abbrev pub Keeps : {A : Type 0} → List R.Container → Exec W A → Type 0
  Keeps l x = Ensures (λ _ v. live v ≡ l) (λ v. live v ≡ l) x

  module _ (l : List R.Container) where
    Keeps-bind :
        {A B : Type 0} (m : Cmd W A) (f : A → Cmd W B) (w : W)
        → Keeps l (m w)
        → ((a : A) (v : W) → live v ≡ l → Keeps l (f a v))
        → Keeps l ((m >>= f) w)
    Keeps-bind = Ensures-bind (λ _ v. live v ≡ l) (λ v. live v ≡ l) (λ _ v. live v ≡ l)

    call-Keeps :
        (s : String) (op : W → Fallible × W) (w : W)
        → live (op w).1 ≡ l
        → Keeps l (wrapped s (call op) w)
    call-Keeps s op w h =
        Ensures-wrapped (λ _ v. live v ≡ l) (λ v. live v ≡ l) s (call op) w
          (Ensures-call (λ _ v. live v ≡ l) (λ v. live v ≡ l) op w (λ _ _. h) h)

    -- A key that is not set is a panic.
    set-Keeps :
        {A : Type 0} (is_set : Bool) (a : A) (w : W)
        → live w ≡ l
        → Keeps l (elim is_set [ false ↦ panics w | true ↦ returns a w ])
    set-Keeps true a w h = h
    set-Keeps false a w h = tt

    module _ (V : Viper) where
      get_string-Keeps : (key : ViperKey) (w : W) → live w ≡ l → Keeps l (get_string V key w)
      unfolding get_string
      get_string-Keeps key w h = set-Keeps (V.is_set key) (V.string_at key) w h

      executable-Keeps :
          (executable : Result String) (w : W) → live w ≡ l → Keeps l (or_exit (check executable) w)
      executable-Keeps (ok path) w h = h
      executable-Keeps (err e) w h = tt

      compose_params-Keeps :
          (executable : Result String) (itoa : ℤ → String) (cfg_file image : String)
          (args : List String) (w : W)
          → live w ≡ l
          → Keeps l (compose_params V executable itoa cfg_file image args w)
      unfolding compose_params get_int get_string_slice
      compose_params-Keeps executable itoa cfg_file image args w h =
          Keeps-bind (get_int V Key.mpirun_numproc) _ w
            (set-Keeps (V.is_set Key.mpirun_numproc) (V.int_at Key.mpirun_numproc) w h)
            λ _ v₁ h₁.
              Keeps-bind (get_string V Key.mpirun_hosts) _ v₁
                (get_string-Keeps Key.mpirun_hosts v₁ h₁)
                λ _ v₂ h₂.
                  Keeps-bind (get_string V Key.mpirun_name_numproc) _ v₂
                    (get_string-Keeps Key.mpirun_name_numproc v₂ h₂)
                    λ _ v₃ h₃.
                      Keeps-bind (get_string V Key.mpirun_name_hosts) _ v₃
                        (get_string-Keeps Key.mpirun_name_hosts v₃ h₃)
                        λ _ v₄ h₄.
                          Keeps-bind (get_string_slice V Key.mpirun_params) _ v₄
                            (set-Keeps (V.is_set Key.mpirun_params) (V.strings_at Key.mpirun_params)
                              v₄ h₄)
                            λ _ v₅ h₅.
                              Keeps-bind (or_exit (check executable)) _ v₅
                                (executable-Keeps executable v₅ h₅) (λ _ _ h₆. h₆)

  module _ (V : Viper) (executable : Result String) (itoa : ℤ → String) (cfg_file : String)
      (is_missing : String → W → Bool) (remove_all : String → W → W)
      (mkdir_all : String → W → Fallible × W) (join : String → String → String)
      (new_factory : String → W → Result R.Factory × W) where
    run_in-Keeps :
        (l : List R.Container) (c : R.Container) (image : String) (args : List String)
        (numbers : List ℤ) (w : W)
        → live w ≡ l
        → Keeps l (
            run_in R V executable itoa cfg_file is_missing remove_all mkdir_all join new_factory c
              image args numbers w)
    unfolding run_in
    run_in-Keeps l c image args numbers w h =
        Keeps-bind l (get_string V Key.mpirun_binpath) _ w
          (get_string-Keeps l V Key.mpirun_binpath w h)
          λ bin v₁ h₁.
            Keeps-bind l (compose_params V executable itoa cfg_file image args) _ v₁
              (compose_params-Keeps l V executable itoa cfg_file image args v₁ h₁)
              λ params v₂ h₂.
                Keeps-bind l (wrapped run_failed (call (R.run c (bin ∷ params)))) _ v₂
                  (call-Keeps l run_failed (R.run c (bin ∷ params)) v₂
                    (t.ran c (bin ∷ params) v₂ ∙ h₂))
                  λ _ v₃ h₃.
                    call-Keeps l wait_failed (λ v. R.wait (pass_signals R numbers v)) v₃
                      (t.waited (pass_signals R numbers v₃) ∙ pass_signals_live numbers v₃ ∙ h₃)

    -- The container has been destroyed, and the containers are `l`; or destroying it has failed, which
    -- libcontainer does for one that still runs, and it is left with them.
    abbrev pub Ended : List R.Container → W → Type 0
    Ended l v =
        (live v ≡ l)
        ⊎ ((c : R.Container) × (u : W) × (e : Error) × (R.destroy c u ≡ (err e, v))
            × (live v ≡ c ∷ l))

    destroy-Ended :
        (l : List R.Container) (c : R.Container) (v : W)
        → live v ≡ c ∷ l
        → Ended l (R.destroy c v).1
    destroy-Ended l c v h = elim (Result-cases (R.destroy c v).0) [
      | inl (_, e) ↦ inl (t.destroyed c l v h e)
      | inr (x, e) ↦ inr (c, v, x, ground arith, t.kept c v x e ∙ h)
    ]

    -- Over a libcontainer that keeps account of its containers, running mpirun returns, with an error or
    -- without, only after the call that destroys its container: the containers are then those of
    -- before its creation, or this call has failed and the container is left with them. Nothing is
    -- said of a run that panics or ends the process.
    pub run_with_lem :
        (factory : R.Factory) (image : String) (args : List String) (numbers : List ℤ) (w : W)
        → Ensures
            (λ _ v. Ended (live w) v)
            (λ v. Ended (live w) v)
            (run_with R V executable itoa cfg_file is_missing remove_all mkdir_all join new_factory
              factory image args numbers w)
    unfolding run_with
    run_with_lem factory image args numbers w =
        elim (Result-cases (R.create factory "mpirun" w).0) [
          | inl (c, e) ↦
              let job =
                run_in R V executable itoa cfg_file is_missing remove_all mkdir_all join new_factory
                  c image args numbers in
              let made = (R.create factory "mpirun" w).1 in
              rw (e, Ensures)
                (Ensures-deferring (λ _ v. Ended (live w) v) (λ v. Ended (live w) v)
                  (λ _ v. live v ≡ c ∷ live w) (λ v. live v ≡ c ∷ live w) (λ v. (R.destroy c v).1)
                  job made
                  (run_in-Keeps (c ∷ live w) c image args numbers made
                    (t.created factory "mpirun" w c e))
                  (λ _ v h. destroy-Ended (live w) c v h) (λ v h. destroy-Ended (live w) c v h))
          | inr (x, e) ↦ rw (e, Ensures) (inl (t.refused factory "mpirun" w x e))
        ]
