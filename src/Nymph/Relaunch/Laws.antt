-- ===== src/Nymph/Relaunch/Laws.antt =====
-- What a relaunch leaves in the register of the node.
use konk.Base.{
  ◌≡◌, ◌≢◌, refl, sym, ◌∙◌, ap, ◌⊎◌, inl, inr, String, List, [], ◌∷◌, ◌++◌, true, false, some, none,
  Result, ok, err, Error, errorf, int_eq, eq_self, eq_of_ne, arith, Result-cases, Bool-cases,
}
use mathlib.Core.List.{append_assoc, append-nil}
use konk.Base.Dict.{lookup, lookup-insert}
use konk.Container.Types.{Rank, ImageInfoArgs, restore}
use konk.Container.Runtime.{Runtime}
use konk.Container.Checkpoint.{Container, add_external}
use konk.Container.Registry.{ContainerRegister, load, put}
use konk.Container.Registry.Laws.{load_lem}
use konk.Container.Life.{launch, launch_lem}
use konk.Nymph.Relaunch.{Network, declare_all, relaunch}

module _ (R : Runtime) where
  -- The devices that the drivers declare for a rank, in the order of the drivers.
  abbrev pub declared : List (Network R) → Rank → List String
  declared [] rank = []
  declared (net ∷ nets) rank =
      let (external, is) = net.declare_external rank in
      elim is [ true ↦ external ++ declared nets rank | false ↦ declared nets rank ]

  declare_all_lem :
      (nets : List (Network R)) (cont : Container R)
      → declare_all R nets cont
        ≡ record cont { external = cont.external ++ declared nets cont.rank }
  unfolding declare_all add_external
  declare_all_lem [] cont =
      ap (λ (e : List String). record cont { external = e }) (sym (append-nil cont.external))
  declare_all_lem (net ∷ nets) cont =
      let (external, is) = net.declare_external cont.rank in
      elim (Bool-cases is) [
        | inr f ↦ rw (f, declare_all) (declare_all_lem nets cont)
        | inl f ↦
            rw (f, declare_all)
              (declare_all_lem nets (record cont { external = cont.external ++ external })
                ∙ ap (λ (e : List String). record cont { external = e })
                    (append_assoc cont.external external (declared nets cont.rank)))
      ]

  -- The register when the container has been loaded as `cont`, whatever follows.
  relaunch_loaded :
      (nets : List (Network R)) (info : ImageInfoArgs) (c : ContainerRegister R) (w : R.World)
      (cont : Container R)
      → (load R info c w).0 ≡ ok cont
      → let (_, c₁, w₁) = load R info c w in
        let cont₁ = declare_all R nets cont in
        let (l, cont₂, w₂) = launch R restore cont₁.args true cont₁ w₁ in
        let (r, c', _) = relaunch R nets info c w in
        (c' ≡ put R info.rank cont₂ c₁) × ((r ≢ some (ok tt)) ⊎ (l ≡ ok tt))
  unfolding relaunch
  relaunch_loaded nets info c w cont e =
      let (_, c₁, w₁) = load R info c w in
      let cont₁ = declare_all R nets cont in
      elim (Result-cases (launch R restore cont₁.args true cont₁ w₁).0) [
        | inl (_, f) ↦ rw (e, f, relaunch) (refl, inr refl)
        | inr (x, f) ↦ rw (e, f, relaunch) (refl, inl (λ p. cc))
      ]

  -- A relaunch changes no container of another rank. Either it fails to load the container, and
  -- leaves the register as it was; or the rank was free and has the container now, with the devices
  -- that the drivers declare for it, whether the relaunch then returns an error or none; if it
  -- succeeds, the container has a terminal. If a driver ends the process, all this is of the register
  -- that the process had in memory at its end.
  pub relaunch_lem :
      (nets : List (Network R)) (info : ImageInfoArgs) (q : Rank) (c : ContainerRegister R)
      (w : R.World)
      → q ≢ info.rank
      → let (r, c', _) = relaunch R nets info c w in
        ((e : Error) × (r ≡ some (err e)) × (c' ≡ c))
        ⊎ ((cont : Container R) × (lookup info.rank c.reg ≡ none)
            × (lookup info.rank c'.reg ≡ some cont)
            × (lookup q c'.reg ≡ lookup q c.reg)
            × (cont.external ≡ declared nets info.rank)
            × ((r ≢ some (ok tt)) ⊎ (cont.tty ≡ true)))
  unfolding put relaunch
  relaunch_lem nets info q c w ne = elim (load_lem R info q c w) [
    | inl (x, e, same) ↦ inl (x, rw (e, relaunch) refl, rw (e, relaunch) same)
    | inr (cont, e, free, _, _, rank, external, away) ↦
        let (_, c₁, w₁) = load R info c w in
        let cont₁ = declare_all R nets cont in
        let (l, cont₂, _) = launch R restore cont₁.args true cont₁ w₁ in
        let all = declare_all_lem nets cont in
        let (same, launched) = launch_lem R restore cont₁.args true cont₁ w₁ in
        let (register, result) = relaunch_loaded nets info c w cont e in
        inr (
          cont₂,
          free,
          ground (
            arith,
            register,
            lookup-insert info.rank info.rank cont₂ c₁.reg,
            eq_self {A = Rank} info.rank,
          ),
          ground (
            arith,
            register,
            away,
            lookup-insert q info.rank cont₂ c₁.reg,
            eq_of_ne {A = Rank} ne,
          ),
          ap (λ (x : Container R). x.external) same
              ∙ ap (λ (x : Container R). x.external) all
              ∙ rw (external, rank) refl,
          elim result [
            | inl failed ↦ inl failed
            | inr done ↦ elim launched [ inl failed ↦ absurd (failed done) | inr tty ↦ inr tty ]
          ],
        )
  ]

  refused :
      (nets : List (Network R)) (later : ImageInfoArgs) (c : ContainerRegister R) (v : R.World)
      {held : Container R}
      → lookup later.rank c.reg ≡ some held
      → let (r, c', _) = relaunch R nets later c v in
        (r ≡ some (err (errorf "Container already loaded"))) × (c' ≡ c)
  unfolding relaunch load
  refused nets later c v e =
      let stop : load R later c v ≡ (err (errorf "Container already loaded"), c, v) =
        rw (e, load) refl in
      rw (stop, relaunch)
        (refl, ap (λ (x : Result (Container R) × ContainerRegister R × R.World). x.1) stop)

  -- Once a relaunch has loaded the container of a rank, every later one for that rank is refused and
  -- changes nothing, also if the first one failed to launch the container.
  relaunch_again :
      (nets : List (Network R)) (info later : ImageInfoArgs) (c : ContainerRegister R)
      (w v : R.World) (cont : Container R)
      → (load R info c w).0 ≡ ok cont
      → later.rank ≡ info.rank
      → let (_, c', _) = relaunch R nets info c w in
        let (r, c'', _) = relaunch R nets later c' v in
        (r ≡ some (err (errorf "Container already loaded"))) × (c'' ≡ c')
  unfolding put
  relaunch_again nets info later c w v cont e same =
      let (_, c₁, w₁) = load R info c w in
      let cont₁ = declare_all R nets cont in
      let cont₂ = (launch R restore cont₁.args true cont₁ w₁).1 in
      let here : lookup info.rank (relaunch R nets info c w).1.reg ≡ some cont₂ = ground (
        arith,
        (relaunch_loaded nets info c w cont e).0,
        lookup-insert info.rank info.rank cont₂ c₁.reg,
        eq_self {A = Rank} info.rank,
      ) in
      refused nets later (relaunch R nets info c w).1 v
        (ap (λ (k : Rank). lookup k (relaunch R nets info c w).1.reg) same ∙ here)
