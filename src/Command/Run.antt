-- ===== src/Command/Run.antt =====
-- cmd/run.go: the command that runs one rank.
use konk.Base.{
  ℤ, pos, ltb_ℤ, String, List, Bool, true, false, Result, ok, err, errorf, Error, ◌==◌, string_eq,
  ◌≡◌, ◌⊎◌, inl, inr, arith, if◌then◌else◌, Bool-cases, Result-cases,
}
use konk.Base.Exec.{Cmd, returns, ◌>>=◌, pure, call, check, wrapped, deferring}
use konk.Config.{Viper, get_string, get_string_ok, get_int_ok, get_bool}
use konk.Config.Key
use konk.Container.Types.{Rank}
use konk.Nymph.Client.{RunArgs, Client, Transport, new_client, run}

-- The value of the variable; an empty name gives rank 0.
abbrev named_rank : (String → String) → (String → Result ℤ) → String → Result Rank
named_rank getenv atoi name = if name == "" then ok (pos 0) else elim (atoi (getenv name)) [
  | err e ↦ err (errorf "Could not parse variable %s: %s")
  | ok i ↦ ok i
]

abbrev not_negative : Rank → Result Rank
not_negative rank = if ltb_ℤ rank (pos 0) then err (errorf "Rank should be >= 0: %v") else ok rank

-- `getenv` and `atoi` are `os.Getenv` and `strconv.Atoi`.
unfoldable pub get_container_rank : Viper → (String → String) → (String → Result ℤ) → Result Rank
get_container_rank V getenv atoi =
    let (rank, given) = get_int_ok V Key.container_rank in
    elim given [
      | true ↦ ok rank
      | false ↦
          let (name, named) = get_string_ok V Key.container_rank_env in
          elim named [
            | false ↦ err (errorf "Could not determine container rank")
            | true ↦ elim (named_rank getenv atoi name) [ err e ↦ err e | ok r ↦ not_negative r ]
          ]
    ]

-- A rank that is not configured as a number is looked up, and is then an error or not negative. A rank
-- that is configured as a number is taken as it is, also when it is negative.
get_container_rank_lem :
    (V : Viper) (getenv : String → String) (atoi : String → Result ℤ)
    → let r = get_container_rank V getenv atoi in
      ((V.is_set Key.container_rank ≡ true) × (r ≡ ok (V.int_at Key.container_rank)))
      ⊎ ((V.is_set Key.container_rank ≡ false)
          × (((e : Error) × (r ≡ err e)) ⊎ ((i : Rank) × (r ≡ ok i) × (ltb_ℤ i (pos 0) ≡ false))))
unfolding get_container_rank get_int_ok get_string_ok
get_container_rank_lem V getenv atoi = elim (Bool-cases (V.is_set Key.container_rank)) [
  | inl e ↦ inl (e, ground arith)
  | inr e ↦ elim (Bool-cases (V.is_set Key.container_rank_env)) [
    | inr f ↦ inr (e, inl (errorf "Could not determine container rank", ground arith))
    | inl f ↦ elim (Result-cases (named_rank getenv atoi (V.string_at Key.container_rank_env))) [
      | inr (x, g) ↦ inr (e, inl (x, ground arith))
      | inl (i, g) ↦ elim (Bool-cases (ltb_ℤ i (pos 0))) [
        | inl h ↦ inr (e, inl (errorf "Rank should be >= 0: %v", ground arith))
        | inr h ↦ inr (e, inr (i, ground arith, h))
      ]
    ]
  ]
]

-- A client of the coordinator (pkg/coordinator), and the connection to a nymph.
module _ {C : Type 0} (T : Transport) (new_coordinator : Cmd T.World C)
    (allocate_host : C → Rank → T.World → Result String × T.World)
    (close_coordinator : C → T.World → T.World) (close_nymph : Client → T.World → T.World) where
  unfoldable pub request_coordinator_allocation : Rank → Cmd T.World String
  request_coordinator_allocation rank = do
    c ← new_coordinator
    deferring (close_coordinator c) (call (allocate_host c rank))

  -- The host that is configured, or else the one that the coordinator allocates.
  unfoldable pub host_of : Viper → Rank → Cmd T.World String
  host_of V rank =
      let (hostname, given) = get_string_ok V Key.container_hostname in
      elim given [
        | true ↦ pure hostname
        | false ↦ wrapped "Failed to get host allocation: %v" (request_coordinator_allocation rank)
      ]

  abbrev init_or_false : Result Bool → Bool
  init_or_false (ok b) = b
  init_or_false (err e) = false

  -- `Client.Wait` of pkg/nymph: it asks nobody and gives an empty state.
  unfoldable pub wait : Client → Rank → Cmd T.World (Unit {0})
  wait c rank = pure tt

  -- An error of starting the container is only logged.
  unfoldable pub run_and_wait : Client → RunArgs → Cmd T.World (Unit {0})
  run_and_wait n args w = wrapped "Waiting failed: %v" (wait n args.rank) (run T n args w).1

  unfoldable pub run_at : Viper → List String → Rank → String → String → Cmd T.World (Unit {0})
  run_at V args rank image hostname = do
    n ← wrapped "Failed to connect to Nymph: %v" (call (new_client T hostname))
    deferring (close_nymph n) (
        run_and_wait n (record {
          rank = rank;
          image = image;
          args = args;
          init = init_or_false (get_bool V Key.container_init);
        }))

  -- The body of the command.
  unfoldable pub run_command :
      Viper → (String → String) → (String → Result ℤ) → List String → Cmd T.World (Unit {0})
  run_command V getenv atoi args = do
    rank ← check (get_container_rank V getenv atoi)
    image ← get_string V Key.container_image
    hostname ← host_of V rank
    run_at V args rank image hostname

  -- With a rank, an image and a configured host, the command, if its calls return, returns no error,
  -- whatever the nymph answers to the request to start the container.
  run_command_lem :
      (V : Viper) (getenv : String → String) (atoi : String → Result ℤ) (args : List String)
      (rank : Rank) (w : T.World)
      → get_container_rank V getenv atoi ≡ ok rank
      → V.is_set Key.container_image ≡ true
      → V.is_set Key.container_hostname ≡ true
      → (v : T.World) × (run_command V getenv atoi args w ≡ returns tt v)
  unfolding run_command get_string host_of get_string_ok run_at new_client run_and_wait wait
  run_command_lem V getenv atoi args rank w e f g =
      let n : Client = record { client = V.string_at Key.container_hostname } in
      let asked : RunArgs = record {
        rank = rank;
        image = V.string_at Key.container_image;
        args = args;
        init = init_or_false (get_bool V Key.container_init);
      } in
      let started = (run T n asked (T.dial (V.string_at Key.container_hostname) w)).1 in
      (close_nymph n started, ground arith)
