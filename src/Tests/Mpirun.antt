-- ===== src/Tests/Mpirun.antt =====
-- The container of mpirun in a libcontainer in memory, whose state is the list of its containers.
use konk.Base.{ℕ, pos, List, [], ◌∷◌, true, ok, err, errorf, refl, arith, length}
use konk.Config.{Viper}
use konk.Command.Mpirun.{Runner, run_with}
use konk.Command.Mpirun.Laws.{IsTracked, Ended, run_with_lem}
use konk.Base.Exec.Ensures.{Ensures}

abbrev viper : Viper
viper = record {
  is_set = λ key. true;
  string_at = λ key. key;
  strings_at = λ key. [];
  bool_at = λ key. true;
  int_at = λ key. pos 2;
  uint_at = λ key. 0;
  parse_ip = λ s. ok [];
}

abbrev rest : List ℕ → List ℕ
rest [] = []
rest (c ∷ cs) = cs

-- The process ends with an error; the last container can be destroyed.
abbrev failing : Runner (List ℕ)
failing = record {
  Factory = Unit;
  Container = ℕ;
  create = λ f id w. (ok (length w), length w ∷ w);
  run = λ c params w. (ok tt, w);
  signal = λ number w. (ok tt, w);
  wait = λ w. (err (errorf "exit status 1"), w);
  destroy = λ c w. (ok tt, rest w);
}

failing-IsTracked : IsTracked failing (λ w. w)
failing-IsTracked = record {
  created = λ f id w c e. ground arith;
  refused = λ f id w x e. absurd (ground arith);
  destroyed = λ c l w e f. ground arith;
  kept = λ c w x f. absurd (ground arith);
  ran = λ c params w. refl;
  signalled = λ number w. refl;
  waited = λ w. refl;
}

abbrev Left : List ℕ → Type 0
Left v =
    Ended failing (λ w. w) failing-IsTracked viper (ok "/bin/konk") (λ n. "2") "konk.yaml"
      (λ d w. true) (λ d w. w) (λ d w. (ok tt, w)) (λ a b. b) (λ d w. (ok tt, w)) (7 ∷ []) v

run_with_lem_example :
    Ensures
      (λ _ v. Left v)
      (λ v. Left v)
      (run_with failing viper
        (ok "/bin/konk")
        (λ n. "2")
        "konk.yaml"
        (λ d w. true)
        (λ d w. w)
        (λ d w. (ok tt, w))
        (λ a b. b)
        (λ d w. (ok tt, w))
        tt
        "image"
        []
        (pos 15 ∷ [])
        (7 ∷ []))
run_with_lem_example =
    run_with_lem failing (λ w. w) failing-IsTracked viper (ok "/bin/konk") (λ n. "2") "konk.yaml"
      (λ d w. true) (λ d w. w) (λ d w. (ok tt, w)) (λ a b. b) (λ d w. (ok tt, w)) tt "image" []
      (pos 15 ∷ []) (7 ∷ [])
