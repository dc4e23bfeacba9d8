-- ===== src/Tests/Criu.antt =====
-- The processes of a node in memory, and a clock that goes on only while a process sleeps.
use mathlib.Core.List.{Perm}
use konk.Base.{
  ℕ, zero, suc, ◌+◌, pos, String, List, [], ◌∷◌, some, ok, err, errorf, ◌≡◌, refl, arith, inl, inr,
}
use konk.Criu.ProcessTree.{Processes, Children, found, no_children, filtered, get_open_files_prefix}
use konk.Criu.ProcessTree.Forest.{Tree, node, nil, cons, Shows, size, flatten}
use konk.Criu.ProcessTree.Files.{concat_map, get_open_files_prefix_lem}
use konk.Criu.Service.{CriuOs, CriuService, new_criu_service, connect, connect_retry}
use konk.Criu.Service.Retry.{IsClock, Ended, connect_retry_lem}

-- Process 1 has started 2 and 3.
abbrev kids : ℕ → Children ℕ
kids (suc zero) = found (2 ∷ 3 ∷ [])
kids _ = no_children

abbrev opens : ℕ → List String
opens (suc zero) = "/tmp/a" ∷ "/etc/b" ∷ []
opens _ = "/tmp/c" ∷ []

abbrev processes : Processes
processes = record {
  Process = ℕ;
  new_process = λ pid. ok 1;
  children = kids;
  open_files = λ p. ok (opens p);
}

abbrev tree : Tree ℕ
tree = node 1 (cons (node 2 nil) (cons (node 3 nil) nil))

get_open_files_prefix_lem_example :
    (paths : List String) × (get_open_files_prefix processes 3 (pos 1) "/tmp" ≡ some (ok paths))
    × Perm paths (filtered "/tmp" (concat_map opens (flatten tree)))
unfolding Shows size
get_open_files_prefix_lem_example =
    get_open_files_prefix_lem processes opens 3 (pos 1) "/tmp" tree (λ p. refl) refl
      (inl refl, ((inr (refl, refl), tt), ((inr (refl, refl), tt), tt))) (omega arith)

-- The world is the time.
abbrev memory_criu : CriuOs
memory_criu = record {
  World = ℕ;
  File = Unit;
  Conn = Unit;
  itoa = λ n. "4";
  atoi = λ s. (pos 7, ok tt);
  read_file = λ p w. (ok "7", w);
  open_dir = λ p w. (ok tt, w);
  dial = λ p w. (err (errorf "connection refused"), w);
  now = λ w. w;
  sleep = λ d w. w + d;
  start = λ args tty w. (ok tt, w);
  mkdir_all = λ d w. (ok tt, w);
  remove = λ p w. w;
  remove_all = λ p w. w;
  close_dir = λ f w. w;
  close_conn = λ c w. w;
  kill = λ pid w. w;
}

clock : IsClock memory_criu
unfolding connect konk.Criu.Service.open_images konk.Criu.Service.dial_socket
clock = record { connect_le = λ c w. omega arith; sleep_le = λ d w. omega arith }

abbrev service : CriuService memory_criu
unfolding new_criu_service
service = new_criu_service memory_criu (pos 4)

connect_retry_lem_example : Ended memory_criu 5 (connect_retry memory_criu 12 service 5)
connect_retry_lem_example = connect_retry_lem memory_criu clock 12 service 5 (omega arith)
