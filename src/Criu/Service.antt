-- ===== src/Criu/Service.antt =====
-- criu_service.go: the process of criu that is started for a container, and the connection to it.
pub mod Retry
use konk.Base.{
  ℕ, zero, suc, ◌-◌, ℤ, pos, ltb, String, ◌<>◌, List, [], ◌∷◌, Bool, true, false, Option, none,
  some, Result, ok, err, wrap, Error, Fallible, if◌then◌else◌,
}
use konk.Container.Types.{Rank}
use konk.Container.Device.{get_dev_name}

pub record CriuOs : Type 1 where
  pub World : Type 0
  pub File : Type 0
  pub Conn : Type 0
  pub itoa : ℤ → String
  -- The value, which is also there after an error, and the error.
  pub atoi : String → ℤ × Fallible
  pub read_file : String → World → Result String × World
  pub open_dir : String → World → Result File × World
  pub dial : String → World → Result Conn × World
  -- `time.Now` and `time.Sleep` in nanoseconds.
  pub now : World → ℕ
  pub sleep : ℕ → World → World
  -- Starting criu with its arguments, on a terminal of its own or not.
  pub start : List String → Bool → World → Fallible × World
  pub mkdir_all : String → World → Fallible × World
  pub remove : String → World → World
  pub remove_all : String → World → World
  pub close_dir : File → World → World
  pub close_conn : Conn → World → World
  -- `os.FindProcess`, and killing what it finds.
  pub kill : ℤ → World → World

-- `time.Second`, and the tenth of it that an attempt waits for.
abbrev pub second : ℕ
second = 1_000_000_000

abbrev pub pause : ℕ
pause = 100_000_000

module _ (O : CriuOs) where
  pub record CriuService : Type 0 where
    pub pid : ℤ
    pub image_dir : Option O.File
    pub conn : Option O.Conn
    pub rank : Rank
    pub socket_path : String
    pub pid_file_path : String
    pub image_dir_path : String

  unfoldable pub get_socket_path : Rank → String
  get_socket_path rank = "/var/run/criu.service." <> O.itoa rank

  unfoldable pub get_pid_file_path : Rank → String
  get_pid_file_path rank = "/var/run/criu.pidfile." <> O.itoa rank

  -- `util.CriuImageDir` is the directory before the name.
  unfoldable pub get_image_dir_path : Rank → String
  get_image_dir_path rank = "/tmp/criu.images/konk." <> O.itoa rank

  unfoldable pub new_criu_service : Rank → CriuService
  new_criu_service rank = record {
    pid = pos 0;
    image_dir = none;
    conn = none;
    rank = rank;
    socket_path = get_socket_path rank;
    pid_file_path = get_pid_file_path rank;
    image_dir_path = get_image_dir_path rank;
  }

  -- Each result is stored before its error is looked at.
  unfoldable pub dial_socket : CriuService → O.World → Fallible × CriuService × O.World
  dial_socket c w =
      let (r, w') = O.dial c.socket_path w in
      elim r [
        | err e ↦
            (err (wrap "Could not connect to the socket (%s): %v" e), record c { conn = none }, w')
        | ok conn ↦ (ok tt, record c { conn = some conn }, w')
      ]

  unfoldable pub open_images : CriuService → O.World → Fallible × CriuService × O.World
  open_images c w =
      let (r, w') = O.open_dir c.image_dir_path w in
      elim r [
        | err e ↦ (
          err (wrap "Could not open the directory (%s): %v" e),
          record c { image_dir = none },
          w',
        )
        | ok dir ↦ dial_socket (record c { image_dir = some dir }) w'
      ]

  unfoldable pub connect : CriuService → O.World → Fallible × CriuService × O.World
  connect c w =
      let (r, w') = O.read_file c.pid_file_path w in
      elim r [
        | err e ↦ (err (wrap "Could not read pid file (%s): %v" e), c, w')
        | ok text ↦
            let (pid, parsed) = O.atoi text in
            let c' = record c { pid = pid } in
            elim parsed [
              | err e ↦ (err (wrap "Could not parse pid file (%s): %v" e), c', w')
              | ok _ ↦ open_images c' w'
            ]
      ]

  -- The loop, which began at `start`. `none` means that the fuel ran out while the code would go on.
  unfoldable pub retry : ℕ → ℕ → CriuService → O.World → Option (Fallible × CriuService × O.World)
  retry zero start c w = none
  retry (suc fuel) start c w =
      let (r, c', w') = connect c w in
      elim r [
        | ok _ ↦ some (ok tt, c', w')
        | err e ↦ elim (ltb second (O.now w' - start)) [
          | true ↦ some (err (wrap "Could not connect to the socket (%s): %v" e), c', w')
          | false ↦ retry fuel start c' (O.sleep pause w')
        ]
      ]

  unfoldable pub connect_retry :
      ℕ → CriuService → O.World → Option (Fallible × CriuService × O.World)
  connect_retry fuel c w = retry fuel (O.now w) c w

  -- `util.CriuPath` is the first argument. A process that has been started stays after an error.
  unfoldable pub launch :
      ℕ → Bool → CriuService → O.World → Option (Fallible × CriuService × O.World)
  launch fuel setctty c w =
      let args =
        "/home/user/singularity-criu/install/sbin/criu" ∷ "service" ∷ "--address" ∷ c.socket_path
        ∷ "--pidfile" ∷ c.pid_file_path ∷ "-v4" ∷ "--log-pid" ∷ [] in
      let (started, w₁) = O.start args setctty w in
      elim started [
        | err e ↦ some (err (wrap "CRIU did not finish properly: %v" e), c, w₁)
        | ok _ ↦
            let (made, w₂) = O.mkdir_all c.image_dir_path w₁ in
            elim made [
              | err e ↦ some (err (wrap "Could not create image directory (%s): %v" e), c, w₂)
              | ok _ ↦ elim (connect_retry fuel c w₂) [
                | none ↦ none
                | some (err e, c', w₃) ↦
                    some (err (wrap "Could not establish connection to criu service: %v" e), c', w₃)
                | some (ok _, c', w₃) ↦ some (ok tt, c', w₃)
              ]
            ]
      ]

  abbrev close_some : {A : Type 0} → (A → O.World → O.World) → Option A → O.World → O.World
  close_some f none w = w
  close_some f (some a) w = f a w

  -- `none` is a nil receiver.
  unfoldable pub close : Option CriuService → O.World → O.World
  close none w = w
  close (some c) w =
      let w₁ = close_some O.close_dir c.image_dir w in
      let w₂ = O.remove c.pid_file_path w₁ in
      let w₃ = O.remove c.socket_path w₂ in
      let w₄ = O.remove_all c.image_dir_path w₃ in close_some O.close_conn c.conn (O.kill c.pid w₄)
