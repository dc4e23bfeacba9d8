-- ===== src/Criu/Messages.antt =====
-- criu_service.go: the messages to criu, and its answers. The encoding is a parameter; an identifier of
-- a process fits in 32 bits.
use konk.Base.{
  ℕ, ℤ, pos, negsuc, String, ◌<>◌, List, [], ◌∷◌, Bool, true, false, Option, none, some, Result, ok,
  err, wrap, Error, Fallible,
}
use konk.Container.Device.{get_dev_name}
use konk.Criu.Service.{CriuOs, CriuService}

pub record CriuOpts : Type 0 where
  pub images_dir_fd : ℤ
  pub pid : Option ℤ
  pub leave_running : Option Bool
  pub tcp_established : Bool
  pub shell_job : Bool
  pub log_level : ℤ
  pub log_file : String
  pub notify_scripts : Bool
  pub external : List String

pub data CriuReq : Type 0 where
  notify : Bool → CriuReq
  dump restore : CriuOpts → CriuReq

-- What `conn.Read` gives: bytes, bytes with the end of the stream, or an error.
pub data Reading : Type 0 where
  got at_eof : List ℕ → Reading
  unreadable : Error → Reading

pub record Protocol (O : CriuOs) : Type 1 where
  pub Response : Type 0
  pub fd : O.File → ℤ
  -- At most so many bytes.
  pub read : O.Conn → ℕ → O.World → Reading × O.World
  pub write : O.Conn → List ℕ → O.World → Fallible × O.World
  pub marshal : CriuReq → Result (List ℕ)
  pub unmarshal : List ℕ → Result Response

module _ (O : CriuOs) (M : Protocol O) where
  -- `Fd` of a nil file is -1.
  abbrev dir_fd : Option O.File → ℤ
  dir_fd none = negsuc 0
  dir_fd (some dir) = M.fd dir

  -- A response may come with the error that the stream has ended.
  unfoldable pub get_response : O.Conn → O.World → Result (M.Response × Bool) × O.World
  get_response conn w =
      let (r, w') = M.read conn 256 w in
      elim r [
        | unreadable e ↦ (err (wrap "Failed to receive response (read %v bytes): %v" e), w')
        | got bytes ↦ elim (M.unmarshal bytes) [
          | err e ↦ (err (wrap "Failed unmarshalling data: %v" e), w')
          | ok response ↦ (ok (response, false), w')
        ]
        | at_eof bytes ↦ elim (M.unmarshal bytes) [
          | err e ↦ (err (wrap "Failed unmarshalling data: %v" e), w')
          | ok response ↦ (ok (response, true), w')
        ]
      ]

  -- `none` is the panic for a response that cannot be encoded.
  unfoldable pub respond : O.Conn → O.World → Option (Fallible × O.World)
  respond conn w = elim (M.marshal (notify true)) [
    | err e ↦ none
    | ok req ↦
        let (r, w') = M.write conn req w in
        elim r [
          | err e ↦ some (err (wrap "Writing notification to socket failed: %v" e), w')
          | ok _ ↦ some (ok tt, w')
        ]
  ]

  unfoldable pub send_request : CriuReq → O.Conn → O.World → Fallible × O.World
  send_request criu_req conn w = elim (M.marshal criu_req) [
    | err e ↦ (err (wrap "Could not marshal criu options: %v" e), w)
    | ok req ↦
        let (r, w') = M.write conn req w in
        elim r [
          | err e ↦ (err (wrap "Writing to socket failed (%v): %v" e), w')
          | ok _ ↦ (ok tt, w')
        ]
  ]

  unfoldable pub send_dump_request : CriuService O → ℤ → O.Conn → O.World → Fallible × O.World
  send_dump_request c pid = send_request (
      dump (record {
        images_dir_fd = dir_fd c.image_dir;
        pid = some pid;
        leave_running = some false;
        tcp_established = true;
        shell_job = true;
        log_level = pos 10;
        log_file = "criu.log." <> O.itoa pid;
        notify_scripts = true;
        external = [];
      }))

  unfoldable pub get_external_string : CriuService O → String
  get_external_string c =
      "veth["
      <> get_dev_name O.itoa "veth" c.rank
      <> "]:"
      <> get_dev_name O.itoa "vpeer" c.rank
      <> "@br0"

  unfoldable pub send_restore_request : CriuService O → O.Conn → O.World → Fallible × O.World
  send_restore_request c = send_request (
      restore (record {
        images_dir_fd = dir_fd c.image_dir;
        pid = none;
        leave_running = none;
        tcp_established = true;
        shell_job = true;
        log_level = pos 10;
        log_file = "criu.log.4";
        notify_scripts = true;
        external = get_external_string c ∷ [];
      }))
