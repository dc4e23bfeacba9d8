-- ===== src/Network/Rxe/Hooks.antt =====
-- rxe.go: making the driver, and the hook that sets the kernel's numbers for a container.
use konk.Base.{ℕ, ℤ, String, Result, Fallible}
use konk.Base.Exec.{Cmd, ◌>>=◌, ◌>>◌, pure, call, check, wrapped, deferring}
use konk.Config.{Viper, get_uint}
use konk.Config.Key
use konk.Network.HookState.{State, annotation}
use konk.Network.Rxe.{NetworkRxe}

abbrev pub last_qpn_path : String
last_qpn_path = "/proc/sys/net/rdma_rxe/last_qpn"

abbrev pub last_mrn_path : String
last_mrn_path = "/proc/sys/net/rdma_rxe/last_mrn"

-- Files of the kernel: opening one to read or to write, at most so many bytes of one, writing, and
-- closing.
pub record ProcFs (W : Type 0) : Type 1 where
  pub File : Type 0
  pub open_read : String → W → Result File × W
  pub open_write : String → W → Result File × W
  pub read : File → ℕ → W → Result String × W
  pub write_string : File → String → W → Fallible × W
  pub close : File → W → W

module _ {W : Type 0} (F : ProcFs W) where
  -- `atoi` and `trim` are `strconv.Atoi` and `strings.TrimSpace`. The file stays open.
  unfoldable pub new_rxe : Viper → (String → Result ℤ) → (String → String) → Cmd W NetworkRxe
  new_rxe V atoi trim = do
    f ← wrapped "Failed to open last_qpn file: %v" (call (F.open_read last_qpn_path))
    text ← wrapped "Failed to read last qpn file: %v" (call (F.read f 20))
    wrapped "Failed to parse last qpn file: %v" (check (atoi (trim text)))
    qpnpn ← get_uint V Key.rxe_qpnpn
    minqpn ← get_uint V Key.rxe_minqpn
    mrnpn ← get_uint V Key.rxe_mrnpn
    minmrn ← get_uint V Key.rxe_minmrn
    pure (record { qpnpn = qpnpn; minqpn = minqpn; mrnpn = mrnpn; minmrn = minmrn })

  unfoldable pub write_parameter : String → String → Cmd W (Unit {0})
  write_parameter path value = do
    f ← wrapped "Failed to open last_qpn file: %v" (call (F.open_write path))
    deferring (F.close f)
        (wrapped "Failed to read last qpn file: %v" (call (F.write_string f value)))

  unfoldable pub prestart : State → Cmd W (Unit {0})
  prestart state = do
    qpn_start ← check (annotation "konk-rxe-qpnstart" "Konk rank is not set" state)
    write_parameter last_qpn_path qpn_start
    mrn_start ← check (annotation "konk-rxe-mrnstart" "Konk rank is not set" state)
    write_parameter last_mrn_path mrn_start
