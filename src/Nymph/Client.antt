-- ===== src/Nymph/Client.antt =====
-- pkg/nymph/client.go and rpc.go: calls to a nymph. The connection (net/rpc over TCP) and the nymph
-- at its other end are a parameter.
use mathlib.Core.List.{Permᴰ}
use konk.Base.{ℤ, String, Bool, List, Result, ok, err, wrap_err, Fallible}
use konk.Container.Types.{Rank, MigrationType}

pub record SendArgs : Type 0 where
  pub container_rank : Rank
  pub host : String
  pub migration_type : MigrationType

pub record SignalArgs : Type 0 where
  pub rank : Rank
  pub signal : ℤ

pub record RunArgs : Type 0 where
  pub rank : Rank
  pub image : String
  pub args : List String
  pub init : Bool

-- A method of the service with its arguments: "Nymph.Send", "Nymph.Signal", "Nymph.Run".
pub data Call : Type 0 where
  rpc_send : SendArgs → Call
  rpc_signal : SignalArgs → Call
  rpc_run : RunArgs → Call

-- `dial` is what the attempts of `util.DialRpcServer` leave if it returns. It returns if the host is
-- reached, and tries for ever otherwise (Util/Dial has its loop). `call` is what `rpc.Client.Call` leaves
-- if it returns, which it does if it is answered or fails. What is stated of code that makes such calls is
-- stated of its runs in which they return. `range` is the order in which a `range` visits a map, which
-- is any.
pub record Transport : Type 1 where
  pub World : Type 0
  pub dial : String → World → World
  pub call : String → Call → World → Fallible × World
  pub reached : String → World → Bool
  pub answered : String → Call → World → Bool
  pub range : {A : Type 0} → World → List A → List A
  pub range-Perm : {A : Type 0} (w : World) (l : List A) → Permᴰ (range w l) l

-- The host that the connection leads to.
pub record Client : Type 0 where
  pub client : String

module _ (T : Transport) where
  -- `util.DialRpcServer` never returns an error, though its type has one and its callers look at it.
  abbrev pub dial_returned : String → T.World → Fallible × T.World
  dial_returned hostname w = (ok tt, T.dial hostname w)

  -- The port is that of the key nymph.port; a configuration without it, on which `GetInt` panics, is left
  -- out.
  unfoldable pub new_client : String → T.World → Result Client × T.World
  new_client hostname w =
      let (r, w') = dial_returned hostname w in
      elim r [ err e ↦ (err e, w') | ok _ ↦ (ok (record { client = hostname }), w') ]

  unfoldable pub send : Client → Rank → String → MigrationType → T.World → Fallible × T.World
  send c rank dest kind w =
      T.call c.client
        (rpc_send (record { container_rank = rank; host = dest; migration_type = kind })) w

  unfoldable pub signal : Client → Rank → ℤ → T.World → Fallible × T.World
  signal c rank s w =
      let (r, w') = T.call c.client (rpc_signal (record { rank = rank; signal = s })) w in
      (wrap_err "RPC call failed: %v" r, w')

  unfoldable pub run : Client → RunArgs → T.World → Fallible × T.World
  run c args w =
      let (r, w') = T.call c.client (rpc_run args) w in (wrap_err "RPC call failed: %v" r, w')
