-- ===== src/Util/Rpc.antt =====
-- net/rpc, through which the clients call the servers.
use konk.Base.{Error}

-- What becomes of a call of net/rpc: it is answered, or an error arises before the server has the
-- request, or after the server has handled it.
pub data Delivery : Type 0 where
  delivered : Delivery
  refused lost : Error → Delivery
