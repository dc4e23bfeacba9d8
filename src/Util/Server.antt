-- ===== src/Util/Server.antt =====
-- server.go: the listener of a server, the loop that accepts its connections, and one attempt to reach a
-- server. Serving a connection is a goroutine of net/rpc, which is started and not waited for.
use konk.Base.{
  ℕ, zero, suc, ℤ, String, ◌<>◌, List, [], ◌∷◌, Option, none, some, Result, ok, err, wrap, Error,
  Result-cases, inl, inr, ◌≡◌, arith,
}

pub record Sockets : Type 1 where
  pub World : Type 0
  pub Listener : Type 0
  pub Conn : Type 0
  pub itoa : ℤ → String
  pub listen : String → World → Result Listener × World
  pub connect : String → World → Result Conn × World
  pub accept : Listener → World → Result Conn × World
  pub close : Listener → World → World
  -- The goroutine for a connection is started; `serve` answers its calls until it is closed.
  pub go_serve : Conn → World → World
  pub serve : Conn → World → World

module _ (S : Sockets) where
  unfoldable pub create_listener : ℤ → S.World → Result S.Listener × S.World
  create_listener port w =
      let (r, w') = S.listen (":" <> S.itoa port) w in
      elim r [ err e ↦ (err (wrap "Could not open a port (%v): %v" e), w') | ok l ↦ (ok l, w') ]

  -- The error that ends the loop. `none` means that the fuel ran out while the code would go on.
  unfoldable pub server_loop : ℕ → S.Listener → S.World → Option (Error × S.World)
  server_loop zero l w = none
  server_loop (suc fuel) l w =
      let (r, w') = S.accept l w in
      elim r [
        | err e ↦ some (wrap "Failed to open a connection: %v" e, w')
        | ok conn ↦ server_loop fuel l (S.go_serve conn w')
      ]

  unfoldable pub serve_one : S.Listener → S.World → Result S.Conn × S.World
  serve_one l w =
      let (r, w') = S.accept l w in
      elim r [
        | err e ↦ (err (wrap "Failed to open a connection: %v" e), w')
        | ok conn ↦ (ok conn, S.serve conn w')
      ]

  -- A client is its connection.
  unfoldable pub dial_rpc_server_once : String → ℤ → S.World → Result S.Conn × S.World
  dial_rpc_server_once hostname port w =
      let (r, w') = S.connect (hostname <> ":" <> S.itoa port) w in
      elim r [
        | err e ↦ (err (wrap "Cannot reach the server (%v): %v" e), w')
        | ok conn ↦ (ok conn, w')
      ]

  -- The world after the connections of a list have been accepted, each with its goroutine started.
  data Accepted (l : S.Listener) : List S.Conn → S.World → S.World → Type 0 where
    nobody : (w : S.World) → Accepted l [] w w
    another :
        {conns : List S.Conn} {u : S.World} (conn : S.Conn) (w v : S.World)
        → S.accept l w ≡ (ok conn, v)
        → Accepted l conns (S.go_serve conn v) u
        → Accepted l (conn ∷ conns) w u

  -- If the loop ends, every connection that was accepted before has its goroutine, and the next one
  -- could not be accepted.
  server_loop_lem :
      (fuel : ℕ) (l : S.Listener) (w : S.World) (e : Error) (v : S.World)
      → server_loop fuel l w ≡ some (e, v)
      → (conns : List S.Conn) × (u : S.World) × (x : Error) × Accepted l conns w u
        × (S.accept l u ≡ (err x, v))
  unfolding server_loop
  server_loop_lem zero l w e v h = absurd (ground arith)
  server_loop_lem (suc fuel) l w e v h = elim (Result-cases (S.accept l w).0) [
    | inr (x, p) ↦ ([], w, x, nobody w, ground arith)
    | inl (conn, p) ↦
        let w' = (S.accept l w).1 in
        let (conns, u, x, a, q) = server_loop_lem fuel l (S.go_serve conn w') e v (ground arith) in
        (conn ∷ conns, u, x, another conn w w' (ground arith) a, q)
  ]
