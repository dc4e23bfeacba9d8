-- ===== src/Util/Dial.antt =====
-- server.go: `DialRpcServer` tries `DialRpcServerOnce` until one attempt succeeds. The state `W` is
-- whatever the attempts act on; the pause between them and the log change none of it.
use konk.Base.{ℕ, zero, suc, ◌<◌, ◌≡◌, refl, Option, none, some, arith, ok, err, Result, Error}

module _ {ℓ} {W C : Type ℓ} (once : W → Result C × W) where
  -- `none` means that the fuel ran out while the code would still be dialling.
  pub dial_rpc_server : ℕ → W → Option (C × W)
  dial_rpc_server zero w = none
  dial_rpc_server (suc fuel) w =
      let (r, w') = once w in
      elim r [ ok client ↦ some (client, w') | err e ↦ dial_rpc_server fuel w' ]

  -- The world after `n` failed attempts, if the first `n` attempts all fail.
  pub data Fails : ℕ → W → W → Type ℓ where
    here : (w : W) → Fails 0 w w
    again :
        {n : ℕ} {w u : W} (e : Error) (v : W)
        → once w ≡ (err e, v)
        → Fails n v u
        → Fails (suc n) w u

  -- If `n` attempts fail and the next one succeeds, the call returns the client of that attempt, for
  -- any fuel above `n`; more fuel makes no further attempt.
  pub dial_rpc_server_retries :
      {n : ℕ} {w u : W} (fuel : ℕ) (c : C) (v : W)
      → Fails n w u
      → once u ≡ (ok c, v)
      → n < fuel
      → dial_rpc_server fuel w ≡ some (c, v)
  unfolding dial_rpc_server
  dial_rpc_server_retries zero c v f e h = absurd (omega arith)
  dial_rpc_server_retries (suc fuel) c v (here w) e h = ground arith
  dial_rpc_server_retries (suc fuel) c v (again {n = n} x y p f) e h =
      ground (arith, dial_rpc_server_retries {n = n} fuel c v f e (omega arith))

  -- If the first `n` attempts fail, the call has not returned after `n` attempts.
  pub dial_rpc_server_waits : {n : ℕ} {w u : W} → Fails n w u → dial_rpc_server n w ≡ none
  unfolding dial_rpc_server
  dial_rpc_server_waits (here w) = refl
  dial_rpc_server_waits (again x y p f) = ground (arith, dial_rpc_server_waits f)
