-- ===== src/Criu/Service/Retry.antt =====
-- criu_service.go: how long the loop goes on that connects to the process of criu.
use konk.Base.{
  ℕ, zero, suc, ◌+◌, ◌-◌, ◌*◌, ◌≤◌, ◌<◌, ◌≡◌, ltb, Option, some, Fallible, ok, err, Error, ◌⊎◌, inl,
  inr, arith, Result-cases, Bool-cases, wrap,
}
use konk.Criu.Service.{CriuOs, CriuService, connect, retry, connect_retry, second, pause}

module _ (O : CriuOs) where
  -- The clock does not go back while a connection is tried, and goes on while the process sleeps.
  pub record IsClock : Type 0 where
    pub connect_le : (c : CriuService O) (w : O.World) → O.now w ≤ O.now (connect O c w).2
    pub sleep_le : (d : ℕ) (w : O.World) → O.now w + d ≤ O.now (O.sleep d w)

  -- The loop has ended: with a connection, or with an error after more than a second.
  abbrev pub Ended : ℕ → Option (Fallible × CriuService O × O.World) → Type 0
  Ended start o =
      (c : CriuService O) × (w : O.World) × ((o ≡ some (ok tt, c, w))
        ⊎ ((e : Error) × (o ≡ some (err e, c, w)) × (start + second < O.now w)))

  module _ (K : IsClock) where
    retry-Ended :
        (fuel rounds start : ℕ) (c : CriuService O) (w : O.World)
        → start + rounds * pause ≤ O.now w
        → 11 < rounds + fuel
        → rounds ≤ 11
        → Ended start (retry O fuel start c w)
    unfolding retry
    retry-Ended zero rounds start c w h f b = absurd (omega arith)
    retry-Ended (suc fuel) rounds start c w h f b =
        let (_, c', w') = connect O c w in
        elim (Result-cases (connect O c w).0) [
          | inl (_, e) ↦ (c', w', inl (ground arith))
          | inr (x, e) ↦ elim (Bool-cases (ltb second (O.now w' - start))) [
            | inl late ↦ (
              c',
              w',
              inr (wrap "Could not connect to the socket (%s): %v" x, ground arith, ground arith),
            )
            | inr early ↦
                let before = K.connect_le c w in
                let after = K.sleep_le pause w' in
                rw (e, early, retry)
                  (retry-Ended fuel (suc rounds) start c' (O.sleep pause w') (omega arith)
                    (omega arith) (ground arith))
          ]
        ]

    -- If the clock goes on, the loop ends within twelve attempts: with a connection, or with an error
    -- when more than a second has gone by since it began.
    pub connect_retry_lem :
        (fuel : ℕ) (c : CriuService O) (w : O.World)
        → 12 ≤ fuel
        → Ended (O.now w) (connect_retry O fuel c w)
    unfolding connect_retry
    connect_retry_lem fuel c w h =
        retry-Ended fuel 0 (O.now w) c w (omega arith) (omega arith) (omega arith)
