-- ===== src/Nymph/Daemon/Registration.antt =====
-- srv/nymph/server.go: the loop that registers the daemon at the coordinator. The pause between two
-- attempts changes no state.
use konk.Base.{
  ℕ, zero, suc, ◌<◌, String, Option, none, some, ok, err, wrap, wrap_err, Fallible, ◌≡◌, refl,
  arith, ◌⊎◌, inl, inr, Result-cases,
}
use konk.Nymph.Daemon.{Node, Nymph}

module _ {W : Type 0} (N : Node W) (c : N.Client) where
  abbrev renamed : Nymph N → ℕ → Nymph N
  renamed n id = record n { id = id }

  -- The reply is stored also when there is an error.
  unfoldable pub register_nymph_once : Nymph N → W → Fallible × Nymph N × W
  register_nymph_once n w = elim (N.hostname w) [
    | err e ↦ (err (wrap "Failed to get hostname: %v" e), n, w)
    | ok hostname ↦
        let (id, r, w') = N.register_nymph c hostname w in
        (wrap_err "Failed to register nymph: %v" r, renamed n id, w')
  ]

  -- `none` means that the fuel ran out while the code would still be trying.
  unfoldable pub register_nymph : ℕ → Nymph N → W → Option (Nymph N × W)
  register_nymph zero n w = none
  register_nymph (suc fuel) n w =
      let (r, n', w') = register_nymph_once n w in
      elim r [ ok _ ↦ some (n', w') | err e ↦ register_nymph fuel n' w' ]

  -- The world after an attempt.
  abbrev after : W → W
  after w = elim (N.hostname w) [ err e ↦ w | ok hostname ↦ (N.register_nymph c hostname w).2 ]

  -- The coordinator accepts the node at the latest after `k` attempts, whatever these give.
  pub data Accepts : ℕ → W → Type 0 where
    now :
        (w : W) (hostname : String)
        → N.hostname w ≡ ok hostname
        → (N.register_nymph c hostname w).1 ≡ ok tt
        → Accepts 0 w
    later : {k : ℕ} (w : W) → Accepts k (after w) → Accepts (suc k) w

  -- A daemon that is registered: its identifier is the answer to a call that was accepted, and it is
  -- otherwise what it was.
  abbrev pub Registered : Nymph N → Option (Nymph N × W) → Type 0
  Registered n o =
      (id : ℕ) × (hostname : String) × (u v : W) × (o ≡ some (renamed n id, v))
      × (N.hostname u ≡ ok hostname)
      × (N.register_nymph c hostname u ≡ (id, ok tt, v))

  once-cases :
      (fuel : ℕ) (n : Nymph N) (w : W)
      → Registered n (register_nymph (suc fuel) n w)
        ⊎ ((n' : Nymph N) × ((id : ℕ) × (n' ≡ renamed n id))
            × (register_nymph (suc fuel) n w ≡ register_nymph fuel n' (after w)))
  unfolding register_nymph register_nymph_once
  once-cases fuel n w = elim (Result-cases (N.hostname w)) [
    | inr (e, p) ↦ inr (n, (n.id, refl), ground arith)
    | inl (h, p) ↦ elim (Result-cases (N.register_nymph c h w).1) [
      | inl (_, q) ↦ inl (
        (N.register_nymph c h w).0,
        h,
        w,
        (N.register_nymph c h w).2,
        ground arith,
        p,
        ground arith,
      )
      | inr (e, q) ↦
          let id = (N.register_nymph c h w).0 in inr (renamed n id, (id, refl), ground arith)
    ]
  ]

  -- If the coordinator accepts the node at the latest after `k` attempts, the loop ends, for any fuel
  -- above `k`; the daemon then has the identifier of a call that was accepted, and is otherwise what
  -- it was.
  pub register_nymph_lem :
      {k : ℕ} (fuel : ℕ) (n : Nymph N) (w : W)
      → Accepts k w
      → k < fuel
      → Registered n (register_nymph fuel n w)
  unfolding register_nymph register_nymph_once
  register_nymph_lem zero n w a h = absurd (omega arith)
  register_nymph_lem (suc fuel) n w (now _ h p q) less =
      ((N.register_nymph c h w).0, h, w, (N.register_nymph c h w).2, ground arith, p, ground arith)
  register_nymph_lem (suc fuel) n w (later {k = k} _ a) less = elim (once-cases fuel n w) [
    | inl done ↦ done
    | inr (n', (id, same), e) ↦
        let (id', h, u, v, f, p, q) =
          register_nymph_lem {k = k} fuel n' (after w) a (omega arith) in
        (id', h, u, v, ground arith, p, q)
  ]
