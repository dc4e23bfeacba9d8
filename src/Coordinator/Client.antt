-- ===== src/Coordinator/Client.antt =====
-- pkg/coordinator/client.go: the client of the coordinator, connected to the server of server.go.
use konk.Base.{
  ℤ, pos, String, ◌≡◌, refl, ap, Bool, true, false, some, ok, err, wrap, Result, Error, Fallible,
  arith, ◌⊎◌, inl, inr, int_eq, eq_self,
}
use konk.Util.Rpc.{Delivery, delivered, refused, lost}
use konk.Container.Types.{Rank, MigrationType}
use konk.Nymph.Client.{Transport}
use konk.Coordinator.LocationDb.{get}
use konk.Coordinator.NymphSet.Bits.{BitSet}
use konk.Coordinator.Control.{Control, no_reply, request, handle}
use konk.Coordinator.Control.Migration.{moved, migrate_impl_lem}
use konk.Coordinator.Server
use konk.Coordinator.Server.{Served, migrate_then_allocate, register_then_allocate}

module _ (B : BitSet) (T : Transport) where
  -- `rpc.Client.Call`: the reply keeps the zero value unless the server answers without an error.
  abbrev answer {ℓ} : {A : Type ℓ} → A → Served B T A → Fallible → Served B T A
  answer zero s (ok _) = s
  answer zero s (err e) = record s { value = zero; error = err e }

  unfoldable pub call {ℓ} :
      {A : Type ℓ} → Delivery → A → Control B → T.World → Served B T A → Served B T A
  call delivered zero c w s = answer zero s s.error
  call (refused e) zero c w s = record { control = c; world = w; value = zero; error = err e }
  call (lost e) zero c w s = record s { value = zero; error = err e }

  module _ (d : Delivery) (c : Control B) (w : T.World) where
    unfoldable pub allocate_host : Rank → Served B T String
    allocate_host rank = call d "" c w (Server.allocate_host_call B T c w rank "")

    unfoldable pub register_container : Rank → String → Served B T Bool
    register_container rank hostname =
        call d false c w (Server.register_container B T c w rank hostname)

    -- The container is looked for at the host that the caller runs on.
    unfoldable pub unregister_container : Result String → Rank → Served B T Bool
    unregister_container (err e) rank = record {
      control = c;
      world = w;
      value = false;
      error = err (wrap "Failed to get hostname: %v" e);
    }
    unregister_container (ok hostname) rank =
        call d false c w (Server.unregister_container B T c w rank hostname)

    unfoldable pub migrate : Rank → String → MigrationType → Served B T Bool
    migrate rank dest_host kind = call d false c w (Server.migrate B T c w rank dest_host kind)

    unfoldable pub signal : ℤ → Served B T Fallible
    signal s = call d (ok tt) c w (Server.signal B T c w s)

    unfoldable pub register_nymph : String → Served B T ℤ
    register_nymph hostname = call d (pos 0) c w (Server.register_nymph B T c w hostname (pos 0))

    unfoldable pub unregister_nymph : String → Served B T Bool
    unregister_nymph hostname = call d false c w (Server.unregister_nymph B T c w hostname)

  -- Where the coordinator has a container after a call that may have failed: where it was, or at the
  -- host that the call asks for.
  abbrev pub WasOrIsAt : Control B → Control B → Rank → String → Type 0
  WasOrIsAt c c' rank host =
      (get c'.location_db rank ≡ get c.location_db rank)
      ⊎ (get c'.location_db rank ≡ some (record { hostname = host }))

  -- What the server's answer says of the database, whether it reaches the client or not.
  served-WasOrIsAt :
      (c : Control B) (w : T.World) (rank : Rank) (dest : String) (kind : MigrationType)
      → moved kind ≡ true
      → WasOrIsAt c (Server.migrate B T c w rank dest kind).control rank dest
  unfolding Server.migrate request handle
  served-WasOrIsAt c w rank dest kind h =
      elim (migrate_impl_lem B T c w rank rank dest kind no_reply) [
        | inl (e, f, g) ↦ inl (ap (λ (x : Control B). get x.location_db rank) g)
        | inr (src, f, _, _, _, _, at) ↦ inr (ground (arith, eq_self {A = Rank} rank))
      ]

  -- A client that moves a container, with a migration that is no pre-dump, and the next request that the
  -- coordinator handles after it, which asks for the container's host. If the migration returns no
  -- error, the answer is the destination, with no error; if it returns one, also one of the connection,
  -- the coordinator has the container where it was, or at the destination.
  pub migrate_lem :
      (d : Delivery) (c : Control B) (w u : T.World) (rank : Rank) (dest : String)
      (kind : MigrationType)
      → moved kind ≡ true
      → let m = migrate d c w rank dest kind in
        let a = allocate_host delivered m.control u rank in
        ((m.error ≡ ok tt) × (a.value ≡ dest) × (a.error ≡ ok tt))
        ⊎ ((e : Error) × (m.error ≡ err e) × WasOrIsAt c m.control rank dest)
  unfolding migrate allocate_host call
  migrate_lem (refused e) c w u rank dest kind h = inr (e, refl, inl refl)
  migrate_lem (lost e) c w u rank dest kind h = inr (e, refl, served-WasOrIsAt c w rank dest kind h)
  migrate_lem delivered c w u rank dest kind h =
      elim (migrate_then_allocate B T c w u rank dest "" kind h) [
        | inl (v, f, a, g) ↦ inl (ground arith, ground arith, ground arith)
        | inr (e, v, f, same) ↦ inr (e, ground arith, inl (ground arith))
      ]
