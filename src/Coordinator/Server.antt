-- ===== src/Coordinator/Server.antt =====
-- server.go: the methods that the coordinator serves over RPC, each one request to the control loop.
use konk.Base.{
  ℤ, pos, String, ◌≡◌, refl, Bool, true, false, some, ok, err, wrap, Fallible, arith, ◌⊎◌, inl, inr,
  Error, int_eq, eq_self,
}
use konk.Container.Types.{Rank, MigrationType}
use konk.Nymph.Client.{Transport}
use konk.Coordinator.LocationDb.{get, set}
use konk.Coordinator.LocationDb.Laws.{get-set}
use konk.Coordinator.NymphSet.Bits.{BitSet}
use konk.Coordinator.Control.{
  Control, Reply, string_reply, int_reply, no_reply, Outcome, request, request_reply, handle,
  allocate_host_args, register_container_args, unregister_container_args, migrate_args, signal_args,
  register_nymph_args, unregister_nymph_args, register_impl, migrate_impl,
}
use konk.Coordinator.Control.Allocate.{allocate_host_lem}
use konk.Coordinator.Control.Migration.{migrate_impl_lem, moved}

module _ (B : BitSet) (T : Transport) where
  -- What a method leaves, with the value that its caller reads.
  pub record Served {ℓ} (A : Type ℓ) : Type ℓ where
    pub control : Control B
    pub world : T.World
    pub value : A
    pub error : Fallible

  abbrev string_value : Reply → String
  string_value (string_reply s) = s
  string_value no_reply = ""
  string_value (int_reply i) = ""

  abbrev int_value : Reply → ℤ
  int_value (int_reply i) = i
  int_value no_reply = pos 0
  int_value (string_reply s) = pos 0

  -- `*reply` is false after an error and true otherwise.
  abbrev acknowledge : Fallible → Bool
  acknowledge (ok _) = true
  acknowledge (err e) = false

  abbrev served_bool : Outcome B T → Served Bool
  served_bool o = record {
    control = o.control;
    world = o.world;
    value = acknowledge o.error;
    error = o.error;
  }

  unfoldable pub allocate_host_call : Control B → T.World → Rank → String → Served String
  allocate_host_call c w rank hostname =
      let o = request_reply B T c w (allocate_host_args rank) (string_reply hostname) in
      record { control = o.control; world = o.world; value = string_value o.reply; error = o.error }

  unfoldable pub register_container : Control B → T.World → Rank → String → Served Bool
  register_container c w rank hostname =
      served_bool (request B T c w (register_container_args rank hostname))

  unfoldable pub unregister_container : Control B → T.World → Rank → String → Served Bool
  unregister_container c w rank hostname =
      served_bool (request B T c w (unregister_container_args rank hostname))

  unfoldable pub migrate : Control B → T.World → Rank → String → MigrationType → Served Bool
  migrate c w rank dest_host kind = served_bool (request B T c w (migrate_args rank dest_host kind))

  -- The error is also the reply.
  unfoldable pub signal : Control B → T.World → ℤ → Served Fallible
  signal c w s =
      let o = request B T c w (signal_args s) in
      record { control = o.control; world = o.world; value = o.error; error = o.error }

  unfoldable pub register_nymph : Control B → T.World → String → ℤ → Served ℤ
  register_nymph c w hostname old =
      let o = request_reply B T c w (register_nymph_args hostname) (int_reply old) in
      record { control = o.control; world = o.world; value = int_value o.reply; error = o.error }

  unfoldable pub unregister_nymph : Control B → T.World → String → Served Bool
  unregister_nymph c w hostname = served_bool (request B T c w (unregister_nymph_args hostname))

  -- A container that has been registered at a host is allocated that host from then on: the request
  -- that follows gets it, with no error, whatever was registered before.
  pub register_then_allocate :
      (c : Control B) (w u : T.World) (rank : Rank) (hostname old : String)
      → let s = register_container c w rank hostname in
        let a = allocate_host_call s.control u rank old in
        (s.value ≡ true) × (a.value ≡ hostname) × (a.error ≡ ok tt) × (a.control ≡ s.control)
  unfolding register_container allocate_host_call request request_reply handle register_impl
  register_then_allocate c w u rank hostname old = ground (
    arith,
    allocate_host_lem B T
        (record c { location_db = set c.location_db rank (record { hostname = hostname }) }) u rank
        old,
    get-set c.location_db rank rank (record { hostname = hostname }),
    eq_self {A = Rank} rank,
  )

  -- A migration that is no pre-dump is either acknowledged, and the destination is the host that is
  -- allocated to the container from then on; or it returns an error with the reply false, and leaves
  -- the control as it was.
  pub migrate_then_allocate :
      (c : Control B) (w u : T.World) (rank : Rank) (dest old : String) (kind : MigrationType)
      → moved kind ≡ true
      → let m = migrate c w rank dest kind in
        let a = allocate_host_call m.control u rank old in
        ((m.value ≡ true) × (m.error ≡ ok tt) × (a.value ≡ dest) × (a.error ≡ ok tt))
        ⊎ ((e : Error) × (m.value ≡ false) × (m.error ≡ err e) × (m.control ≡ c))
  unfolding migrate allocate_host_call request request_reply handle
  migrate_then_allocate c w u rank dest old kind h =
      let o = migrate_impl B T c w rank dest kind no_reply in
      elim (migrate_impl_lem B T c w rank rank dest kind no_reply) [
        | inl (e, f, g) ↦
            inr (wrap "Request to coordinator control failed: %v" e, rw f refl, rw f refl, g)
        | inr (src, f, _, _, _, _, at) ↦
            let moves : get o.control.location_db rank ≡ some (record { hostname = dest }) =
              ground (arith, eq_self {A = Rank} rank) in
            let answer = (allocate_host_lem B T o.control u rank old).2 in
            inl (rw f refl, rw f refl, ground (arith, answer), ground (arith, answer))
      ]
