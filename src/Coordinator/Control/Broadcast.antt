-- ===== src/Coordinator/Control/Broadcast.antt =====
-- A signal to all containers: which calls it makes, and what its error says of them.
use konk.Base.{ℤ, ◌≡◌, List, [], ◌∷◌, arith, ok, err, Fallible, Result-cases, inl, inr, ◌↔◌}
use konk.Base.Dict.{Dict}
use konk.Container.Types.{Rank}
use konk.Nymph.Client.{Transport}
use konk.Coordinator.LocationDb.{Location}
use konk.Coordinator.NymphSet.Bits.{BitSet}
use konk.Coordinator.Migrate
use konk.Coordinator.Control.{Control, Reply, signal_loop, signal_impl}

abbrev pub AllOk : List Fallible → Type 0
AllOk [] = Unit {0}
AllOk (r ∷ rs) = (r ≡ ok tt) × AllOk rs

module _ (T : Transport) where
  -- One call for each record, in order, whatever the calls before it returned: their results, and
  -- the world in the end.
  abbrev pub calls : ℤ → Dict Rank Location → T.World → List Fallible × T.World
  calls s [] w = ([], w)
  calls s ((rank, loc) ∷ db) w =
      let (r, v) = Migrate.signal T rank loc.hostname s w in
      let (rs, u) = calls s db v in (r ∷ rs, u)

module _ (B : BitSet) (T : Transport) where
  signal_loop_lem :
      (s : ℤ) (db : Dict Rank Location) (any_err : Fallible) (w : T.World)
      → let (e, u) = signal_loop B T db s any_err w in
        (u ≡ (calls T s db w).1) × (e ≡ ok tt ↔ (any_err ≡ ok tt × AllOk (calls T s db w).0))
  unfolding signal_loop
  signal_loop_lem s [] any_err w = ground arith
  signal_loop_lem s ((rank, loc) ∷ db) any_err w =
      elim (Result-cases (Migrate.signal T rank loc.hostname s w).0) [
        | inl (_, f) ↦ rw f (
            ground (arith, signal_loop_lem s db any_err (Migrate.signal T rank loc.hostname s w).1))
        | inr (x, f) ↦ rw f (
            ground (arith, signal_loop_lem s db (err x) (Migrate.signal T rank loc.hostname s w).1))
      ]

  -- A broadcast calls the nymph of every registered container once, also after calls that failed;
  -- it returns no error exactly when every call succeeded, and it leaves the control as it was.
  pub signal_impl_lem :
      (c : Control B) (w : T.World) (s : ℤ) (reply : Reply)
      → let o = signal_impl B T c w s reply in
        (o.control ≡ c)
        × (o.world ≡ (calls T s c.location_db.db w).1)
        × (o.error ≡ ok tt ↔ AllOk (calls T s c.location_db.db w).0)
  unfolding signal_impl
  signal_impl_lem c w s reply = ground (arith, signal_loop_lem s c.location_db.db (ok tt) w)
