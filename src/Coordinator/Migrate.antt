-- ===== src/Coordinator/Migrate.antt =====
-- migrate.go: the calls that the coordinator makes on nymphs.
use konk.Base.{ℤ, String, true, false, ok, err, errorf, wrap, wrap_err, Fallible, ◌==◌, string_eq}
use konk.Container.Types.{Rank, MigrationType}
use konk.Nymph.Client.{Transport, Client, new_client}
use konk.Nymph.Client

module _ (T : Transport) where
  -- Closing the connection, which the code defers, changes no state here.
  unfoldable pub migrate : Rank → String → String → MigrationType → T.World → Fallible × T.World
  migrate rank src_host dest_host kind w = elim (src_host == dest_host) [
    | true ↦ (err (errorf "The container is already at the destination"), w)
    | false ↦
        let (r, w₁) = new_client T src_host w in
        elim r [
          | err e ↦ (err (wrap "Failed to reach nymph: %v" e), w₁)
          | ok donor_client ↦
              let (sent, w₂) = Client.send T donor_client rank dest_host kind w₁ in
              (wrap_err "Container did not migrate: %v" sent, w₂)
        ]
  ]

  unfoldable pub signal : Rank → String → ℤ → T.World → Fallible × T.World
  signal rank host s w =
      let (r, w₁) = new_client T host w in
      elim r [
        | err e ↦ (err (wrap "Failed to connect to the nymph %v: %v" e), w₁)
        | ok client ↦
            let (sent, w₂) = Client.signal T client rank s w₁ in
            (wrap_err "Sending signal to the coordinator failed: %v" sent, w₂)
      ]
