-- ===== src/Nymph/Send/Traffic/Rounds.antt =====
-- One checkpoint on its way: what it does to the other end.
use konk.Base.{
  int_eq, ◌≡◌, ◌∙◌, String, Bool, true, false, Option, ok, err, Fallible, arith, Result-cases, not,
  inl, inr,
}
use konk.Container.Types.{Rank, ImageInfoArgs, migration_type_eq}
use konk.Container.Runtime.{Runtime}
use konk.Container.Checkpoint.{Checkpoint, Container, new_checkpoint, image_info, dump}
use konk.Nymph.MigrationClient.{
  MigrationClient, Message, image_info_msg, relaunch_msg, new_migration_client,
}
use konk.Nymph.MigrationClient
use konk.Nymph.MigrationDonor.Traffic.{send_checkpoint-keeps, send_checkpoint-establishes}
use konk.Nymph.MigrationDonor
use konk.Nymph.Send.{
  Remote, Nymph, recipient_at, new_migration_donor, view, request_launch, send_checkpoint,
  checkpoint_and_send,
}
use konk.Nymph.Send.Traffic.{Protocol}

module _ {R : Runtime} (N : Remote R) (root_dir : String) {host : String} {rank : Rank}
    (T : Protocol N host rank) where
  -- What holds after a checkpoint, the last one or not, where `success` says that it was sent.
  abbrev pub Sent : Bool → Type 0 → N.Net → Type 0
  Sent false success w = T.Before w
  Sent true success w = T.After w × (success → T.Runs w)

  failed-Sent :
      (last : Bool) (success : Type 0) (w : N.Net) → ¬ success → T.Before w → Sent last success w
  failed-Sent false success w fails h = h
  failed-Sent true success w fails h = (T.weaken w h, λ yes. absurd (fails yes))

  Sent-map :
      (last : Bool) {success success' : Type 0} (w : N.Net)
      → (success' → success)
      → Sent last success w
      → Sent last success' w
  Sent-map false w f h = h
  Sent-map true w f (h, k) = (h, λ yes. k (f yes))

  relaunch-Sent :
      (m : MigrationClient (recipient_at R N root_dir host))
      → T.Before m.world
      → T.Named m.world
      → let (r, m') = MigrationDonor.relaunch (recipient_at R N root_dir host) m in
        Sent true (r ≡ ok tt) m'.world
  unfolding MigrationDonor.relaunch MigrationClient.relaunch
  relaunch-Sent m b n = elim (Result-cases (N.call host relaunch_msg m.world).0) [
    | inr (x, e) ↦
        rw (e, MigrationDonor.relaunch) (T.launch_After m.world b n, λ yes. absurd (ground arith))
    | inl (seq, e) ↦
        rw (e, MigrationDonor.relaunch)
          (T.launch_After m.world b n, λ _. T.launch_Runs m.world seq b n e)
  ]

  request_launch-Sent :
      (last : Bool) (m : MigrationClient (recipient_at R N root_dir host))
      → T.Before m.world
      → T.Named m.world
      → let (r, w) = request_launch R N root_dir host last m in Sent last (r ≡ ok tt) w
  unfolding request_launch
  request_launch-Sent false m b n = b
  request_launch-Sent true m b n = relaunch-Sent m b n

  -- The call that announces the image, and its answer.
  module _ (info : ImageInfoArgs) (m : MigrationClient (recipient_at R N root_dir host)) where
    image_info-Before :
        T.Before m.world
        → T.Before (MigrationClient.image_info (recipient_at R N root_dir host) info m).1.world
    unfolding MigrationClient.image_info
    image_info-Before h = elim (Result-cases (N.call host (image_info_msg info) m.world).0) [
      | inl (seq, e) ↦ rw (e, MigrationClient.image_info) (T.image_Before info m.world h)
      | inr (x, e) ↦ rw (e, MigrationClient.image_info) (T.image_Before info m.world h)
    ]

    image_info-Named :
        info.rank ≡ rank
        → let (r, m') = MigrationClient.image_info (recipient_at R N root_dir host) info m in
          r ≡ ok tt → T.Named m'.world
    unfolding MigrationClient.image_info
    image_info-Named h = elim (Result-cases (N.call host (image_info_msg info) m.world).0) [
      | inl (seq, e) ↦ rw (e, MigrationClient.image_info) (λ _. T.image_Named info m.world seq h e)
      | inr (x, e) ↦ rw (e, MigrationClient.image_info) (λ yes. absurd (ground arith))
    ]

  new_migration_donor-Before :
      (net : N.Net) → T.Before net → T.Before (new_migration_donor R N root_dir host net).1
  unfolding new_migration_donor
  new_migration_donor-Before net h = elim (Result-cases (N.dial host net).0) [
    | inr (x, e) ↦ rw (e, new_migration_donor) (T.dial_Before net h)
    | inl (_, e) ↦ rw (e, new_migration_donor) (T.dial_Before net h)
  ]

  send_checkpoint-Sent :
      (last : Bool) (c : Container R) (k : Checkpoint) (w : R.World) (net : N.Net)
      → c.rank ≡ rank
      → T.Before net
      → let (r, net') = send_checkpoint R N root_dir c k host last w net in
        Sent last (r ≡ ok tt) net'
  unfolding send_checkpoint new_migration_donor image_info
  send_checkpoint-Sent last c k w net same h =
      let P = recipient_at R N root_dir host in
      let dialled = T.dial_Before net h in
      elim (Result-cases (N.dial host net).0) [
        | inr (x, e) ↦
            rw (e, send_checkpoint)
              (failed-Sent last _ (new_migration_donor R N root_dir host net).1 (λ p. cc)
                (new_migration_donor-Before net h))
        | inl (_, e) ↦
            let m = new_migration_client P (N.dial host net).1 in
            let v = view R N root_dir c k in
            let o = MigrationDonor.send_checkpoint P (N.fs w) root_dir v m in
            let b =
              send_checkpoint-keeps P T.Before T.file_Before (N.fs w) root_dir v m
                (image_info-Before v.info m dialled) in
            elim (Result-cases o.0) [
              | inr (x, f) ↦
                  rw (e, f, send_checkpoint)
                    (failed-Sent last (◌≡◌ {A = Fallible} (err x) (ok tt)) o.1.world (λ p. cc) b)
              | inl (_, f) ↦
                  rw (e, f, send_checkpoint)
                    (request_launch-Sent last o.1 b (
                      send_checkpoint-establishes P T.Named T.file_Named (N.fs w) root_dir v m
                        (image_info-Named v.info m same) f))
            ]
      ]

  -- Making a checkpoint keeps the rank of the container.
  new_checkpoint-rank :
      (parent : Option Checkpoint) (c : Container R) (w : R.World)
      → (new_checkpoint R parent c w).1.rank ≡ c.rank
  unfolding new_checkpoint
  new_checkpoint-rank parent c w = ground arith

  pub checkpoint_and_send-Sent :
      (last : Bool) (parent : Option Checkpoint) (c : Container R) (n : Nymph R N root_dir)
      → c.rank ≡ rank
      → T.Before n.net
      → let (r, c', n') = checkpoint_and_send R N root_dir last parent rank host c n in
        Sent last ((k : Checkpoint) × (r ≡ ok k)) n'.net × (c'.rank ≡ rank)
  unfolding checkpoint_and_send
  checkpoint_and_send-Sent last parent c n same h =
      let (made, c', w₁) = new_checkpoint R parent c n.world in
      let named : c'.rank ≡ rank = new_checkpoint-rank parent c n.world ∙ same in
      elim (Result-cases made) [
        | inr (x, e) ↦
            rw (e, checkpoint_and_send) (failed-Sent last _ n.net (λ (k, p). cc) h, named)
        | inl (k, e) ↦
            let (dumped, w₂) = dump R c' k (not last) w₁ in
            elim (Result-cases dumped) [
              | inr (x, f) ↦
                  rw (e, f, checkpoint_and_send) (failed-Sent last _ n.net (λ (k', p). cc) h, named)
              | inl (_, f) ↦
                  let o = send_checkpoint R N root_dir c' k host last w₂ n.net in
                  let sent = send_checkpoint-Sent last c' k w₂ n.net named h in
                  elim (Result-cases o.0) [
                    | inr (x, g) ↦
                        rw (e, f, g, checkpoint_and_send)
                          (Sent-map last o.1 (λ (k', p). absurd cc) sent, named)
                    | inl (_, g) ↦
                        rw (e, f, g, checkpoint_and_send) (Sent-map last o.1 (λ _. g) sent, named)
                  ]
            ]
      ]
