-- ===== src/Nymph/Send/Traffic/Ended.antt =====
-- What holds of the other end when the call has ended.
use konk.Base.{
  int_eq, ◌≡◌, String, true, false, Option, none, some, ok, Fallible, Result-cases, Bool-cases,
  Option-cases, inl, inr, ◌==◌, ◌||◌,
}
use konk.Container.Types.{launches, pre_dump, with_pre_dump, migration_type_eq}
use konk.Container.Runtime.{Runtime}
use konk.Container.Checkpoint.{Checkpoint, Container}
use konk.Container.Registry.{get_unlocked, delete_unlocked}
use konk.Nymph.Client.{SendArgs}
use konk.Base.Dict.{lookup}
use konk.Nymph.Send.Laws.{last_test}
use konk.Nymph.Send.{Remote, Nymph, checkpoint_and_send, send_first, send_last, send}
use konk.Nymph.Send.Traffic.{Protocol}
use konk.Nymph.Send.Traffic.Rounds.{checkpoint_and_send-Sent}

-- A call of `send`.
module _ {R : Runtime} (N : Remote R) (root_dir : String) (args : SendArgs)
    (T : Protocol N args.host args.container_rank) where
  -- The container and the other end after the checkpoint that comes first, if any.
  send_first-Before :
      (c : Container R) (n : Nymph R N root_dir)
      → c.rank ≡ args.container_rank
      → T.Before n.net
      → let (r, c', n') = send_first R N root_dir args c n in
        T.Before n'.net × (c'.rank ≡ args.container_rank)
  unfolding send_first
  send_first-Before c n same h =
      let o = checkpoint_and_send R N root_dir false none args.container_rank args.host c n in
      let sent = checkpoint_and_send-Sent N root_dir T false none c n same h in
      elim (Bool-cases
        ((args.migration_type == pre_dump) || (args.migration_type == with_pre_dump))) [
          | inr e ↦ rw (e, send_first) (h, same)
          | inl e ↦ elim (Result-cases o.0) [
            | inl (k, f) ↦ rw (e, f, send_first) sent
            | inr (x, f) ↦ rw (e, f, send_first) sent
          ]
        ]

  -- What holds when the call has ended; nothing after a panic.
  abbrev pub Ended : Option (Fallible × Nymph R N root_dir) → Type 0
  Ended none = Unit
  Ended (some (r, n')) =
      T.After n'.net
      × (launches args.migration_type ≡ false → T.Before n'.net)
      × (launches args.migration_type ≡ true → r ≡ ok tt → T.Runs n'.net)

  send_last-Ended :
      (parent : Option Checkpoint) (c : Container R) (n : Nymph R N root_dir)
      → c.rank ≡ args.container_rank
      → T.Before n.net
      → Ended (send_last R N root_dir args parent c n)
  unfolding send_last
  send_last-Ended parent c n same h =
      let o = checkpoint_and_send R N root_dir true parent args.container_rank args.host c n in
      let (after, _) = checkpoint_and_send-Sent N root_dir T true parent c n same h in
      let e = last_test args.migration_type in
      elim (Bool-cases (launches args.migration_type)) [
        | inr p ↦ rw (e, p, send_last) (T.weaken n.net h, (λ _. h), λ yes. absurd cc)
        | inl p ↦ elim (Result-cases o.0) [
          | inr (x, f) ↦ rw (e, p, f, send_last) (after.0, (λ no. absurd cc), λ _ yes. absurd cc)
          | inl (k, f) ↦
              elim (Option-cases (delete_unlocked R args.container_rank o.2.containers o.2.world)) [
                | inl g ↦ rw (e, p, f, g, send_last) tt
                | inr (d, g) ↦
                    rw (e, p, f, g, send_last) (after.0, (λ no. absurd cc), λ _ _. after.1 (k, f))
              ]
        ]
      ]

  pub send-Ended :
      (c : Container R) (n : Nymph R N root_dir)
      → lookup args.container_rank n.containers.reg ≡ some c
      → c.rank ≡ args.container_rank
      → T.Before n.net
      → Ended (send R N root_dir args n)
  unfolding send get_unlocked
  send-Ended c n e same h =
      let first = send_first R N root_dir args c n in
      let (before, named) = send_first-Before c n same h in
      elim (Result-cases first.0) [
        | inl (parent, f) ↦ rw (e, f, send) (send_last-Ended parent first.1 first.2 named before)
        | inr (x, f) ↦
            rw (e, f, send) (T.weaken first.2.net before, (λ _. before), λ _ yes. absurd cc)
      ]
