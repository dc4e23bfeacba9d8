-- ===== src/Nymph/Send/Laws.antt =====
-- What sending a container leaves behind on the node that sends it.
use konk.Base.{
  subst, ◌≡◌, ◌≢◌, refl, sym, ◌∙◌, ap, ◌⊎◌, inl, inr, String, Bool, true, false, Option, none, some,
  Result, ok, err, Error, Fallible, ◌==◌, ◌||◌, arith, Result-cases, Bool-cases, int_eq, eq_self,
  eq_of_ne,
}
use konk.Base.Dict.{lookup, lookup-insert, NodupKeys, insert-NodupKeys}
use konk.Container.Types.{
  launches, above, below, Rank, MigrationType, migrate, pre_dump, with_pre_dump, migration_type_eq,
}
use konk.Container.Runtime.{Runtime}
use konk.Container.Checkpoint.{Checkpoint, Container}
use konk.Container.Registry.{ContainerRegister, get_unlocked, put, delete_unlocked}
use konk.Container.Registry.Laws.{delete_unlocked_lem}
use konk.Nymph.Client.{SendArgs}
use konk.Nymph.Send.{Remote, Nymph, checkpoint_and_send, send_first, send_last, send}
use konk.Nymph.Send.Round.{Launched, Made, checkpoint_and_send-Made}

-- The test for the last checkpoint.
pub last_test : (k : MigrationType) → ((k == migrate) || (k == with_pre_dump)) ≡ launches k
unfolding migration_type_eq
last_test migrate = refl
last_test pre_dump = refl
last_test with_pre_dump = refl
last_test (above n) = refl
last_test (below n) = refl

module _ (R : Runtime) (N : Remote R) (root_dir : String) where
  put-lookup :
      (rank q : Rank) (c : Container R) (reg : ContainerRegister R)
      → q ≢ rank
      → (lookup rank (put R rank c reg).reg ≡ some c)
        × (lookup q (put R rank c reg).reg ≡ lookup q reg.reg)
        × (NodupKeys reg.reg → NodupKeys (put R rank c reg).reg)
  unfolding put
  put-lookup rank q c reg ne = (
    ground (arith, lookup-insert rank rank c reg.reg),
    ground (arith, lookup-insert q rank c reg.reg),
    insert-NodupKeys rank c reg.reg,
  )

  module _ (args : SendArgs) (q : Rank) (ne : q ≢ args.container_rank) where
    -- What a call leaves: no panic; another container is registered as it was; after an error the
    -- container is still registered; after a success of a kind that launches nothing too; after any other
    -- success it is not, and the recipient has launched it.
    abbrev pub Left : Nymph R N root_dir → Option (Fallible × Nymph R N root_dir) → Type 0
    Left n none = ⊥
    Left n (some (r, n')) =
        (lookup q n'.containers.reg ≡ lookup q n.containers.reg)
        × (((e : Error) × (r ≡ err e) × (lookup args.container_rank n'.containers.reg ≢ none))
            ⊎ ((r ≡ ok tt)
                × (launches args.migration_type ≡ false)
                × (lookup args.container_rank n'.containers.reg ≢ none))
            ⊎ ((r ≡ ok tt)
                × (launches args.migration_type ≡ true)
                × (lookup args.container_rank n'.containers.reg ≡ none)
                × Launched R N root_dir args.host n'.net))

    abbrev Held : Nymph R N root_dir → Container R → Nymph R N root_dir → Type 0
    Held n c' n' =
        (lookup args.container_rank n'.containers.reg ≡ some c')
        × (lookup q n'.containers.reg ≡ lookup q n.containers.reg)
        × NodupKeys n'.containers.reg

    Made-Held :
        (last : Bool) (dest : String) (n n' : Nymph R N root_dir) (c' : Container R)
        (r : Result Checkpoint)
        → NodupKeys n.containers.reg
        → Made R N root_dir last args.container_rank dest n (r, c', n')
        → Held n c' n'
    Made-Held last dest n n' c' r u m =
        let (here, away, nodup) = put-lookup args.container_rank q c' n.containers ne in
        let same : n'.containers.reg ≡ (put R args.container_rank c' n.containers).reg =
          ap (λ (x : ContainerRegister R). x.reg) m.0 in
        (
          ap (lookup args.container_rank) same ∙ here,
          ap (lookup q) same ∙ away,
          subst NodupKeys (sym same) (nodup u),
        )

    send_first-Held :
        (c : Container R) (n : Nymph R N root_dir)
        → Held n c n
        → let (_, c', n') = send_first R N root_dir args c n in Held n c' n'
    unfolding send_first
    send_first-Held c n h =
        let (r, c', n') =
          checkpoint_and_send R N root_dir false none args.container_rank args.host c n in
        let made =
          Made-Held false args.host n n' c' r h.2
            (checkpoint_and_send-Made R N root_dir false none args.container_rank args.host c n) in
        elim (Bool-cases
          ((args.migration_type == pre_dump) || (args.migration_type == with_pre_dump))) [
            | inr e ↦ rw (e, send_first) h
            | inl e ↦ elim (Result-cases r) [
              | inl (k, f) ↦ rw (e, f, send_first) made
              | inr (x, f) ↦ rw (e, f, send_first) made
            ]
          ]

    some_ne_none : {A : Type 0} {a : A} {o : Option A} → o ≡ some a → o ≢ none
    some_ne_none e f = cc

    -- Deleting a container that is registered.
    delete-Held :
        (c' : Container R) (n n' : Nymph R N root_dir)
        → Held n c' n'
        → (cs : ContainerRegister R) × (w : R.World) × (delete_unlocked R args.container_rank
              n'.containers n'.world
            ≡ some (cs, w))
          × (lookup args.container_rank cs.reg ≡ none)
          × (lookup q cs.reg ≡ lookup q n.containers.reg)
    delete-Held c' n n' h =
        elim (delete_unlocked_lem R args.container_rank args.container_rank n'.containers n'.world
          h.2) [
            | inl (missing, _) ↦ absurd (some_ne_none h.0 missing)
            | inr (cs, w, e, gone) ↦
                elim (delete_unlocked_lem R args.container_rank q n'.containers n'.world h.2) [
                  | inl (missing, _) ↦ absurd (some_ne_none h.0 missing)
                  | inr (cs', w', e', away) ↦ (
                    cs,
                    w,
                    e,
                    ground (arith, gone, eq_self {A = Rank} args.container_rank),
                    ground (arith, e, e', away, h.1, eq_of_ne {A = Rank} ne),
                  )
                ]
          ]

    send_last-Left :
        (parent : Option Checkpoint) (c : Container R) (n₀ n : Nymph R N root_dir)
        → Held n₀ c n
        → Left n₀ (send_last R N root_dir args parent c n)
    unfolding send_last
    send_last-Left parent c n₀ n h = elim (Bool-cases (launches args.migration_type)) [
      | inr p ↦
          rw (last_test args.migration_type, p, send_last)
            (h.1, inr (inl (refl, p, some_ne_none h.0)))
      | inl p ↦
          let e = last_test args.migration_type ∙ p in
          let o = checkpoint_and_send R N root_dir true parent args.container_rank args.host c n in
          let (r, c', n') = o in
          let m =
            checkpoint_and_send-Made R N root_dir true parent args.container_rank args.host c n in
          let (here, away, nodup) = Made-Held true args.host n n' c' r h.2 m in
          elim m.1 [
            | inl (x, f) ↦ rw (e, f, send_last) (away ∙ h.1, inl (x, refl, some_ne_none here))
            | inr (k, f, inl never) ↦ cc
            | inr (k, f, inr l) ↦
                let (cs, w, deleted, gone, others) = delete-Held c' n n' (here, away, nodup) in
                rw (e, f, deleted, send_last) (others ∙ h.1, inr (inr (refl, p, gone, l)))
          ]
    ]

    -- In a register that lists no rank twice, sending a registered container never panics, and
    -- leaves every other container as it was. After an error the container is still registered
    -- here; after a pre-dump as well, and after a value that is none of the constants, for which nothing
    -- is done; after any other migration it is not, and the last call had the recipient at the
    -- destination launch it.
    pub send_lem :
        (c : Container R) (n : Nymph R N root_dir)
        → lookup args.container_rank n.containers.reg ≡ some c
        → NodupKeys n.containers.reg
        → Left n (send R N root_dir args n)
    unfolding send get_unlocked
    send_lem c n e u =
        let first = send_first R N root_dir args c n in
        let h = send_first-Held c n (e, refl, u) in
        elim (Result-cases first.0) [
          | inl (parent, f) ↦ rw (e, f, send) (send_last-Left parent first.1 n first.2 h)
          | inr (x, f) ↦ rw (e, f, send) (h.1, inl (x, refl, some_ne_none h.0))
        ]
