-- ===== src/Nymph/Migration/Destination.antt =====
-- The destination of a migration as the other end of a donor.
use konk.Base.{
  false, Bool-cases, Option-cases, ℕ, ◌≡◌, ◌≢◌, refl, sym, ◌∙◌, ap, inl, inr, String, List, true,
  Option, none, some, ok, Fallible, string_eq, int_eq, arith, Result-cases,
}
use konk.Base.Dict.{lookup}
use konk.Util.Rpc.{Delivery}
use konk.Container.Types.{launches, Rank, ImageInfoArgs}
use konk.Container.Runtime.{Runtime}
use konk.Container.Checkpoint.{Container}
use konk.Container.Registry.{ContainerRegister}
use konk.Nymph.Client.{SendArgs}
use konk.Nymph.Os.{Os}
use konk.Nymph.MigrationClient.{Message, image_info_msg, relaunch_msg}
use konk.Nymph.MigrationDonor.{DonorFs}
use konk.Nymph.MigrationDonor.Traffic.{carries_file}
use konk.Nymph.Recipient.{image_info}
use konk.Nymph.Relaunch.{Network, relaunch}
use konk.Nymph.Relaunch.Laws.{declared, relaunch_lem}
use konk.Nymph.Send.{Nymph, send}
use konk.Nymph.Send.Traffic.{Protocol}
use konk.Nymph.Transfer.{serve}
use konk.Nymph.Migration.{
  handle, Target, Destination, launch, next_delivery, one_less, call, remote,
}
use konk.Nymph.Send.Traffic.Ended.{Ended, send-Ended}
use konk.Nymph.Migration.Calls.{
  answer, answer-keeps, answer-node, answer-info, deliver-keeps, deliver-answered,
}

module _ (S D : Runtime) (O : Os) (nets : List (Network D)) (root : String)
    (sees : O.Disk → D.World → D.World) (files : S.World → DonorFs) where
  abbrev At : Type 0
  At = Destination S D O nets root sees files

  not_relaunch : (msg : Message) → carries_file msg ≡ true → msg ≢ relaunch_msg
  not_relaunch msg f p = ground arith

  abbrev next : At → At
  next = one_less S D O nets root sees files

  abbrev first : At → Delivery
  first w = next_delivery S D O nets root sees files w.node.deliveries

  module _ (rank q : Rank) (ne : q ≢ rank) (reg : ContainerRegister D) where
    -- Nothing has been launched here yet.
    abbrev Untouched : At → Type 0
    Untouched w = w.node.register ≡ reg

    abbrev Named : At → Type 0
    Named w = w.recipient.info.rank ≡ rank

    -- Unless the process has ended, and its register with it.
    abbrev Spared : At → Type 0
    Spared w = w.node.running ≡ true → lookup q w.node.register.reg ≡ lookup q reg.reg

    -- The process runs, and the container of the rank is here, where there was none, with the devices that the drivers
    -- declare for it and a terminal.
    abbrev pub Runs : At → Type 0
    Runs w =
        (cont : Container D) × (w.node.running ≡ true)
        × (lookup rank reg.reg ≡ none)
        × (lookup rank w.node.register.reg ≡ some cont)
        × (cont.external ≡ declared D nets rank)
        × (cont.tty ≡ true)

    -- What the handler leaves is what `relaunch` leaves.
    abbrev relaunched : At → Option Fallible × ContainerRegister D × D.World
    relaunched w = relaunch D nets w.recipient.info w.node.register (sees w.disk w.node.world)

    launch-relaunch :
        (w : At)
        → let (r, w') = launch S D O nets root sees files w in
          (w'.node.register ≡ (relaunched w).1)
          × ((seq : ℕ)
              → r ≡ ok seq
              → ((relaunched w).0 ≡ some (ok tt)) × (w'.node.running ≡ w.node.running))
    unfolding launch
    launch-relaunch w = elim (Option-cases (relaunched w).0) [
      | inl e ↦ rw (e, launch) (refl, λ seq p. absurd cc)
      | inr (s, f) ↦ elim (Result-cases s) [
        | inl (_, e) ↦ rw (f, e, launch) (refl, λ seq p. (refl, refl))
        | inr (x, e) ↦ rw (f, e, launch) (refl, λ seq p. absurd cc)
      ]
    ]

    -- The cases of `relaunch_lem` for a rank that is named.
    launch-cases :
        (w : At)
        → Untouched w
        → Named w
        → w.node.running ≡ true
        → let (r, w') = launch S D O nets root sees files w in
          Spared w' × ((seq : ℕ) → r ≡ ok seq → Runs w')
    launch-cases w h n alive =
        let (same, fine) = launch-relaunch w in
        let away : q ≢ w.recipient.info.rank = λ p. ne (p ∙ n) in
        let w' = (launch S D O nets root sees files w).1 in
        let reg' = w'.node.register in
        elim (relaunch_lem D nets w.recipient.info q w.node.register (sees w.disk w.node.world)
          away) [
            | inl (x, failed, kept) ↦ (
              λ _. ap (λ (c : ContainerRegister D). lookup q c.reg) (same ∙ kept ∙ h),
              λ seq p. absurd (ground (arith, (fine seq p).0)),
            )
            | inr (cont, free, here, others, external, ended) ↦ (
              λ _.
                  ap (λ (c : ContainerRegister D). lookup q c.reg) same
                  ∙ others
                  ∙ ap (λ (c : ContainerRegister D). lookup q c.reg) h,
              λ seq p. (
                cont,
                (fine seq p).1 ∙ alive,
                ap (λ (k : Rank). lookup k reg.reg) (sym n)
                    ∙ ap (λ (c : ContainerRegister D). lookup w.recipient.info.rank c.reg) (sym h)
                    ∙ free,
                ap (λ (c : ContainerRegister D). lookup rank c.reg) same
                    ∙ ap (λ (k : Rank). lookup k (relaunched w).1.reg) (sym n)
                    ∙ here,
                external ∙ ap (declared D nets) n,
                elim ended [ inl failed ↦ absurd (failed (fine seq p).0) | inr tty ↦ tty ],
              ),
            )
          ]

    -- The same of the call, which only a process that runs answers.
    answer-cases :
        (w : At)
        → Untouched w
        → Named w
        → let (r, w') = answer S D O nets root sees files relaunch_msg w in
          Spared w' × ((seq : ℕ) → r ≡ ok seq → Runs w')
    unfolding serve
    answer-cases w h n = elim (Bool-cases w.node.running) [
      | inl e ↦ rw (e, handle) (launch-cases w h n e)
      | inr e ↦
          rw (e, handle)
            ((λ _. ap (λ (c : ContainerRegister D). lookup q c.reg) h), λ seq p. absurd cc)
    ]

    -- The destination as the other end of a donor.
    unfoldable protocol :
        (dest host : String) → Protocol (remote S D O nets root sees files dest) host rank
    unfolding call serve image_info
    protocol dest host = record {
      Before = Untouched;
      Named = Named;
      After = Spared;
      Runs = Runs;
      weaken = λ w h _. ap (λ (c : ContainerRegister D). lookup q c.reg) h;
      dial_Before = λ w h. h;
      file_Before = λ msg w f h.
          deliver-keeps S D O nets root sees files Untouched (first w) msg (next w) h (
            ap (λ (n : Target D). n.register)
              (answer-node S D O nets root sees files msg (next w) (not_relaunch msg f))
            ∙ h);
      file_Named = λ msg w f h.
          deliver-keeps S D O nets root sees files Named (first w) msg (next w) h (
            ap (λ (i : ImageInfoArgs). i.rank)
              (answer-info S D O nets root sees files msg (next w) f)
            ∙ h);
      image_Before = λ info w h.
          deliver-keeps S D O nets root sees files Untouched (first w) (image_info_msg info)
            (next w) h
            (ap (λ (n : Target D). n.register)
                (answer-node S D O nets root sees files (image_info_msg info) (next w) (λ p. cc))
              ∙ h);
      image_Named = λ info w seq n e.
          deliver-answered S D O nets root sees files Named (first w) (image_info_msg info) (next w)
            seq e
            (answer-keeps S D O nets root sees files (λ r. r.0 ≡ ok seq → Named r.1)
              (image_info_msg info) (next w) (λ _. n) (λ p. absurd cc));
      launch_After = λ w h n.
          deliver-keeps S D O nets root sees files Spared (first w) relaunch_msg (next w)
            (λ _. ap (λ (c : ContainerRegister D). lookup q c.reg) h) (answer-cases (next w) h n).0;
      launch_Runs = λ w seq h n e.
          deliver-answered S D O nets root sees files Runs (first w) relaunch_msg (next w) seq e
            ((answer-cases (next w) h n).1 seq);
    }

  module _ (dest here : String) (args : SendArgs) (q : Rank) (ne : q ≢ args.container_rank) where
    -- What holds at the destination when a call of `send` has ended, where its register was `reg`.
    abbrev pub Settled :
        ContainerRegister D
        → Option (Fallible × Nymph S (remote S D O nets root sees files dest) here)
        → Type 0
    Settled reg none = Unit
    Settled reg (some (r, n')) =
        Spared args.container_rank q ne reg n'.net
        × (launches args.migration_type ≡ false → Untouched args.container_rank q ne reg n'.net)
        × (launches args.migration_type ≡ true
            → r ≡ ok tt
            → Runs args.container_rank q ne reg n'.net)

    Ended-Settled :
        (reg : ContainerRegister D)
        (o : Option (Fallible × Nymph S (remote S D O nets root sees files dest) here))
        → Ended
            (remote S D O nets root sees files dest)
            here
            args
            (protocol args.container_rank q ne reg dest args.host)
            o
        → Settled reg o
    unfolding protocol
    Ended-Settled reg none h = tt
    Ended-Settled reg (some (r, n')) h = h

    pub send-Settled :
        (c : Container S) (n : Nymph S (remote S D O nets root sees files dest) here)
        → lookup args.container_rank n.containers.reg ≡ some c
        → c.rank ≡ args.container_rank
        → Settled n.net.node.register (send S (remote S D O nets root sees files dest) here args n)
    unfolding protocol
    send-Settled c n e same =
        let N = remote S D O nets root sees files dest in
        let P = protocol args.container_rank q ne n.net.node.register dest args.host in
        Ended-Settled n.net.node.register (send S N here args n)
          (send-Ended N here args P c n e same refl)
