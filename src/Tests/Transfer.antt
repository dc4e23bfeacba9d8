-- ===== src/Tests/Transfer.antt =====
-- A checkpoint of two image files on its way between two nodes in memory.
use konk.Base.{
  ℕ, ◌≡◌, ◌≢◌, refl, String, false, some, none, List, [], ◌∷◌, Result, ok, err, errorf, wrap, ◌==◌,
  string_eq, pos, arith, eq_of, ap,
}
use mathlib.Core.List.{append-nil}
use konk.Base.Dict.{lookup}
use konk.Nymph.MigrationClient.{Peer, MigrationClient}
use konk.Nymph.Recipient.{new_recipient}
use konk.Nymph.MigrationDonor.{DonorFs, CheckpointView, send_checkpoint, send_file}
use konk.Nymph.Transfer.{Receiving}
use konk.Nymph.Transfer.File.{P, contents, Progress}
use konk.Nymph.Transfer.Regular.{Holds}
use konk.Nymph.Transfer.Delivery.{
  Entries, names, AllHeld, Apart, Spares, send_checkpoint_arrives, send_checkpoint_others,
}
use konk.Nymph.Transfer.EmptyFile.{empty_file_blocks}
use konk.Tests.Nodes.{Files, memory_os, memory_os-IsReliable, memory_fs, stat_of, whole}

abbrev launch : Receiving memory_os Unit → Result ℕ × Receiving memory_os Unit
launch w = (ok 0, w)

abbrev Client : Type 0
Client = MigrationClient (P memory_os memory_os-IsReliable Unit launch "r")

-- A client that has just connected. The other node has a file of its own.
abbrev connected : Client
connected = record {
  seq = 0;
  world = record {
    recipient = new_recipient memory_os;
    disk = ("r/other", 5 ∷ []) ∷ [];
    node = tt;
  };
}

abbrev entries : Entries
entries = ("core.img", 1 ∷ 2 ∷ []) ∷ ("pages.img", 3 ∷ []) ∷ []

abbrev donor_files : Files
donor_files =
    ("d/c/state.json", 9 ∷ [])
    ∷ ("d/k/core.img", 1 ∷ 2 ∷ [])
    ∷ ("d/k/pages.img", 3 ∷ [])
    ∷ ("d/k/empty", [])
    ∷ []

abbrev donor_fs : DonorFs
donor_fs = memory_fs donor_files (names entries)

abbrev view : CheckpointView
view = record {
  info = record { rank = pos 0; id = "id"; args = []; generation = pos 0; parent = pos 0 };
  state_path = "c/state.json";
  path = "k";
  path_abs = "d/k";
}

string_ne : (s t : String) → (s == t) ≡ false → s ≢ t
string_ne s t e p = ground (arith, eq_of p)

cons_ne : {x : ℕ} {xs : List ℕ} → ◌≢◌ {A = List ℕ} (x ∷ xs) []
cons_ne p = cc

-- A file of the donor is read whole.
held :
    (path : String) (data' : List ℕ)
    → lookup path donor_files ≡ some data'
    → Holds donor_fs path data'
held path data' e = record {
  stat = stat_of data';
  reads = whole data';
  stated = ground (arith, e);
  regular = refl;
  sized = refl;
  opens = ground (arith, e);
  complete = read_whole data';
  progress = reads_progress data';
}
  where
    read_whole : (bs : List ℕ) → contents (whole bs) ≡ some bs
    read_whole [] = refl
    read_whole (b ∷ bs) = ap (λ (xs : List ℕ). some (b ∷ xs)) (append-nil bs)

    reads_progress : (bs : List ℕ) → Progress (whole bs)
    reads_progress [] = tt
    reads_progress (b ∷ bs) = (omega arith, tt)

entries-AllHeld : AllHeld memory_os memory_os-IsReliable Unit launch "r" donor_fs "d" "k" entries
unfolding string_eq
entries-AllHeld = (
  held "d/k/core.img" (1 ∷ 2 ∷ []) refl,
  cons_ne,
  (held "d/k/pages.img" (3 ∷ []) refl, cons_ne, tt),
)

entries-Apart : Apart memory_os memory_os-IsReliable Unit launch "r" donor_fs "d" "k" entries
unfolding string_eq
entries-Apart = ((string_ne "r/k/core.img" "r/k/pages.img" refl, tt), (tt, tt))

entries-Spares :
    (path : String)
    → (path == "r/k/core.img") ≡ false
    → (path == "r/k/pages.img") ≡ false
    → Spares memory_os memory_os-IsReliable Unit launch "r" donor_fs "d" "k" path entries
entries-Spares path e f = (string_ne path "r/k/core.img" e, (string_ne path "r/k/pages.img" f, tt))

abbrev Q : Peer
Q = P memory_os memory_os-IsReliable Unit launch "r"

send_checkpoint_arrives_example :
    let (r, m) = send_checkpoint Q donor_fs "d" view connected in
    (r ≡ ok tt)
    × (m.world.recipient.file ≡ none)
    × (lookup "r/c/state.json" m.world.disk ≡ some (9 ∷ []))
    × ((lookup "r/k/core.img" m.world.disk ≡ some (1 ∷ 2 ∷ []))
        × ((lookup "r/k/pages.img" m.world.disk ≡ some (3 ∷ [])) × Unit {0}))
unfolding string_eq
send_checkpoint_arrives_example =
    send_checkpoint_arrives memory_os memory_os-IsReliable Unit launch "r" donor_fs "d" view
      (9 ∷ []) entries connected refl (held "d/c/state.json" (9 ∷ []) refl) cons_ne refl refl
      entries-AllHeld entries-Apart (entries-Spares "r/c/state.json" refl refl)

send_checkpoint_others_example :
    lookup "r/other" (send_checkpoint Q donor_fs "d" view connected).1.world.disk ≡ some (5 ∷ [])
unfolding string_eq
send_checkpoint_others_example =
    send_checkpoint_others memory_os memory_os-IsReliable Unit launch "r" donor_fs "d" view (9 ∷ [])
      entries connected refl (held "d/c/state.json" (9 ∷ []) refl) cons_ne refl refl entries-AllHeld
      entries-Apart (entries-Spares "r/c/state.json" refl refl) "r/other"
      (string_ne "r/other" "r/c/state.json" refl) (entries-Spares "r/other" refl refl)

-- The client once the recipient has told it its number.
abbrev in_step : Client
in_step = record connected { seq = 3 }

empty_file_blocks_example :
    let (r, m) = send_file Q donor_fs "d" "k/empty" in_step in
    (r ≡ ok tt)
    × ((send_file Q donor_fs "d" "k/core.img" m).0
        ≡ err (wrap "Failed to send file info %s: %v" (errorf "Found unfinished file")))
unfolding string_eq
empty_file_blocks_example =
    empty_file_blocks memory_os memory_os-IsReliable Unit launch "r" donor_fs "d" "k/empty"
      "k/core.img" (stat_of (1 ∷ 2 ∷ [])) in_step (held "d/k/empty" [] refl) refl refl refl refl
