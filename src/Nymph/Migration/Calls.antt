-- ===== src/Nymph/Migration/Calls.antt =====
-- What the calls of a donor do at the destination, whichever get through.
use konk.Base.{
  err, errorf, Bool, true, false, ℕ, ◌≡◌, ◌≢◌, refl, String, List, Result, ok, string_eq, int_eq,
  arith,
}
use konk.Util.Rpc.{Delivery, delivered, refused, lost}
use konk.Container.Types.{LinkInfoArgs, FileInfoArgs, FileDataArgs}
use konk.Container.Runtime.{Runtime}
use konk.Nymph.Os.{Os}
use konk.Nymph.MigrationClient.{
  Message, image_info_msg, link_info_msg, file_info_msg, file_data_msg, relaunch_msg,
}
use konk.Nymph.MigrationDonor.{DonorFs}
use konk.Nymph.MigrationDonor.Traffic.{carries_file}
use konk.Nymph.Recipient.{Recipient, link_info, file_info, file_data}
use konk.Nymph.Relaunch.{Network}
use konk.Nymph.Transfer.{serve}
use konk.Nymph.Migration.{handle, Target, Destination, launch, deliver}

module _ (O : Os) (root : String) (r : Recipient O) (s : O.Disk) where
  link_info-info : (args : LinkInfoArgs) → (link_info O root args r s).recipient.info ≡ r.info
  unfolding link_info
  link_info-info args = ground arith

  file_info-info : (args : FileInfoArgs) → (file_info O root args r s).recipient.info ≡ r.info
  unfolding file_info
  file_info-info args = ground arith

  file_data-info : (args : FileDataArgs) → (file_data O args r s).recipient.info ≡ r.info
  unfolding file_data
  file_data-info args = ground arith

module _ (S D : Runtime) (O : Os) (nets : List (Network D)) (root : String)
    (sees : O.Disk → D.World → D.World) (files : S.World → DonorFs) where
  abbrev pub At : Type 0
  At = Destination S D O nets root sees files

  abbrev pub served : Message → At → Result ℕ × At
  served = serve O (Target D) (launch S D O nets root sees files) root

  abbrev pub answer : Message → At → Result ℕ × At
  answer = handle S D O nets root sees files

  serve-node : (msg : Message) (w : At) → msg ≢ relaunch_msg → (served msg w).1.node ≡ w.node
  unfolding serve
  serve-node (image_info_msg args) w ne = refl
  serve-node (link_info_msg args) w ne = refl
  serve-node (file_info_msg args) w ne = refl
  serve-node (file_data_msg args) w ne = refl
  serve-node relaunch_msg w ne = absurd (ne refl)

  serve-info :
      (msg : Message) (w : At)
      → carries_file msg ≡ true
      → (served msg w).1.recipient.info ≡ w.recipient.info
  unfolding serve
  serve-info (image_info_msg args) w e = absurd (ground arith)
  serve-info (link_info_msg args) w e = link_info-info O root w.recipient w.disk args
  serve-info (file_info_msg args) w e = file_info-info O root w.recipient w.disk args
  serve-info (file_data_msg args) w e = file_data-info O root w.recipient w.disk args
  serve-info relaunch_msg w e = absurd (ground arith)

  either :
      (P : Result ℕ × At → Type 0) (b : Bool) (x y : Result ℕ × At)
      → P x
      → P y
      → P (elim b [ true ↦ x | false ↦ y ])
  either P true x y h k = h
  either P false x y h k = k

  -- What holds of the handler's answer holds of a process that may have ended, if it holds there, too.
  pub answer-keeps :
      (P : Result ℕ × At → Type 0) (msg : Message) (w : At)
      → P (served msg w)
      → P (err (errorf "connection refused"), w)
      → P (answer msg w)
  answer-keeps P msg w h k =
      either P w.node.running (served msg w) (err (errorf "connection refused"), w) h k

  pub answer-node : (msg : Message) (w : At) → msg ≢ relaunch_msg → (answer msg w).1.node ≡ w.node
  answer-node msg w ne = answer-keeps (λ r. r.1.node ≡ w.node) msg w (serve-node msg w ne) refl

  pub answer-info :
      (msg : Message) (w : At)
      → carries_file msg ≡ true
      → (answer msg w).1.recipient.info ≡ w.recipient.info
  answer-info msg w c =
      answer-keeps (λ r. r.1.recipient.info ≡ w.recipient.info) msg w (serve-info msg w c) refl

  -- What holds of a call that may be lost: before and after the handler, or after an answer.
  pub deliver-keeps :
      (X : At → Type 0) (d : Delivery) (msg : Message) (w : At)
      → X w
      → X (answer msg w).1
      → X (deliver S D O nets root sees files d msg w).1
  deliver-keeps X delivered msg w h k = k
  deliver-keeps X (refused e) msg w h k = h
  deliver-keeps X (lost e) msg w h k = k

  pub deliver-answered :
      (X : At → Type 0) (d : Delivery) (msg : Message) (w : At) (seq : ℕ)
      → (deliver S D O nets root sees files d msg w).0 ≡ ok seq
      → ((answer msg w).0 ≡ ok seq → X (answer msg w).1)
      → X (deliver S D O nets root sees files d msg w).1
  deliver-answered X delivered msg w seq e k = k e
  deliver-answered X (refused x) msg w seq e k = absurd cc
  deliver-answered X (lost x) msg w seq e k = absurd cc
