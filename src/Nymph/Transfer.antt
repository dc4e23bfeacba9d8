-- ===== src/Nymph/Transfer.antt =====
-- A donor connected to a recipient: the recipient's handlers answer the calls of the client. The
-- connection itself (net/rpc over TCP) delivers every call and its reply.
pub mod File
pub mod Regular
pub mod Delivery
pub mod EmptyFile
use konk.Base.{ℕ, String, Result}
use konk.Nymph.Os.{Os}
use konk.Nymph.MigrationClient.{
  Message, image_info_msg, link_info_msg, file_info_msg, file_data_msg, relaunch_msg, Peer,
}
use konk.Nymph.Recipient.{Recipient, Handled, image_info, link_info, file_info, file_data}

module _ (O : Os) (Node : Type 0) where
  -- The recipient, the disk of its node and the rest of the node.
  pub record Receiving : Type 0 where
    pub recipient : Recipient O
    pub disk : O.Disk
    pub node : Node

  abbrev pub handled : Node → Handled O → Result ℕ × Receiving
  handled n h = (h.reply, record { recipient = h.recipient; disk = h.disk; node = n })

  -- The methods that the recipient registers; `launch` is `Recipient.Relaunch`.
  unfoldable pub serve :
      (Receiving → Result ℕ × Receiving) → String → Message → Receiving → Result ℕ × Receiving
  serve launch root (image_info_msg args) w = handled w.node (image_info O args w.recipient w.disk)
  serve launch root (link_info_msg args) w =
      handled w.node (link_info O root args w.recipient w.disk)
  serve launch root (file_info_msg args) w =
      handled w.node (file_info O root args w.recipient w.disk)
  serve launch root (file_data_msg args) w = handled w.node (file_data O args w.recipient w.disk)
  serve launch root relaunch_msg w = launch w

  abbrev pub peer : (Receiving → Result ℕ × Receiving) → String → Peer
  peer launch root = record { World = Receiving; call = serve launch root }
