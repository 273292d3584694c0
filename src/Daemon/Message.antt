-- ===== src/Daemon/Message.antt =====
-- `Message` and `MessageId` of crates/vcz-lib/src/daemon_wire.rs, over the magnet links and the
-- torrent states that other crates read and write.
use vincenzo.Prelude.{ℕ, ◌≡◌, Bool, ◌==◌, if◌then◌else◌, Option, none, some, List}

pub data Message (Magnet State : Type 0) : Type 0 where
  init : Bool → Message Magnet State
  quit frontend_quit : Message Magnet State
  new_torrent : Magnet → Message Magnet State
  torrent_state : State → Message Magnet State
  torrent_states : List State → Message Magnet State
  toggle_pause : List ℕ → Message Magnet State
  delete_torrent : List ℕ → Bool → Message Magnet State
  get_torrent_state : List ℕ → Message Magnet State
  print_torrent_status : Message Magnet State

pub data MessageId : Type 0 where
  new_torrent torrent_state get_torrent_state toggle_pause print_torrent_status quit frontend_quit
        torrent_states delete_torrent init :
      MessageId

unfoldable pub message_id_as_u8 : MessageId → ℕ
message_id_as_u8 MessageId.new_torrent = 1
message_id_as_u8 MessageId.torrent_state = 2
message_id_as_u8 MessageId.get_torrent_state = 3
message_id_as_u8 MessageId.toggle_pause = 4
message_id_as_u8 MessageId.print_torrent_status = 5
message_id_as_u8 MessageId.quit = 6
message_id_as_u8 MessageId.frontend_quit = 7
message_id_as_u8 MessageId.torrent_states = 8
message_id_as_u8 MessageId.delete_torrent = 9
message_id_as_u8 MessageId.init = 10

-- `MessageId::try_from`, derived from the discriminants
unfoldable pub message_id_try_from : ℕ → Option MessageId
message_id_try_from id =
    if id == 1
    then some MessageId.new_torrent
    else if id == 2
    then some MessageId.torrent_state
    else if id == 3
    then some MessageId.get_torrent_state
    else if id == 4
    then some MessageId.toggle_pause
    else if id == 5
    then some MessageId.print_torrent_status
    else if id == 6
    then some MessageId.quit
    else if id == 7
    then some MessageId.frontend_quit
    else if id == 8
    then some MessageId.torrent_states
    else if id == 9
    then some MessageId.delete_torrent
    else if id == 10
    then some MessageId.init
    else none

-- `rkyv::to_bytes`, and `rkyv::access` followed by `deserialize`
pub record Archive (A : Type 0) : Type 0 where
  pub to_bytes : A → Option (List ℕ)
  pub from_bytes : List ℕ → Option A

-- An archive reads back what it wrote.
abbrev pub IsArchive : {A : Type 0} → Archive A → Type 0
IsArchive {A = A} a = (x : A) (bs : List ℕ) → a.to_bytes x ≡ some bs → a.from_bytes bs ≡ some x

-- `Magnet::to_string` and `Magnet::new` of magnet_url, on the bytes of a string
pub record MagnetUrl (Magnet : Type 0) : Type 0 where
  pub to_string : Magnet → List ℕ
  pub parse : List ℕ → Option Magnet
