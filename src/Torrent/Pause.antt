-- ===== src/Torrent/Pause.antt =====
-- `toggle_pause` and `available_connections` of crates/vcz-lib/src/torrent/mod.rs, and the status of
-- a torrent (torrent/types.rs). A broadcast that nobody receives is as good as one that is sent.
use vincenzo.Prelude.{
  ℕ, ◌-◌, ◌≡◌, refl, Bool, true, false, not, ◌||◌, List, [], ◌∷◌, leb, if◌then◌else◌,
}

pub data TorrentStatusErrorCode : Type 0 where
  unknown files_missing : TorrentStatusErrorCode

pub data TorrentStatus : Type 0 where
  connecting_trackers downloading_metainfo downloading seeding paused : TorrentStatus
  error : TorrentStatusErrorCode → TorrentStatus

pub data PeerBrMsg : Type 0 where
  seedonly pause resume quit have_info : PeerBrMsg
  have_piece : ℕ → PeerBrMsg

abbrev is_downloading : TorrentStatus → Bool
is_downloading TorrentStatus.downloading = true
is_downloading _ = false

abbrev is_seeding : TorrentStatus → Bool
is_seeding TorrentStatus.seeding = true
is_seeding _ = false

abbrev is_paused : TorrentStatus → Bool
is_paused TorrentStatus.paused = true
is_paused _ = false

-- the status, and what is broadcast
unfoldable pub toggle_pause : ℕ → ℕ → TorrentStatus → TorrentStatus × List PeerBrMsg
toggle_pause total_download disk_size status =
    if not (is_downloading status) || (not (is_seeding status) || not (is_paused status))
    then (status, [])
    else if is_paused status
    then (
      if leb disk_size total_download then TorrentStatus.seeding else TorrentStatus.downloading,
      PeerBrMsg.resume ∷ [],
    )
    else (TorrentStatus.paused, PeerBrMsg.pause ∷ [])

-- `active` peers of the torrent, `connected` ones of the daemon, and their two limits
unfoldable pub available_connections : ℕ → ℕ → ℕ → ℕ → ℕ
available_connections connected max_global_peers max_torrent_peers active =
    if leb max_torrent_peers active || leb max_global_peers connected
    then 0
    else max_torrent_peers - active

-- A torrent cannot be paused or resumed: whatever its status, the call changes nothing and tells the
-- peers nothing, since no status is equal to all three that it is compared with.
toggle_pause_idle :
    (total_download disk_size : ℕ) (status : TorrentStatus)
    → toggle_pause total_download disk_size status ≡ (status, [])
unfolding toggle_pause
toggle_pause_idle d z TorrentStatus.downloading = refl
toggle_pause_idle d z TorrentStatus.seeding = refl
toggle_pause_idle d z TorrentStatus.paused = refl
toggle_pause_idle d z _ = refl
