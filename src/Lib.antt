-- ===== src/Lib.antt =====
-- vincenzo, a BitTorrent client: a library of its parts that compute, and what is proved of them.
--
-- The program is a set of tasks that pass messages. A daemon (crates/vcz-lib/src/daemon.rs) owns
-- torrents and answers frontends; a torrent (torrent/mod.rs) owns peers; a peer exchanges blocks with
-- a remote client, over TCP or over the micro transport protocol (crates/utp). Modelled are the codecs
-- between them, the bookkeeping of block requests, the transport, the choice and cutting of pieces, and
-- the disk that all torrents share, and of the terminal UI the editor of magnet links.
-- Paths below are relative to crates/vcz-lib/src unless they start with crates/.
--
--   Prelude   shared names, Boolean tests on numbers, lists, slices and HashMap of std, positions in a
--             Vec, and floating point numbers, which are a parameter.
--   Outcome   how a call ends: a value, an `Err` (error.rs and std::io), or a panic; actions on a
--             buffer, written with do.
--   Bytes     big-endian numbers, String::from_utf8, and the `bytes` crate as a record of operations
--             with its documented behaviour as laws (`IsBuffer`).
--   Wire      `CoreCodec` and its messages (extensions/core/codec.rs and mod.rs). Codec.encode and
--             Codec.decode are the Encoder and the Decoder; a Bitfield is an opaque type of bit_vec.
--   Handshake `HandshakeCodec` (extensions/core/handshake_codec.rs) in Codec, and in Greet the two sides
--             that use it (outbound_handshake and inbound_handshake of peer/types.rs). The extended
--             handshake is any type with its bencoding.
--   Requests  `RequestManager` (peer/request_manager.rs): Manager has its state, the timeouts and
--             add_request, Completion has fulfill_request, drain and the rest. Its binary heap, clock
--             and floats are parameters. Runs has the sequences of calls as a relation, any calls or
--             those that unfulfill no item in flight; Reach, Fulfilled and Lifecycle follow them.
--   Daemon    `DaemonCodec` (daemon_wire.rs). magnet_url and rkyv are parameters.
--   Utp       crates/utp/src: Packet has the headers and packets (header.rs, packet.rs), Connection has
--             `UtpHeader`, Queue, Stream and Flush have `UtpStream` (stream.rs). The clock, random
--             numbers and the answers of the socket are arguments, and a stream takes its
--             congestion control by an interface: its calls keep its state good (`IsControl` of
--             Steps). Congestion has the one of congestion_control.rs, and Ledbat that it is one.
--   Torrent   Info has the sizes and blocks of `Info` (metainfo.rs), Bits has bitfield.rs over the
--             bit_vec crate, Wanted has gen_missing_pieces and get_want_pieces, Pause has toggle_pause
--             and available_connections (torrent/mod.rs).
--   Disk      `Disk` (disk.rs). State has its state, Layout the places of a torrent's files, Write the
--             split of a block over files, Hashes verify_piece and validate_piece, Blocks read_block and
--             write_block, Queues the blocks that peers are given, Resume new_torrent. Steps follows
--             the messages of run, in any order, on one torrent. Image and Validation have the bytes of
--             a torrent and of a piece over all its files, which the code is compared with.
--   Counter   `Counter` (counter.rs) in Rates, over abstract f64; Conserved follows sequences of calls, and
--             says of them alone what stretches of time they rate.
--   VimInput  `VimInput` (crates/vcz-ui/src/widgets/vim_input.rs). State has the breaking of lines,
--             Editing the keys of the insert mode, Moves those of the normal mode, Keys the handlers.
--             The widths of the unicode_width crate are parameters.
--
-- A codec reads from and writes to the unread bytes of its buffer, so that decode (encode m) is run on
-- the bytes that encode appended. In the request manager an item is any type with decidable equality;
-- the index, the queue and the list of requests are kept apart as in the code. A stream of Utp is one
-- record, which every handler maps to the next; packets are lists, oldest first. The files of the disk
-- are what they hold, by path: both of its caches map the same files, and the maps are shared, so what
-- is written is what is read. Sha1, the opening of a file that is not there and the making of a folder
-- are parameters; a HashMap is a list of keys with their values.
--
-- A u16 or u32 is a number, and its wrap-around is written out, as in a build without overflow checks.
-- A subtraction below zero whose result is a number of bytes to read or of blocks to build is a panic
-- in either build, since nothing holds so many. Every loop recurs on the list or the
-- number that it consumes, but break_lines of VimInput, which runs on fuel: it need not end where a char
-- is wider than a line, and else its lines and chars are enough.
--
-- Not modelled: the tasks and their channels, sockets and files, the bencode dictionaries, the
-- extension codecs, the tracker and the drawing of the terminal UI; of the disk, the folders
-- of metainfo files, the deletion of torrents, the eviction of cold pieces and the flush. Capacity,
-- logging and wake-ups have no effect on what is modelled and are left out.
pub mod Prelude
pub mod Outcome
pub mod Bytes
pub mod Wire
pub mod Handshake
pub mod Requests
pub mod Daemon
pub mod Utp
pub mod Torrent
pub mod Disk
pub mod Counter
pub mod VimInput
