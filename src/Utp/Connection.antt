-- ===== src/Utp/Connection.antt =====
-- `UtpHeader` of crates/utp/src/header.rs: the numbers of a connection and the headers made from
-- them. The clock and the random numbers are arguments; `+ 1` on a u16 wraps, as in a build without
-- overflow checks. One thread owns the atomics, so a store is an update.
use native.Mathlib.Decide.{ℕ_discrete}
use vincenzo.Prelude.{ℕ, ◌+◌, ◌-◌, ◌%◌, ◌^◌, Option, none, some, List, []}
use vincenzo.Prelude.HashMap.{lookup, insert}
use vincenzo.Utp.Packet.{PacketType, from_packet, Header}

pub record UtpHeader : Type 0 where
  pub seq_nr : ℕ
  pub ack_nr : ℕ
  pub last_ack_nr : ℕ
  pub ack_history : List (ℕ × ℕ)
  pub conn_id_send : ℕ
  pub conn_id_recv : ℕ
  pub last_recv_packet_timestamp : ℕ
  pub last_sent_packet_timestamp : ℕ

unfoldable pub new : UtpHeader
new = record {
  seq_nr = 0;
  ack_nr = 0;
  last_ack_nr = 0;
  ack_history = [];
  conn_id_send = 0;
  conn_id_recv = 0;
  last_recv_packet_timestamp = 0;
  last_sent_packet_timestamp = 0;
}

abbrev pub next_u16 : ℕ → ℕ
next_u16 n = (n + 1) % 2 ^ 16

-- `fetch_add(1)`: the old number, and the state with the next one
abbrev pub next_seq_nr : UtpHeader → UtpHeader
next_seq_nr u = record u { seq_nr = next_u16 u.seq_nr }

unfoldable pub get_timestamp_diff : ℕ → UtpHeader → ℕ
get_timestamp_diff now u = now - u.last_recv_packet_timestamp

-- `get_rtt`; the subtraction saturates
unfoldable pub get_rtt : ℕ → UtpHeader → ℕ
get_rtt now u = now - u.last_sent_packet_timestamp

unfoldable pub new_syn : ℕ → ℕ → ℕ → UtpHeader → UtpHeader × Header
unfolding from_packet
new_syn now random wnd_size u = (
  record (next_seq_nr u) {
    conn_id_recv = random;
    conn_id_send = next_u16 random;
    last_sent_packet_timestamp = now;
  },
  record {
    ack_nr = u.ack_nr;
    seq_nr = u.seq_nr;
    conn_id = random;
    type_ver = from_packet PacketType.syn;
    wnd_size = wnd_size;
    timestamp = now;
    timestamp_diff = 0;
    extension = 0;
  },
)

-- what `new_fin`, `new_data`, `new_state` and the others fill in alike
abbrev pub numbered : PacketType → ℕ → ℕ → ℕ → ℕ → UtpHeader → Header
numbered p seq ack now wnd_size u = record {
  ack_nr = ack;
  seq_nr = seq;
  conn_id = u.conn_id_send;
  type_ver = from_packet p;
  wnd_size = wnd_size;
  timestamp = now;
  timestamp_diff = now - u.last_recv_packet_timestamp;
  extension = 0;
}

unfoldable pub new_fin : ℕ → ℕ → UtpHeader → UtpHeader × Header
new_fin now wnd_size u = (
  record (next_seq_nr u) { last_sent_packet_timestamp = now },
  numbered PacketType.fin u.seq_nr u.ack_nr now wnd_size u,
)

unfoldable pub new_data : ℕ → ℕ → UtpHeader → UtpHeader × Header
new_data now wnd_size u = (
  record (next_seq_nr u) { last_sent_packet_timestamp = now },
  numbered PacketType.payload u.seq_nr u.ack_nr now wnd_size u,
)

unfoldable pub new_retransmit_data : ℕ → ℕ → ℕ → UtpHeader → UtpHeader × Header
new_retransmit_data now wnd_size seq_nr u = (
  record u { last_sent_packet_timestamp = now },
  numbered PacketType.payload seq_nr u.ack_nr now wnd_size u,
)

unfoldable pub new_state : ℕ → ℕ → UtpHeader → UtpHeader × Header
new_state now wnd_size u = (
  record (next_seq_nr u) { last_sent_packet_timestamp = now },
  numbered PacketType.state u.seq_nr u.ack_nr now wnd_size u,
)

unfoldable pub new_reset : ℕ → ℕ → ℕ → UtpHeader → UtpHeader × Header
new_reset now seq_nr wnd_size u = (
  record u { last_sent_packet_timestamp = now },
  numbered PacketType.reset u.seq_nr seq_nr now wnd_size u,
)

abbrev pub or_default : Option ℕ → ℕ
or_default none = 0
or_default (some n) = n

-- the new count; it is a u32
unfoldable pub duplicates : ℕ → UtpHeader → ℕ
duplicates seq_nr u = or_default (lookup ℕ_discrete seq_nr u.ack_history)

unfoldable pub inc_duplicate_ack : ℕ → UtpHeader → UtpHeader × ℕ
unfolding duplicates
inc_duplicate_ack seq_nr u =
    let v = (duplicates seq_nr u + 1) % 2 ^ 32 in
    (record u { ack_history = insert ℕ_discrete seq_nr v u.ack_history }, v)

unfoldable pub zero_duplicate_ack : ℕ → UtpHeader → UtpHeader
zero_duplicate_ack seq_nr u = record u { ack_history = insert ℕ_discrete seq_nr 0 u.ack_history }

unfoldable pub handle_syn : ℕ → Header → UtpHeader → UtpHeader
handle_syn random header u = record u {
  last_recv_packet_timestamp = header.timestamp;
  conn_id_send = header.conn_id;
  conn_id_recv = next_u16 header.conn_id;
  seq_nr = random;
  ack_nr = header.seq_nr;
}

unfoldable pub handle_new_ack : Header → UtpHeader → UtpHeader
handle_new_ack header u = record u {
  last_recv_packet_timestamp = header.timestamp;
  ack_nr = header.seq_nr;
  last_ack_nr = header.ack_nr;
}

unfoldable pub handle_data : Header → UtpHeader → UtpHeader
handle_data header u = record u {
  last_recv_packet_timestamp = header.timestamp;
  ack_nr = header.seq_nr;
}
