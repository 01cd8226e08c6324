-- ===== src/Df1/Examples.antt =====
-- Data for the tests of df1d: a link with one client, and a message for it.
use libpccc.Common.{ℕ, refl, none, List, [], ◌∷◌, arith, length, replicate, true, false, ◌<◌, ◌^◌}
use libpccc.ByteOrder.{little_endian}
use libpccc.Buf.{Buf}
use libpccc.Buf.Invariant.{IsValid}
use libpccc.Df1.State.{Platform, Client, Conn, LinkCounts, Tx, Rx, rx_idle, tx_idle, idle}
use libpccc.Df1.Sockets.{no_counts}

abbrev pub host : Platform
host = record {
  endian = little_endian;
  msg_soh = 1;
  msg_ack = 6;
  msg_nak = 0x15;
  beyond = λ q i byte c. c;
}

abbrev pub empty_buf : ℕ → Buf
empty_buf n = record { cells = replicate n 0; max = n; len = 0; index = 0 }

abbrev pub buf_of : List ℕ → Buf
buf_of xs = record { cells = xs; max = length xs; len = length xs; index = 0 }

abbrev pub client : Client
client = record {
  id = 40;
  name = replicate 17 0;
  state = idle;
  addr = 9;
  name_len = 0;
  name_len_rcvd = 0;
  new_msg_len = 0;
  df1_tx = empty_buf 20;
  sock_out = empty_buf 20;
  dcnts = no_counts;
}

abbrev pub no_link_counts : LinkCounts
no_link_counts = record {
  tx_attempts = 0;
  tx_success = 0;
  msg_rx = 0;
  acks_in = 0;
  naks_in = 0;
  resp_timeouts = 0;
  enqs_out = 0;
  tx_fail = 0;
  acks_out = 0;
  naks_out = 0;
  enqs_in = 0;
  runts = 0;
  bad_cs = 0;
  unknown_dst = 0;
  bytes_ignored = 0;
  dups = 0;
  rx_overflow = 0;
}

abbrev pub tx : Tx
tx = record {
  state = tx_idle;
  max_nak = 3;
  max_enq = 3;
  nak_cnt = 0;
  enq_cnt = 0;
  eticks = 0;
  tticks = 100;
  msg = empty_buf 40;
  client = none;
}

abbrev pub rx : Rx
rx = record {
  state = rx_idle;
  app = empty_buf 20;
  dup = 0 ∷ 0 ∷ 0 ∷ 0 ∷ [];
  eticks = 0;
  tticks = 501;
  last_was_ack = false;
  overflow = false;
  dup_detect = false;
  prev_dle = false;
  client = none;
  msg_cs = 0;
  acc_cs = 0;
}

abbrev pub link : Conn
link = record {
  use_crc = false;
  read_sym = false;
  embed_rsp = true;
  tty_out = empty_buf 20;
  tx = tx;
  rx = rx;
  clients = client ∷ [];
  dcnts = no_link_counts;
}

pub buf_of-IsValid : (xs : List ℕ) → length xs < 2 ^ 63 → IsValid (buf_of xs)
buf_of-IsValid xs h = record { storage = refl; small = h; filled = omega arith; read = omega arith }

pub empty20-IsValid : IsValid (empty_buf 20)
empty20-IsValid = record {
  storage = refl;
  small = omega arith;
  filled = omega arith;
  read = omega arith;
}

pub empty40-IsValid : IsValid (empty_buf 40)
empty40-IsValid = record {
  storage = refl;
  small = omega arith;
  filled = omega arith;
  read = omega arith;
}

-- A message for the client, with a DLE in it.
abbrev pub app : List ℕ
app = 0x10 ∷ 15 ∷ 0 ∷ 1 ∷ 2 ∷ []

abbrev pub msg_bytes : List ℕ
msg_bytes = 9 ∷ app
