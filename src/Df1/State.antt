-- ===== src/Df1/State.antt =====
-- df1d/df1.h: the state of a connection. A `CLIENT *` is the number of the client; the null
-- pointer is `none`. File descriptors and the names used in log messages are left out, and the
-- input buffers `tty_in` and `sock_in` are arguments of the functions that read them, which no
-- other function touches.
use libpccc.Common.{ℕ, ◌+◌, Bool, Option, none, some, List, [], ◌∷◌, ◌==◌, if◌then◌else◌, u32}
use libpccc.ByteOrder.{Endian}
use libpccc.Buf.{Buf}

abbrev pub sym_stx : ℕ
sym_stx = 0x02

abbrev pub sym_etx : ℕ
sym_etx = 0x03

abbrev pub sym_enq : ℕ
sym_enq = 0x05

abbrev pub sym_ack : ℕ
sym_ack = 0x06

abbrev pub sym_nak : ℕ
sym_nak = 0x15

abbrev pub sym_dle : ℕ
sym_dle = 0x10

-- struct link_diag_cnt
pub record LinkCounts : Type 0 where
  pub tx_attempts : ℕ
  pub tx_success : ℕ
  pub msg_rx : ℕ
  pub acks_in : ℕ
  pub naks_in : ℕ
  pub resp_timeouts : ℕ
  pub enqs_out : ℕ
  pub tx_fail : ℕ
  pub acks_out : ℕ
  pub naks_out : ℕ
  pub enqs_in : ℕ
  pub runts : ℕ
  pub bad_cs : ℕ
  pub unknown_dst : ℕ
  pub bytes_ignored : ℕ
  pub dups : ℕ
  pub rx_overflow : ℕ

-- struct client_diag_cnt
pub record ClientCounts : Type 0 where
  pub tx_attempts : ℕ
  pub tx_success : ℕ
  pub tx_fail : ℕ
  pub sink_full : ℕ
  pub msg_rx : ℕ
  pub msg_reject : ℕ
  pub msg_accept : ℕ
  pub rx_timeouts : ℕ

-- CLIENT_STATE_T
pub data ClientState : Type 0 where
  connected reg_len reg_name idle msg_len msg msg_ready msg_pend : ClientState

-- `id` stands for the address of the structure. `name` is an array of 17 characters.
pub record Client : Type 0 where
  pub id : ℕ
  pub name : List ℕ
  pub state : ClientState
  pub addr : ℕ
  pub name_len : ℕ
  pub name_len_rcvd : ℕ
  pub new_msg_len : ℕ
  pub df1_tx : Buf
  pub sock_out : Buf
  pub dcnts : ClientCounts

-- TX_STATE_T and TX
pub data TxState : Type 0 where
  tx_idle tx_pend_msg_tx tx_pend_resp : TxState

pub record Tx : Type 0 where
  pub state : TxState
  pub max_nak : ℕ
  pub max_enq : ℕ
  pub nak_cnt : ℕ
  pub enq_cnt : ℕ
  pub eticks : ℕ
  pub tticks : ℕ
  pub msg : Buf
  pub client : Option ℕ

-- RX_STATE_T and RX. A union of a `uint16_t` and a `uint8_t` is one number, since which of them is
-- in use depends on `use_crc`, which never changes.
pub data RxState : Type 0 where
  rx_idle rx_app rx_cs1 rx_cs2 rx_pend : RxState

pub record Rx : Type 0 where
  pub state : RxState
  pub app : Buf
  pub dup : List ℕ
  pub eticks : ℕ
  pub tticks : ℕ
  pub last_was_ack : Bool
  pub overflow : Bool
  pub dup_detect : Bool
  pub prev_dle : Bool
  pub client : Option ℕ
  pub msg_cs : ℕ
  pub acc_cs : ℕ

pub record Conn : Type 0 where
  pub use_crc : Bool
  pub read_sym : Bool
  pub embed_rsp : Bool
  pub tty_out : Buf
  pub tx : Tx
  pub rx : Rx
  pub clients : List Client
  pub dcnts : LinkCounts

-- The host's byte order, and the bytes MSG_SOH, MSG_ACK and MSG_NAK of the protocol between the
-- service and its clients, which are defined in a header that the repository does not hold.
-- `beyond q i byte` is what the write of a byte to `name[i]` of the client `q` does when `i` is
-- beyond the array, which C leaves undefined: it may change anything.
pub record Platform : Type 0 where
  pub endian : Endian
  pub msg_soh : ℕ
  pub msg_ack : ℕ
  pub msg_nak : ℕ
  pub beyond : ℕ → ℕ → ℕ → Conn → Conn

-- `unsigned int` counters wrap.
abbrev pub inc : ℕ → ℕ
inc n = u32 (n + 1)

-- The client that a pointer points to, and a write through the pointer.
abbrev pub client_at : ℕ → List Client → Option Client
client_at p [] = none
client_at p (c ∷ cs) = if c.id == p then some c else client_at p cs

abbrev pub modify : ℕ → (Client → Client) → List Client → List Client
modify p f [] = []
modify p f (c ∷ cs) = if c.id == p then f c ∷ cs else c ∷ modify p f cs

abbrev pub modify_opt : Option ℕ → (Client → Client) → List Client → List Client
modify_opt none f cs = cs
modify_opt (some p) f cs = modify p f cs
