-- ===== src/Library/State.antt =====
-- lib/private.h and lib/pccc.h: the state of the client library. A `DF1MSG *` is an index into the
-- pool, a user's function or a pointer to the user's data is a number, and a null pointer is
-- `none`. `fd` is left out. `PCCC` and `PCCC_PRIV` are one record.
use Prim.Native.String.{String}
use libpccc.Common.{ℕ, Bool, false, Option, none, some, List, ◌∷◌, get_or, set, replicate}
use libpccc.Buf.{Buf}
use libpccc.Ret.{Ret, success}
use libpccc.Codec.Arrays.{FileType, stat, Value}

-- BUF_SIZE
abbrev pub buf_size : ℕ
buf_size = 300

-- The bits of a message's `state`.
abbrev pub msg_unused : ℕ
msg_unused = 0

abbrev pub msg_pend : ℕ
msg_pend = 1

abbrev pub msg_tx : ℕ
msg_tx = 2

abbrev pub msg_ack_rcvd : ℕ
msg_ack_rcvd = 4

abbrev pub msg_reply_rcvd : ℕ
msg_reply_rcvd = 8

-- MSG_TX | MSG_ACK_RCVD | MSG_REPLY_RCVD
abbrev pub msg_cmd_done : ℕ
msg_cmd_done = 14

-- READ_MODE_T
pub data ReadMode : Type 0 where
  mode_idle mode_msg_len mode_msg : ReadMode

-- A text in `errstr`: a constant one, or a format with its arguments. What `strerror` adds to
-- a text is left out, and so are the texts that addr.c and data.c leave behind.
pub data Text : Type 0 where
  no_text : Text
  plain : String → Text
  sys_error : String → Text
  from_callee : Text
  undefined_sts : ℕ → Text
  unexpected_ext : ℕ → ℕ → Text
  undefined_ext : ℕ → ℕ → Text
  file_open : ℕ → Text
  program_owner : ℕ → Text
  node_error : Bool → ℕ → Text → Text
  unknown_file_type : ℕ → Text
  max_elements : ℕ → Text
  name_too_long : ℕ → Text

-- struct pccc_slc_fi_t
pub record SlcFi : Type 0 where
  pub type : FileType
  pub bytes : ℕ
  pub elements : ℕ

-- What the user keeps where a `udata` pointer points.
pub data Datum : Type 0 where
  raw : List ℕ → Datum
  values : (t : FileType) → List (Value t) → Datum
  file_info : SlcFi → Datum

-- The functions of reply.c that parse a reply.
pub data Handler : Type 0 where
  to_echo to_ptl_read to_slc_file_info to_link_param to_dummy : Handler

-- DF1MSG
pub record Msg : Type 0 where
  pub state : ℕ
  pub buf : Buf
  pub is_cmd : Bool
  pub tns : ℕ
  pub file_type : FileType
  pub bytes : ℕ
  pub elements : ℕ
  pub usize : ℕ
  pub expires : ℕ
  pub udata : Option ℕ
  pub notify : Option ℕ
  pub reply : Option Handler
  pub result : Ret
  pub errstr : Text

-- A call of a user's function with its arguments, or of a null pointer.
pub data Call : Type 0 where
  notified : (fn : ℕ) → Ret → (udata : Option ℕ) → Call
  null_call : Call

-- `mem` is the user's memory and `calls` the calls of the user's functions, the last one first;
-- those functions do not call the library here.
pub record Pccc : Type 0 where
  pub src_addr : ℕ
  pub timeout : ℕ
  pub tns : ℕ
  pub sock_in : Buf
  pub sock_out : Buf
  pub msg_in : Buf
  pub read_mode : ReadMode
  pub msg_in_len : ℕ
  pub cur_msg : ℕ
  pub msgs : List Msg
  pub connected : Bool
  pub errstr : Text
  pub mem : ℕ → Datum
  pub calls : List Call

unfoldable pub no_cells : List ℕ
no_cells = replicate buf_size 0

-- What stands behind a pointer that is out of the pool; no function makes one.
abbrev pub no_msg : Msg
no_msg = record {
  state = 0;
  buf = record { cells = no_cells; max = buf_size; len = 0; index = 0 };
  is_cmd = false;
  tns = 0;
  file_type = stat;
  bytes = 0;
  elements = 0;
  usize = 0;
  expires = 0;
  udata = none;
  notify = none;
  reply = none;
  result = success;
  errstr = no_text;
}

-- `p->msgs[i]`, and a write to it.
abbrev pub msg_at : Pccc → ℕ → Msg
msg_at c i = get_or c.msgs i no_msg

abbrev pub put_msg : Pccc → ℕ → Msg → Pccc
put_msg c i m = record c { msgs = set c.msgs i m }

-- `notify(con, ret, udata)`
abbrev pub call : Option ℕ → Ret → Option ℕ → Call
call none ret udata = null_call
call (some fn) ret udata = notified fn ret udata

abbrev pub notify : Pccc → Option ℕ → Ret → Option ℕ → Pccc
notify c fn ret udata = record c { calls = call fn ret udata ∷ c.calls }

-- `if (notify != NULL) notify(con, ret, udata);`
abbrev pub tell : Option ℕ → Ret → Option ℕ → Pccc → Pccc
tell none ret udata c = c
tell (some fn) ret udata c = notify c (some fn) ret udata
