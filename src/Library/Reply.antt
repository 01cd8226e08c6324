-- ===== src/Library/Reply.antt =====
-- lib/reply.c: what the library does with the data of a reply. A handler works on the message that
-- came in, and on the user's memory behind the `udata` of the command; it returns nonzero (true)
-- at an error. A null `udata`, which no command with a handler has, reads as no data.
use libpccc.Common.{
  ℕ, Bool, true, false, not, ◌&&◌, Option, none, some, List, [], ◌∷◌, ◌++◌, take, drop, ◌==◌,
  if◌then◌else◌,
}
use libpccc.ByteOrder.{ltohs, ltohl}
use libpccc.Buf.{buf_get_byte, buf_get_word, buf_get_long}
use libpccc.Ret.{Ret, success}
use libpccc.Codec.Arrays.{
  FileType, stat, bin, timer, count, ctl, int, float, outp, inp, str, asc, bcd, Value,
  data_dec_array,
}
use libpccc.Df1.State.{Platform}
use libpccc.Library.State.{
  Pccc, Msg, Datum, raw, values, file_info, SlcFi, Text, plain, from_callee, unknown_file_type,
  Handler, to_echo, to_ptl_read, to_slc_file_info, to_link_param, to_dummy,
}
use libpccc.Library.Message.{msg_get_len}

-- The user's memory behind a pointer, and a write to it.
abbrev pub peek : Pccc → Option ℕ → Datum
peek c none = raw []
peek c (some q) = c.mem q

abbrev pub poke : Option ℕ → Datum → Pccc → Pccc
poke none d c = c
poke (some q) d c = record c { mem = λ a. if a == q then d else c.mem a }

-- The views that a cast of `udata` gives.
abbrev pub as_raw : Datum → List ℕ
as_raw (raw xs) = xs
as_raw _ = []

abbrev pub as_values : (t : FileType) → Datum → List (Value t)
as_values stat (values stat xs) = xs
as_values bin (values bin xs) = xs
as_values timer (values timer xs) = xs
as_values count (values count xs) = xs
as_values ctl (values ctl xs) = xs
as_values int (values int xs) = xs
as_values float (values float xs) = xs
as_values str (values str xs) = xs
as_values _ _ = []

abbrev pub as_info : Datum → SlcFi
as_info (file_info i) = i
as_info _ = record { type = stat; bytes = 0; elements = 0 }

abbrev pub fails : Text → Pccc → Pccc × Bool
fails text c = (record c { errstr = text }, true)

-- `memcmp` gives zero.
unfoldable pub bytes_eq : List ℕ → List ℕ → Bool
bytes_eq [] [] = true
bytes_eq [] (y ∷ ys) = false
bytes_eq (x ∷ xs) [] = false
bytes_eq (x ∷ xs) (y ∷ ys) = let rest : Bool = bytes_eq xs ys in x == y && rest

unfoldable pub reply_echo : Pccc → Msg → Pccc × Bool
unfolding msg_get_len bytes_eq
reply_echo c cmd =
    let bytes : ℕ = msg_get_len c.msg_in in
    let sent : List ℕ = take bytes (as_raw (peek c cmd.udata)) in
    if not (bytes == cmd.bytes)
    then fails (plain "Number of received bytes doesn't match number of bytes sent") c
    else if not (bytes_eq sent (take bytes (drop 6 c.msg_in.cells)))
    then fails (plain "Received data mismatch") c
    else (c, false)

-- A PCCC_RET_T as the result of a handler.
abbrev pub decoded : Ret → Pccc → Pccc × Bool
decoded success c = (c, false)
decoded _ c = fails from_callee c

-- `data_dec_array` overwrites the first elements of the user's array.
abbrev pub decode_values : Platform → ℕ → (t : FileType) → ℕ → Option ℕ → Pccc → Pccc × Bool
decode_values p junk t n udata c =
    let old : List (Value t) = as_values t (peek c udata) in
    let (b, xs, ret) = data_dec_array p.endian junk t (take n old) c.msg_in in
    let c' : Pccc = poke udata (values t (xs ++ drop n old)) (record c { msg_in = b }) in
    decoded ret c'

unfoldable pub reply_protected_typed_logical_read : Platform → ℕ → Pccc → Msg → Pccc × Bool
unfolding msg_get_len data_dec_array
reply_protected_typed_logical_read p junk c cmd =
    if cmd.bytes == msg_get_len c.msg_in
    then decode_values p junk cmd.file_type cmd.elements cmd.udata c
    else fails (plain "Received unexpected amount of data") c

-- The `switch` over the type byte.
unfoldable pub slc_file_type : ℕ → Option FileType
slc_file_type dt =
    if dt == 0x82
    then some outp
    else if dt == 0x83
    then some inp
    else if dt == 0x84
    then some stat
    else if dt == 0x85
    then some bin
    else if dt == 0x86
    then some timer
    else if dt == 0x87
    then some count
    else if dt == 0x88
    then some ctl
    else if dt == 0x89
    then some int
    else if dt == 0x8a
    then some float
    else if dt == 0x8d
    then some str
    else if dt == 0x8e
    then some asc
    else if dt == 0x8f
    then some bcd
    else none

-- A local variable keeps its value where a read finds no byte.
abbrev pub or_old : Option ℕ → ℕ → ℕ
or_old none old = old
or_old (some x) old = x

unfoldable pub reply_read_slc_file_info : Platform → ℕ → Pccc → Msg → Pccc × Bool
unfolding msg_get_len slc_file_type buf_get_byte buf_get_word buf_get_long
reply_read_slc_file_info p junk c cmd =
    let (b1, bytes) = buf_get_long p.endian c.msg_in in
    let (b2, elements) = buf_get_word p.endian b1 in
    let (b3, reserved) = buf_get_byte b2 in
    let (b4, byte) = buf_get_byte b3 in
    let dt : ℕ = or_old byte (or_old reserved junk) in
    let info : SlcFi = record (as_info (peek c cmd.udata)) {
      bytes = ltohl p.endian (or_old bytes junk);
      elements = ltohs p.endian (or_old elements junk);
    } in
    let c' : Pccc = record c { msg_in = b4 } in
    if not (msg_get_len c.msg_in == 8)
    then fails (plain "Received unexpected amount of data") c
    else elim (slc_file_type dt) [
      | some t ↦ (poke cmd.udata (file_info (record info { type = t })) c', false)
      | none ↦ fails (unknown_file_type dt) (poke cmd.udata (file_info info) c')
    ]

-- A byte, if there is one, stored at the pointer.
abbrev pub poke_byte : Option ℕ → Option ℕ → Pccc → Pccc
poke_byte udata none c = c
poke_byte udata (some x) c = poke udata (raw (x ∷ drop 1 (as_raw (peek c udata)))) c

unfoldable pub reply_read_link_param : Pccc → Msg → Pccc × Bool
unfolding msg_get_len buf_get_byte
reply_read_link_param c cmd =
    let (b, byte) = buf_get_byte c.msg_in in
    if msg_get_len c.msg_in == 1
    then (poke_byte cmd.udata byte (record c { msg_in = b }), false)
    else fails (plain "Received unexpected amount of data") c

-- It prints the message, which leaves the buffer read to its end.
unfoldable pub reply_dummy : Pccc → Msg → Pccc × Bool
reply_dummy c cmd = (record c { msg_in = record (c.msg_in) { index = c.msg_in.len } }, false)

-- A call through the pointer `msg->reply`, which may be null.
unfoldable pub run_reply : Platform → ℕ → Option Handler → Pccc → Msg → Pccc × Bool
unfolding reply_echo reply_protected_typed_logical_read reply_read_slc_file_info
    reply_read_link_param reply_dummy
run_reply p junk none c cmd = (c, false)
run_reply p junk (some to_echo) c cmd = reply_echo c cmd
run_reply p junk (some to_ptl_read) c cmd = reply_protected_typed_logical_read p junk c cmd
run_reply p junk (some to_slc_file_info) c cmd = reply_read_slc_file_info p junk c cmd
run_reply p junk (some to_link_param) c cmd = reply_read_link_param c cmd
run_reply p junk (some to_dummy) c cmd = reply_dummy c cmd
