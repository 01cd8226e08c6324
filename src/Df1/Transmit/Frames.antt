-- ===== src/Df1/Transmit/Frames.antt =====
-- df1d/tx.c: the transmitter's buffer, and the frame that `tx_msg` puts into it.
use libpccc.Common.{ℕ, zero, suc, Bool, true, false, none, some, ◌==◌, if◌then◌else◌}
use libpccc.ByteOrder.{htols}
use libpccc.Buf.{Buf, buf_empty, buf_append_byte, buf_append_word, buf_get_byte, ◌and_also◌}
use libpccc.Df1.State.{Platform, sym_stx, sym_etx, sym_dle, Tx, tx_idle}
use libpccc.Df1.Checksum.{crc_add, bcc_add, bcc_close}

abbrev pub tx_busy : Tx → Bool
tx_busy tx = elim tx.state [ tx_idle ↦ false | _ ↦ true ]

unfoldable pub flush_msg : Tx → Tx
unfolding buf_empty
flush_msg tx = record tx { nak_cnt = 0; enq_cnt = 0; msg = buf_empty tx.msg; state = tx_idle }

-- The loop over the client's message: each byte, a DLE twice, and the checksum over the bytes. The
-- fuel bounds its rounds. It returns the client's buffer, the frame and the checksum.
unfoldable pub copy_msg : ℕ → Bool → Buf → Buf × Bool → ℕ → Buf × (Buf × Bool) × ℕ
copy_msg zero use_crc src out cs = (src, out, cs)
copy_msg (suc fuel) use_crc src out cs =
    let (src', next) = buf_get_byte src in
    elim next [
      | none ↦ (src', out, cs)
      | some byte ↦
          let out' : Buf × Bool = out and_also (λ b. buf_append_byte b byte) in
          copy_msg fuel use_crc src'
            (if byte == sym_dle then out' and_also (λ b. buf_append_byte b sym_dle) else out')
            (if use_crc then crc_add cs byte else bcc_add cs byte)
    ]

-- The end of the message and its checksum.
unfoldable pub close_msg : Platform → Bool → Buf × Bool → ℕ → Buf × Bool
close_msg p use_crc out cs =
    let out' : Buf × Bool =
      out and_also (λ b. buf_append_byte b sym_dle) and_also (λ b. buf_append_byte b sym_etx) in
    if use_crc
    then out' and_also (λ b. buf_append_word p.endian b (htols p.endian (crc_add cs sym_etx)))
    else out' and_also (λ b. buf_append_byte b (bcc_close cs))

-- The whole frame, behind what `msg` holds; the client's buffer and the overflow flag.
unfoldable pub frame_msg : Platform → Bool → Buf → Buf → Buf × (Buf × Bool)
unfolding copy_msg close_msg
frame_msg p use_crc msg df1_tx =
    let start : Buf × Bool =
      buf_append_byte msg sym_dle and_also (λ b. buf_append_byte b sym_stx) in
    let (src, out, cs) = copy_msg (suc df1_tx.len) use_crc df1_tx start 0 in
    (src, close_msg p use_crc out cs)
