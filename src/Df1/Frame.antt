-- ===== src/Df1/Frame.antt =====
-- df1d/tx.c: the frame that `tx_msg` puts into the transmitter's buffer, on a little-endian host.
use libpccc.Common.{
  ℕ, zero, suc, ◌^◌, ◌<◌, ◌≡◌, ap, Bool, true, false, List, [], ◌∷◌, ◌++◌, arith, length, none,
  some, Bool-cases, inl, inr, ◌==◌, if◌then◌else◌, append-nil, append_assoc,
}
use libpccc.ByteOrder.{little_endian, htols}
use libpccc.Buf.{Buf, unread, buf_append_byte, buf_append_word, buf_get_byte, ◌and_also◌}
use libpccc.Buf.Invariant.{IsValid}
use libpccc.Buf.Read.{advance, buf_get_byte-cons, buf_get_byte-nil, length-unread}
use libpccc.Buf.Encode.{Appends, byte-Appends, and_also-Appends}
use libpccc.Addr.Element.{link16, link_word-Appends}
use libpccc.Df1.State.{Platform, sym_dle, sym_stx, sym_etx}
use libpccc.Df1.Checksum.{crc_add, bcc_add, bcc_close}
use libpccc.Df1.Transmit.{copy_msg, close_msg, frame_msg}

-- Every DLE of the message is doubled.
abbrev pub escape : List ℕ → List ℕ
escape [] = []
escape (x ∷ xs) = if x == sym_dle then x ∷ sym_dle ∷ escape xs else x ∷ escape xs

-- The checksum over some bytes, going on from `cs`.
abbrev pub add_cs : Bool → ℕ → ℕ → ℕ
add_cs use_crc cs x = if use_crc then crc_add cs x else bcc_add cs x

unfoldable pub sum_cs : Bool → ℕ → List ℕ → ℕ
sum_cs use_crc cs [] = cs
sum_cs use_crc cs (x ∷ xs) = sum_cs use_crc (add_cs use_crc cs x) xs

-- The checksum as it goes out: the CRC covers the ETX as well.
abbrev pub cs_bytes : Bool → List ℕ → List ℕ
cs_bytes use_crc app =
    if use_crc
    then link16 (crc_add (sum_cs use_crc 0 app) sym_etx)
    else bcc_close (sum_cs use_crc 0 app) ∷ []

-- DLE STX, the message, DLE ETX and the checksum.
abbrev pub frame : Bool → List ℕ → List ℕ
frame use_crc app = sym_dle ∷ sym_stx ∷ (escape app ++ sym_dle ∷ sym_etx ∷ cs_bytes use_crc app)

pub crc_add-lt : (crc x : ℕ) → crc_add crc x < 2 ^ 16
unfolding crc_add
crc_add-lt crc x = omega arith

-- One round of the loop.
module _ (fuel : ℕ) (use_crc : Bool) (src src' : Buf) (out : Buf × Bool) (cs : ℕ) where
  copy_msg_end :
      buf_get_byte src ≡ (src', none) → copy_msg (suc fuel) use_crc src out cs ≡ (src', out, cs)
  unfolding copy_msg
  copy_msg_end e = ground arith

  copy_msg_byte :
      (x : ℕ)
      → buf_get_byte src ≡ (src', some x)
      → copy_msg (suc fuel) use_crc src out cs
        ≡ copy_msg fuel use_crc src'
            (if x == sym_dle
              then out and_also (λ b. buf_append_byte b x) and_also (λ b. buf_append_byte b sym_dle)
              else out and_also (λ b. buf_append_byte b x))
            (add_cs use_crc cs x)
  unfolding copy_msg
  copy_msg_byte x e = ground arith

module _ {b : Buf} where
  byte_after :
      (c : ℕ) {ys : List ℕ} (r : Buf × Bool)
      → Appends b ys r
      → Appends b (ys ++ c ∷ []) (r and_also (λ b'. buf_append_byte b' c))
  byte_after c r a = and_also-Appends (λ b'. buf_append_byte b' c) r a (λ b' v'. byte-Appends v' c)

  copy_msg-Appends :
      (app : List ℕ) (fuel : ℕ) (use_crc : Bool) (cs : ℕ) (ys : List ℕ) (out : Buf × Bool)
      {src : Buf}
      → length app < fuel
      → IsValid src
      → unread src ≡ app
      → Appends b ys out
      → (src' : Buf) × (out' : Buf × Bool) × (copy_msg fuel use_crc src out cs
          ≡ (src', out', sum_cs use_crc cs app))
        × IsValid src'
        × Appends b (ys ++ escape app) out'
  unfolding sum_cs
  copy_msg-Appends app zero use_crc cs ys out h v e a = absurd (omega arith)
  copy_msg-Appends [] (suc fuel) use_crc cs ys out {src} h v e a = (
    src,
    out,
    copy_msg_end fuel use_crc src src out cs (buf_get_byte-nil v e),
    v,
    rw (append-nil ys) a,
  )
  copy_msg-Appends (x ∷ app) (suc fuel) use_crc cs ys out {src} h v e a =
      let g = buf_get_byte-cons v e in
      elim (Bool-cases (x == sym_dle)) [
        | inl dle ↦
            let ih =
              copy_msg-Appends app fuel use_crc (add_cs use_crc cs x)
                ((ys ++ x ∷ []) ++ sym_dle ∷ []) _ (omega arith) g.2 g.1
                (byte_after sym_dle _ (byte_after x out a)) in
            (
              ih.0,
              ih.1,
              rw (copy_msg_byte fuel use_crc src (advance 1 src) out cs x g.0, dle) ih.2,
              ih.3,
              rw (dle) (
                  rw
                    (
                      append_assoc (ys ++ x ∷ []) (sym_dle ∷ []) (escape app),
                      append_assoc ys (x ∷ []) (sym_dle ∷ escape app),
                    )
                    at ih.4),
            )
        | inr other ↦
            let ih =
              copy_msg-Appends app fuel use_crc (add_cs use_crc cs x) (ys ++ x ∷ []) _ (omega arith)
                g.2 g.1 (byte_after x out a) in
            (
              ih.0,
              ih.1,
              rw (copy_msg_byte fuel use_crc src (advance 1 src) out cs x g.0, other) ih.2,
              ih.3,
              rw (other) (rw (append_assoc ys (x ∷ []) (escape app)) at ih.4),
            )
      ]

  close_msg-Appends :
      (p : Platform) (use_crc : Bool) (app ys : List ℕ) (out : Buf × Bool)
      → p.endian ≡ little_endian
      → Appends b ys out
      → Appends b
          (ys ++ (sym_dle ∷ sym_etx ∷ cs_bytes use_crc app))
          (close_msg p use_crc out (sum_cs use_crc 0 app))
  unfolding close_msg
  close_msg-Appends p true app ys out e a =
      let crc : ℕ = crc_add (sum_cs true 0 app) sym_etx in
      let r =
        and_also-Appends (λ b'. buf_append_word little_endian b' (htols little_endian crc)) _
          (byte_after sym_etx _ (byte_after sym_dle out a))
          (λ b' v'. link_word-Appends crc v' (crc_add-lt (sum_cs true 0 app) sym_etx)) in
      rw e (
        rw
          (
            append_assoc (ys ++ sym_dle ∷ []) (sym_etx ∷ []) (link16 crc),
            append_assoc ys (sym_dle ∷ []) (sym_etx ∷ link16 crc),
          )
          at r)
  close_msg-Appends p false app ys out e a =
      let r =
        byte_after (bcc_close (sum_cs false 0 app)) _
          (byte_after sym_etx _ (byte_after sym_dle out a)) in
      rw
        (
          append_assoc (ys ++ sym_dle ∷ []) (sym_etx ∷ []) (bcc_close (sum_cs false 0 app) ∷ []),
          append_assoc ys (sym_dle ∷ []) (sym_etx ∷ bcc_close (sum_cs false 0 app) ∷ []),
        )
        at r

-- `tx_msg` puts DLE STX, the client's message with every DLE doubled, DLE ETX and the checksum
-- behind what the transmitter's buffer holds, on a little-endian host; if that does not fit, the
-- overflow flag is set.
pub frame_msg-Appends :
    (p : Platform) (use_crc : Bool) (app : List ℕ) {msg src : Buf}
    → p.endian ≡ little_endian
    → IsValid msg
    → IsValid src
    → unread src ≡ app
    → Appends msg (frame use_crc app) (frame_msg p use_crc msg src).1
unfolding frame_msg
frame_msg-Appends p use_crc app {msg} {src} e v w h =
    let start : Buf × Bool =
      buf_append_byte msg sym_dle and_also (λ b. buf_append_byte b sym_stx) in
    let c =
      copy_msg-Appends app (suc src.len) use_crc 0 (sym_dle ∷ sym_stx ∷ []) start
        (omega (arith, length-unread w, ap (length {0}) h)) w h
        (byte_after sym_stx (buf_append_byte msg sym_dle) (byte-Appends v sym_dle)) in
    rw (c.2, frame_msg)
      (rw
        (append_assoc (sym_dle ∷ sym_stx ∷ []) (escape app)
          (sym_dle ∷ sym_etx ∷ cs_bytes use_crc app))
        at (close_msg-Appends p use_crc app ((sym_dle ∷ sym_stx ∷ []) ++ escape app) c.1 e c.4))
