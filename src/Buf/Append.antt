-- ===== src/Buf/Append.antt =====
-- buf.c: each function that appends is all-or-nothing `append` of the bytes that it stands for.
use libpccc.Common.{ℕ, ◌^◌, ◌<◌, ◌≡◌, List, [], ◌∷◌, arith, length, set-eq-store}
use libpccc.ByteOrder.{Endian, store16, store32}
use libpccc.Buf.{
  Buf, buf_append_blob, buf_append_buf, buf_append_byte, buf_append_word, buf_append_long,
  buf_append_str, contents,
}
use libpccc.Buf.Invariant.{IsValid, append, length-contents}

pub buf_append_byte-eq : {b : Buf} (x : ℕ) → IsValid b → buf_append_byte b x ≡ append b (x ∷ [])
unfolding buf_append_byte
buf_append_byte-eq {b} x v = ground (arith, set-eq-store b.cells b.len x)

pub buf_append_word-eq :
    {b : Buf} (e : Endian) (w : ℕ) → IsValid b → buf_append_word e b w ≡ append b (store16 e w)
unfolding buf_append_word
buf_append_word-eq {b} e w v = ground arith

pub buf_append_long-eq :
    {b : Buf} (e : Endian) (w : ℕ) → IsValid b → buf_append_long e b w ≡ append b (store32 e w)
unfolding buf_append_long
buf_append_long-eq {b} e w v = ground arith

pub buf_append_blob-eq :
    {b : Buf} (xs : List ℕ) → IsValid b → length xs < 2 ^ 63 → buf_append_blob b xs ≡ append b xs
unfolding buf_append_blob
buf_append_blob-eq {b} xs v h = ground arith

pub buf_append_str-eq :
    {b : Buf} (xs : List ℕ) → IsValid b → length xs < 2 ^ 63 → buf_append_str b xs ≡ append b xs
unfolding buf_append_str
buf_append_str-eq {b} xs v h = ground arith

pub buf_append_buf-eq :
    {b s : Buf} → IsValid b → IsValid s → buf_append_buf b s ≡ append b (contents s)
unfolding buf_append_buf
buf_append_buf-eq {b} {s} v w = ground (arith, length-contents w)
