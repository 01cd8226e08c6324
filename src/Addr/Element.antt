-- ===== src/Addr/Element.antt =====
-- lib/addr.c: `addr_encode` and `addr_decode` on a little-endian host.
use libpccc.Common.{
  ℕ, ◌/◌, ◌%◌, ◌^◌, ◌<◌, ◌≡◌, refl, ap, false, List, [], ◌∷◌, ◌++◌, arith, some, Bool-cases, inl,
  inr, ◌==◌, ltb, if◌then◌else◌,
}
use libpccc.ByteOrder.{little_endian, htols, ltohs}
use libpccc.ByteOrder.Order.{store-htols}
use libpccc.Buf.{Buf, unread, buf_append_byte, buf_append_word}
use libpccc.Buf.Invariant.{IsValid}
use libpccc.Buf.Encode.{Appends, byte-Appends, word-Appends, or_else-Appends}
use libpccc.Buf.Read.{buf_get_byte-cons, buf_get_word-cons}
use libpccc.Addr.{addr_encode, addr_decode}

-- A word in link order, least significant byte first.
abbrev pub link16 : ℕ → List ℕ
link16 w = w % 2 ^ 8 ∷ w / 2 ^ 8 ∷ []

-- One byte for an address below 255, else the byte 255 and the address in link order.
abbrev pub element : ℕ → List ℕ
element addr = if ltb 254 addr then 0xff ∷ link16 addr else addr ∷ []

pub link_word-Appends :
    {b : Buf} (w : ℕ)
    → IsValid b
    → w < 2 ^ 16
    → Appends b (link16 w) (buf_append_word little_endian b (htols little_endian w))
link_word-Appends {b} w v h =
    rw (store-htols w 0 h (omega arith)).0 at (word-Appends v little_endian (htols little_endian w))

-- `addr_encode` writes the address in this form, or fails because it does not fit.
pub addr_encode-Appends :
    {b : Buf} (addr : ℕ)
    → IsValid b
    → addr < 2 ^ 16
    → Appends b (element addr) (addr_encode little_endian b addr)
unfolding addr_encode
addr_encode-Appends {b} addr v h = elim (Bool-cases (ltb 254 addr)) [
  | inl long ↦ rw long (
      or_else-Appends (λ b'. buf_append_word little_endian b' (htols little_endian addr))
        (buf_append_byte b 0xff) (byte-Appends v 0xff) (λ b' v'. link_word-Appends addr v' h))
  | inr short ↦ let e : addr % 2 ^ 8 ≡ addr = ground arith in rw (short, e) (byte-Appends v addr)
]

-- `addr_decode` reads back an address that `addr_encode` wrote, and nothing beyond it.
pub addr_decode-element :
    {b : Buf} (addr : ℕ) (rest : List ℕ)
    → IsValid b
    → addr < 2 ^ 16
    → unread b ≡ element addr ++ rest
    → let (b', r) = addr_decode little_endian b in (r ≡ some addr) × IsValid b' × (unread b' ≡ rest)
unfolding addr_decode ltohs
addr_decode-element {b} addr rest v h e = elim (Bool-cases (ltb 254 addr)) [
  | inl long ↦
      let e' : unread b ≡ 0xff ∷ addr % 2 ^ 8 ∷ addr / 2 ^ 8 ∷ rest = rw long at e in
      let first = buf_get_byte-cons v e' in
      let word = buf_get_word-cons little_endian first.2 first.1 in
      rw (first.0, word.0) (ap some (omega arith), word.2, word.1)
  | inr short ↦
      let e' : unread b ≡ addr ∷ rest = rw short at e in
      let first = buf_get_byte-cons v e' in
      let ne : (addr == 0xff) ≡ false = ground arith in rw (first.0, ne) (refl, first.2, first.1)
]
