-- ===== src/ByteOrder/Order.antt =====
-- byteorder.c: which bytes go to the link, and which word comes from it.
use libpccc.Common.{ℕ, ◌+◌, ◌*◌, ◌/◌, ◌%◌, ◌^◌, ◌<◌, ◌≡◌, [], ◌∷◌, arith}
use libpccc.ByteOrder.{
  Endian, little_endian, big_endian, store16, store32, load16, load32, ltohs, htols, ltohl, htoll,
}

-- Whatever the host, `ltohs` of two bytes loaded from a link buffer is the word that they encode
-- least significant byte first, and `ltohl` does the same for four bytes.
pub ltohs_load :
    (e : Endian) (b0 b1 b2 b3 : ℕ)
    → b0 < 2 ^ 8
    → b1 < 2 ^ 8
    → b2 < 2 ^ 8
    → b3 < 2 ^ 8
    → (ltohs e (load16 e b0 b1) ≡ b0 + b1 * 2 ^ 8)
      × (ltohl e (load32 e b0 b1 b2 b3) ≡ b0 + b1 * 2 ^ 8 + b2 * 2 ^ 16 + b3 * 2 ^ 24)
unfolding ltohs ltohl
ltohs_load little_endian b0 b1 b2 b3 h0 h1 h2 h3 = omega arith
ltohs_load big_endian b0 b1 b2 b3 h0 h1 h2 h3 = omega arith

-- On a little-endian host `htols` puts a word on the link least significant byte first, and `htoll`
-- a word of 32 bits. On a big-endian host both leave the word as it is, so that the bytes go out in
-- the opposite order.
pub store-htols :
    (w l : ℕ)
    → w < 2 ^ 16
    → l < 2 ^ 32
    → (store16 little_endian (htols little_endian w) ≡ w % 2 ^ 8 ∷ w / 2 ^ 8 ∷ [])
      × (store16 big_endian (htols big_endian w) ≡ w / 2 ^ 8 ∷ w % 2 ^ 8 ∷ [])
      × (store32 little_endian (htoll little_endian l)
          ≡ l % 2 ^ 8 ∷ l / 2 ^ 8 % 2 ^ 8 ∷ l / 2 ^ 16 % 2 ^ 8 ∷ l / 2 ^ 24 ∷ [])
      × (store32 big_endian (htoll big_endian l)
          ≡ l / 2 ^ 24 ∷ l / 2 ^ 16 % 2 ^ 8 ∷ l / 2 ^ 8 % 2 ^ 8 ∷ l % 2 ^ 8 ∷ [])
      × (htoll big_endian l ≡ l)
unfolding htols htoll
store-htols w l h k =
    let same : htoll big_endian l ≡ l = omega arith in
    (ground arith, ground arith, ground arith, rw same (ground arith), same)
