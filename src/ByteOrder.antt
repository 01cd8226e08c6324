-- ===== src/ByteOrder.antt =====
-- byteorder.c: 16 and 32 bit words between link order (least significant byte first) and the
-- host's order. `BYTE_ORDER` is an argument. A word is its value; `host_byte` is the byte that the
-- C code reads through a `uint8_t *` to the word.
use libpccc.Common.{ℕ, ◌+◌, ◌-◌, ◌*◌, ◌/◌, ◌%◌, ◌^◌, List, [], ◌∷◌, u16, u32}
pub mod Order

pub data Endian : Type 0 where
  little_endian big_endian : Endian

-- The byte at offset `i` of a word of `width` bytes in memory.
abbrev pub host_byte : Endian → ℕ → ℕ → ℕ → ℕ
host_byte little_endian width w i = w / 2 ^ (8 * i) % 2 ^ 8
host_byte big_endian width w i = w / 2 ^ (8 * (width - 1 - i)) % 2 ^ 8

-- A word as it stands in memory, and the word that a load of such bytes gives.
abbrev pub store16 : Endian → ℕ → List ℕ
store16 e w = host_byte e 2 w 0 ∷ host_byte e 2 w 1 ∷ []

abbrev pub load16 : Endian → ℕ → ℕ → ℕ
load16 little_endian b0 b1 = b0 + b1 * 2 ^ 8
load16 big_endian b0 b1 = b0 * 2 ^ 8 + b1

abbrev pub store32 : Endian → ℕ → List ℕ
store32 e w = host_byte e 4 w 0 ∷ host_byte e 4 w 1 ∷ host_byte e 4 w 2 ∷ host_byte e 4 w 3 ∷ []

abbrev pub load32 : Endian → ℕ → ℕ → ℕ → ℕ → ℕ
load32 little_endian b0 b1 b2 b3 = b0 + b1 * 2 ^ 8 + b2 * 2 ^ 16 + b3 * 2 ^ 24
load32 big_endian b0 b1 b2 b3 = b0 * 2 ^ 24 + b1 * 2 ^ 16 + b2 * 2 ^ 8 + b3

unfoldable pub ltohs : Endian → ℕ → ℕ
ltohs little_endian linkshort = linkshort
ltohs big_endian linkshort =
    u16 (host_byte big_endian 2 linkshort 0 + host_byte big_endian 2 linkshort 1 * 2 ^ 8)

unfoldable pub htols : Endian → ℕ → ℕ
htols little_endian hostshort = hostshort
htols big_endian hostshort =
    u16 (host_byte big_endian 2 hostshort 0 * 2 ^ 8 + host_byte big_endian 2 hostshort 1)

unfoldable pub ltohl : Endian → ℕ → ℕ
ltohl little_endian linklong = linklong
ltohl big_endian linklong =
    let b : ℕ → ℕ = host_byte big_endian 4 linklong in
    u32 (b 0 + b 1 * 2 ^ 8 + b 2 * 2 ^ 16 + b 3 * 2 ^ 24)

-- `htonl` of the C library is the identity on a big-endian host, the only one that calls it here.
unfoldable pub htoll : Endian → ℕ → ℕ
htoll little_endian hostlong = hostlong
htoll big_endian hostlong =
    let b : ℕ → ℕ = host_byte big_endian 4 hostlong in
    u32 (b 0 * 2 ^ 24 + b 1 * 2 ^ 16 + b 2 * 2 ^ 8 + b 3)
