-- ===== src/Buf/Tests.antt =====
-- buf.c and byteorder.c on concrete buffers.
use libpccc.Common.{◌≡◌, refl, not, some, [], ◌∷◌, arith, length, ◌==◌, ◌*◌, ◌+◌, ◌^◌}
use libpccc.ByteOrder.{
  little_endian, big_endian, store16, store32, load16, load32, ltohs, htols, ltohl, htoll,
}
use libpccc.ByteOrder.Order.{ltohs_load, store-htols}
use libpccc.Buf.{Buf, interrupted, moved, unread, buf_read, buf_write, buf_write_ready}
use libpccc.Buf.Invariant.{IsValid}
use libpccc.Buf.Transfer.{buf_read_lem, buf_write_lem}

abbrev half_read : Buf
half_read = record { cells = 7 ∷ 8 ∷ 9 ∷ 0 ∷ []; max = 4; len = 3; index = 1 }

half_read-IsValid : IsValid half_read
half_read-IsValid = record {
  storage = refl;
  small = omega arith;
  filled = omega arith;
  read = omega arith;
}

buf_read_lem_example :
    (b' : Buf) × (buf_read (interrupted ∷ moved (1 ∷ 2 ∷ []) ∷ []) half_read ≡ (b', some 2))
    × IsValid b'
    × (unread b' ≡ 1 ∷ 2 ∷ [])
buf_read_lem_example =
    buf_read_lem (interrupted ∷ []) (1 ∷ 2 ∷ []) [] half_read half_read-IsValid (omega arith)

buf_write_lem_example :
    let (b', r) = buf_write (moved 1 ∷ []) half_read in
    (r ≡ some 1)
    × IsValid b'
    × (unread b' ≡ 9 ∷ [])
    × (buf_write_ready b' ≡ not (length (unread b') == 0))
buf_write_lem_example = buf_write_lem 1 [] half_read-IsValid (omega arith)

ltohs_load_example :
    (ltohs big_endian (load16 big_endian 0x34 0x12) ≡ 0x34 + 0x12 * 2 ^ 8)
    × (ltohl big_endian (load32 big_endian 0x34 0x12 0 1)
        ≡ 0x34 + 0x12 * 2 ^ 8 + 0 * 2 ^ 16 + 1 * 2 ^ 24)
ltohs_load_example =
    ltohs_load big_endian 0x34 0x12 0 1 (omega arith) (omega arith) (omega arith) (omega arith)

store-htols_example :
    (store16 little_endian (htols little_endian 0x1234) ≡ 0x34 ∷ 0x12 ∷ [])
    × (store16 big_endian (htols big_endian 0x1234) ≡ 0x12 ∷ 0x34 ∷ [])
    × (store32 little_endian (htoll little_endian 0x12345678) ≡ 0x78 ∷ 0x56 ∷ 0x34 ∷ 0x12 ∷ [])
    × (store32 big_endian (htoll big_endian 0x12345678) ≡ 0x12 ∷ 0x34 ∷ 0x56 ∷ 0x78 ∷ [])
    × (htoll big_endian 0x12345678 ≡ 0x12345678)
store-htols_example = store-htols 0x1234 0x12345678 (omega arith) (omega arith)
