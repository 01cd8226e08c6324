-- ===== src/Addr/Tests.antt =====
-- lib/addr.c on concrete addresses.
use libpccc.Common.{◌≡◌, refl, some, [], ◌∷◌, arith, replicate}
use libpccc.ByteOrder.{little_endian}
use libpccc.Buf.{Buf, unread}
use libpccc.Buf.Invariant.{IsValid}
use libpccc.Buf.Encode.{Appends}
use libpccc.Ret.Encodes.{Answers}
use libpccc.Addr.{PlcAddr, bin, addr_encode, addr_decode, addr_enc_plc}
use libpccc.Addr.Element.{addr_encode-Appends, addr_decode-element}
use libpccc.Addr.Plc.{addr_enc_plc-Answers}

abbrev room : Buf
room = record { cells = replicate 20 0; max = 20; len = 0; index = 0 }

room-IsValid : IsValid room
room-IsValid = record {
  storage = refl;
  small = omega arith;
  filled = omega arith;
  read = omega arith;
}

-- The address 300 and one more byte.
abbrev coded : Buf
coded = record { cells = 0xff ∷ 0x2c ∷ 0x01 ∷ 9 ∷ []; max = 4; len = 4; index = 0 }

coded-IsValid : IsValid coded
coded-IsValid = record {
  storage = refl;
  small = omega arith;
  filled = omega arith;
  read = omega arith;
}

addr_encode-Appends_example :
    Appends room (0xff ∷ 0x2c ∷ 0x01 ∷ []) (addr_encode little_endian room 300)
addr_encode-Appends_example = addr_encode-Appends 300 room-IsValid (omega arith)

addr_decode-element_example :
    let (b', r) = addr_decode little_endian coded in
    (r ≡ some 300) × IsValid b' × (unread b' ≡ 9 ∷ [])
addr_decode-element_example = addr_decode-element 300 (9 ∷ []) coded-IsValid (omega arith) refl

-- N7:300, as the levels 0, 7 and 300
abbrev n7_300 : PlcAddr
n7_300 = bin (record { num_lvl = 3; lvl = 0 ∷ 7 ∷ 300 ∷ 0 ∷ 0 ∷ 0 ∷ 0 ∷ [] })

addr_enc_plc-Answers_example :
    Answers room
      (some (7 ∷ 0 ∷ 7 ∷ 0xff ∷ 0x2c ∷ 0x01 ∷ []))
      (addr_enc_plc little_endian room n7_300)
addr_enc_plc-Answers_example = addr_enc_plc-Answers n7_300 room-IsValid
