-- ===== src/Addr.antt =====
-- lib/addr.c: data table addresses as they stand in command messages. The texts that the functions
-- leave in `err` are not modelled.
use libpccc.Common.{
  ℕ, zero, suc, ◌+◌, ◌/◌, ◌^◌, ◌%◌, Bool, true, false, not, ◌&&◌, Option, none, some, List, [], ◌∷◌,
  length, get_or, ltb, leb, ◌==◌, if◌then◌else◌, bit_and, bit_or, u8,
}
use mathlib.Core.Option
use libpccc.ByteOrder.{Endian, htols, ltohs}
use libpccc.Buf.{
  Buf, buf_append_byte, buf_append_word, buf_append_str, buf_get_byte, buf_get_word, ◌or_else◌,
}
use libpccc.Ret.{Ret, eparam, or_overflow}
pub mod Element
pub mod Plc
mod Tests

unfoldable pub addr_encode : Endian → Buf → ℕ → Buf × Bool
addr_encode e dest addr =
    if ltb 254 addr
    then buf_append_byte dest 0xff or_else (λ b. buf_append_word e b (htols e addr))
    else buf_append_byte dest (u8 addr)

-- What follows the first byte of an address.
unfoldable pub addr_decode_rest : Endian → Buf × Option ℕ → Buf × Option ℕ
addr_decode_rest e (src, none) = (src, none)
addr_decode_rest e (src, some first_byte) =
    if first_byte == 0xff
    then (let (src', word) = buf_get_word e src in (src', Option.map (ltohs e) word))
    else (src, some first_byte)

unfoldable pub addr_decode : Endian → Buf → Buf × Option ℕ
unfolding addr_decode_rest
addr_decode e src = addr_decode_rest e (buf_get_byte src)

-- `struct pccc_plc_lba`: seven levels, of which `num_lvl` are used.
pub record Lba : Type 0 where
  pub num_lvl : ℕ
  pub lvl : List ℕ

pub data PlcAddr : Type 0 where
  bin : Lba → PlcAddr
  ascii : List ℕ → PlcAddr
  other : PlcAddr

-- The loop `for (i = num_lvl; i--;)` that assembles the mask; `none` at an illegal level.
unfoldable pub lba_mask : ℕ → List ℕ → ℕ → Option ℕ
lba_mask zero lvl mask = some mask
lba_mask (suc i) lvl mask =
    if ltb 999 (get_or lvl i 0) then none else lba_mask i lvl (u8 (bit_or mask (2 ^ i)))

-- The loop `for (i = 0; mask; i++)`, on fuel: eight shifts clear any `uint8_t`.
unfoldable pub append_lvls_from : ℕ → Endian → ℕ → ℕ → List ℕ → Buf → Buf × Bool
append_lvls_from zero e i mask lvls dst = (dst, false)
append_lvls_from (suc fuel) e i mask lvls dst =
    let next : Buf → Buf × Bool = append_lvls_from fuel e (i + 1) (mask / 2) lvls in
    if mask == 0
    then (dst, false)
    else if bit_and mask 1 == 1
    then addr_encode e dst (get_or lvls i 0) or_else next
    else next dst

unfoldable pub append_lvls : Endian → Buf → ℕ → List ℕ → Buf × Bool
unfolding append_lvls_from
append_lvls e dst mask lvls = append_lvls_from 8 e 0 mask lvls dst

unfoldable pub enc_plc_lba : Endian → Buf → Lba → Buf × Ret
unfolding lba_mask append_lvls
enc_plc_lba e dst adr =
    if adr.num_lvl == 0
    then (dst, eparam)
    else if ltb 7 adr.num_lvl
    then (dst, eparam)
    else elim (lba_mask adr.num_lvl adr.lvl 0) [
      | none ↦ (dst, eparam)
      | some mask ↦
          or_overflow (buf_append_byte dst mask or_else (λ b. append_lvls e b mask adr.lvl))
    ]

-- PCCC_PLC_LAA_LEN
abbrev pub plc_laa_len : ℕ
plc_laa_len = 16

unfoldable pub enc_plc_laa : Buf → List ℕ → Buf × Ret
enc_plc_laa dst adr =
    if leb plc_laa_len (length adr)
    then (dst, eparam)
    else if length adr == 0
    then (dst, eparam)
    else or_overflow (
        buf_append_byte dst 0
        or_else (λ b. buf_append_byte b b'$')
        or_else (λ b. buf_append_str b adr)
        or_else (λ b. buf_append_byte b 0))

unfoldable pub addr_enc_plc : Endian → Buf → PlcAddr → Buf × Ret
unfolding enc_plc_lba enc_plc_laa
addr_enc_plc e dst (bin lba) = enc_plc_lba e dst lba
addr_enc_plc e dst (ascii text) = enc_plc_laa dst text
addr_enc_plc e dst other = (dst, eparam)
