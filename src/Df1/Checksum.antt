-- ===== src/Df1/Checksum.antt =====
-- df1d/df1.h, CRC_ADD, and the checksum functions of df1d/rx.c. `x % 2` is `x & 1`.
use libpccc.Common.{ℕ, zero, suc, ◌+◌, ◌-◌, ◌/◌, ◌%◌, Bool, ◌==◌, if◌then◌else◌, bit_xor, u8, u16}
use libpccc.Df1.State.{Conn}

-- The `i` rounds of the macro's loop; `crc` is a `uint16_t`.
unfoldable pub crc_rounds : ℕ → ℕ → ℕ
crc_rounds zero crc = crc
crc_rounds (suc i) crc =
    crc_rounds i (if crc % 2 == 1 then u16 (bit_xor (crc / 2) 0xa001) else crc / 2)

unfoldable pub crc_add : ℕ → ℕ → ℕ
unfolding crc_rounds
crc_add crc val = u16 (crc_rounds 8 (u16 (bit_xor crc val)))

unfoldable pub bcc_add : ℕ → ℕ → ℕ
bcc_add bcc x = u8 (bcc + x)

-- `~bcc + 1` as a `uint8_t`
unfoldable pub bcc_close : ℕ → ℕ
bcc_close bcc = u8 (255 - u8 bcc + 1)

unfoldable pub cs_clear : Conn → Conn
cs_clear conn = record conn { rx = record (conn.rx) { acc_cs = 0 } }

unfoldable pub cs_add : Conn → ℕ → Conn
cs_add conn x = record conn {
  rx = record (conn.rx) {
    acc_cs = if conn.use_crc then crc_add conn.rx.acc_cs x else bcc_add conn.rx.acc_cs x;
  };
}

unfoldable pub cs_ok : Conn → Bool
cs_ok conn = (if conn.use_crc then conn.rx.acc_cs else bcc_close conn.rx.acc_cs) == conn.rx.msg_cs
