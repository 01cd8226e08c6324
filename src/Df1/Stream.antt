-- ===== src/Df1/Stream.antt =====
-- df1d/conn.c and df1d/rx.c: the nested loops of `parse_tty_data` and `rx_msg` over the TTY's
-- buffer are one machine that takes a byte at a time.
pub mod Rounds
pub mod Bytes
pub mod Parse
pub mod Split
