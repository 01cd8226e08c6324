-- ===== src/Ret.antt =====
-- lib/pccc.h: what the functions of the library return.
use libpccc.Common.{Bool, true, false}
use libpccc.Buf.{Buf}
pub mod Encodes

pub data Ret : Type 0 where
  success wready enocon elink eparam efatal eoverflow : Ret
  ecmd_nobuf ecmd_nodeliver ecmd_timeout ecmd_reply : Ret

-- What the encoders return of a chain of appends: a failed one means that the buffer is full.
abbrev pub or_overflow : Buf × Bool → Buf × Ret
or_overflow (dst, true) = (dst, eoverflow)
or_overflow (dst, false) = (dst, success)
