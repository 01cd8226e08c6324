-- ===== src/Codec/Interface.antt =====
-- lib/data.c: what an encoder and its decoder promise each other.
use libpccc.Common.{ℕ, ◌≡◌, List, ◌++◌}
use libpccc.Buf.{Buf, unread}
use libpccc.Buf.Invariant.{IsValid}
use libpccc.Ret.{Ret, success}
use libpccc.Ret.Encodes.{Encodes}

-- The encoder writes the bytes of an element in range; the decoder reads such bytes, and no
-- others, into a slot, which then holds the same element.
pub record IsCodec {A : Type 0} (enc : Buf → A → Buf × Ret) (dec : Buf → A → Buf × A × Ret)
    (bytes : A → List ℕ) (InRange Slot : A → Type 0) (Same : A → A → Type 0) : Type 0 where
  pub writes : {b : Buf} (a : A) → InRange a → IsValid b → Encodes b (bytes a) (enc b a)
  pub reads :
      {b : Buf} (a old : A) (rest : List ℕ)
      → InRange a
      → Slot old
      → IsValid b
      → unread b ≡ bytes a ++ rest
      → let (b', a', r) = dec b old in (r ≡ success) × Same a' a × IsValid b' × (unread b' ≡ rest)
