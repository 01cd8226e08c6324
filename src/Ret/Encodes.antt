-- ===== src/Ret/Encodes.antt =====
-- What an encoder of addr.c or data.c promises.
use libpccc.Common.{
  ℕ, ◌+◌, ◌<◌, ◌≤◌, arith, ◌≡◌, refl, Bool, true, false, List, length, Option, none, some,
}
use libpccc.Buf.{Buf}
use libpccc.Buf.Invariant.{IsValid}
use libpccc.Buf.Encode.{Wrote, Appends, fits, overflows}
use libpccc.Ret.{Ret, success, eparam, eoverflow, or_overflow}

-- It succeeds and wrote the bytes, or it fails with PCCC_EOVERFLOW since they do not fit.
pub data Encodes (b : Buf) (xs : List ℕ) (r : Buf × Ret) : Type 0 where
  encoded : r.1 ≡ success → Wrote b xs r.0 → Encodes b xs r
  no_room :
      r.1 ≡ eoverflow → b.max < b.len + length xs → IsValid r.0 → r.0.max ≡ b.max → Encodes b xs r

pub or_overflow-Encodes :
    {b : Buf} {xs : List ℕ} (r : Buf × Bool) → Appends b xs r → Encodes b xs (or_overflow r)
or_overflow-Encodes (dst, true) (fits e w) = cc
or_overflow-Encodes (dst, false) (fits e w) = encoded refl w
or_overflow-Encodes (dst, true) (overflows e h v m) = no_room refl h v m
or_overflow-Encodes (dst, false) (overflows e h v m) = cc

-- Where the parameters have no encoding it fails with PCCC_EPARAM and leaves the buffer alone.
abbrev pub Answers : Buf → Option (List ℕ) → Buf × Ret → Type 0
Answers b none r = r ≡ (b, eparam)
Answers b (some xs) r = Encodes b xs r

-- An encoder whose bytes fit succeeds.
pub Encodes-room :
    {b : Buf} {xs : List ℕ} (r : Buf × Ret)
    → Encodes b xs r
    → b.len + length xs ≤ b.max
    → (r.1 ≡ success) × Wrote b xs r.0
Encodes-room r (encoded e w) h = (e, w)
Encodes-room r (no_room e k v m) h = absurd (omega arith)
