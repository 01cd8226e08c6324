-- ===== src/Codec/Stored.antt =====
-- lib/data.c: what `data_enc_array` writes, and what `data_dec_array` reads back.
use libpccc.Common.{◌≡◌, refl, true, [], ◌∷◌, ◌++◌, ℕ, List, length, some}
use libpccc.ByteOrder.{little_endian}
use libpccc.Buf.{Buf, unread}
use libpccc.Buf.Invariant.{IsValid}
use libpccc.Ret.{Ret, success}
use libpccc.Ret.Encodes.{Encodes}
use libpccc.Codec.Arrays.{
  stat, bin, timer, count, ctl, int, float, outp, inp, str, asc, bcd, FileType, Value,
  data_enc_array, data_dec_array,
}
use libpccc.Codec.ArrayLaws.{
  All, AllTwo, concat_bytes, bytes_of, InRange, Slot, Same, supported, array-IsStored,
}

slot : (t : FileType) (x : Value t) → InRange t x → Slot t x
slot stat x h = tt
slot bin x h = tt
slot int x h = tt
slot timer x h = tt
slot count x h = tt
slot ctl x h = tt
slot float x h = tt
slot outp x h = tt
slot inp x h = tt
slot str x h = h.1
slot asc x h = tt
slot bcd x h = tt

slots : (t : FileType) (xs : List (Value t)) → All (InRange t) xs → All (Slot t) xs
slots t [] h = h
slots t (x ∷ xs) h = (slot t x h.0, slots t xs h.1)

-- On a little-endian host, `data_enc_array` writes the elements of a supported type, all in range,
-- one behind the other, or fails with PCCC_EOVERFLOW because they do not fit.
pub data_enc_array-Encodes :
    (t : FileType) (xs : List (Value t)) {b : Buf}
    → supported t ≡ true
    → All (InRange t) xs
    → IsValid b
    → (r : Buf × Ret) × (data_enc_array little_endian t xs b ≡ (r.0, some r.1))
      × Encodes b (concat_bytes (bytes_of t) xs) r
data_enc_array-Encodes t xs s h v = (array-IsStored t 0 xs xs s refl h (slots t xs h)).writes v

-- On a little-endian host, `data_dec_array` reads elements of a supported type, all in range, that
-- `data_enc_array` wrote back into an array of as many elements, and nothing beyond them.
pub data_dec_array-reads :
    (t : FileType) (junk : ℕ) (xs olds : List (Value t)) (rest : List ℕ) {b : Buf}
    → supported t ≡ true
    → length xs ≡ length olds
    → All (InRange t) xs
    → All (Slot t) olds
    → IsValid b
    → unread b ≡ concat_bytes (bytes_of t) xs ++ rest
    → let (b', ys, r) = data_dec_array little_endian junk t olds b in
      (r ≡ success) × AllTwo (Same t) ys xs × IsValid b' × (unread b' ≡ rest)
data_dec_array-reads t junk xs olds rest s n h k v e =
    (array-IsStored t junk xs olds s n h k).reads rest v e
