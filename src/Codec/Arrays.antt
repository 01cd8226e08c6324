-- ===== src/Codec/Arrays.antt =====
-- lib/pccc.h, PCCC_FT_T, and lib/data.c, `data_enc_array` and `data_dec_array`. The user's array
-- behind `udata` is the list of its elements.
use libpccc.Common.{ℕ, Option, none, some, List, [], ◌∷◌}
use libpccc.ByteOrder.{Endian}
use libpccc.Buf.{Buf}
use libpccc.Ret.{Ret, success, eparam}
use libpccc.Codec.Elements.{
  Timer, Counter, Control, enc_int, enc_timer, enc_counter, enc_control, enc_float, dec_int,
  dec_timer, dec_counter, dec_control, dec_float,
}
use libpccc.Codec.Text.{Str, enc_str, dec_str}

-- PCCC_FT_OUT and PCCC_FT_IN are `outp` and `inp`.
pub data FileType : Type 0 where
  stat bin timer count ctl int float outp inp str asc bcd : FileType

-- The element type of a file; of a file that is not supported, any number.
abbrev pub Value : FileType → Type 0
Value timer = Timer
Value count = Counter
Value ctl = Control
Value str = Str
Value _ = ℕ

-- The `switch` that chooses the encoder.
abbrev pub encoder : Endian → (t : FileType) → Option (Buf → Value t → Buf × Ret)
encoder e bin = some (enc_int e)
encoder e int = some (enc_int e)
encoder e stat = some (enc_int e)
encoder e timer = some (enc_timer e)
encoder e count = some (enc_counter e)
encoder e ctl = some (enc_control e)
encoder e float = some (enc_float e)
encoder e str = some (enc_str e)
encoder e outp = none
encoder e inp = none
encoder e asc = none
encoder e bcd = none

abbrev pub decoder : Endian → ℕ → (t : FileType) → Option (Buf → Value t → Buf × Value t × Ret)
decoder e junk bin = some (dec_int e)
decoder e junk int = some (dec_int e)
decoder e junk stat = some (dec_int e)
decoder e junk timer = some (λ b _. dec_timer e b junk)
decoder e junk count = some (λ b _. dec_counter e b junk)
decoder e junk ctl = some (λ b _. dec_control e b junk)
decoder e junk float = some (dec_float e)
decoder e junk str = some (λ b old. dec_str e b old junk)
decoder e junk outp = none
decoder e junk inp = none
decoder e junk asc = none
decoder e junk bcd = none

module _ {A : Type 0} where
  -- `while (elements--)`, left at the first element that fails.
  unfoldable pub enc_all : (Buf → A → Buf × Ret) → List A → Buf → Buf × Ret
  enc_all enc [] b = (b, success)
  enc_all enc (x ∷ xs) b =
      let r : Buf × Ret = enc b x in elim r.1 [ success ↦ enc_all enc xs r.0 | _ ↦ r ]

  unfoldable pub dec_all : (Buf → A → Buf × A × Ret) → List A → Buf → Buf × List A × Ret
  dec_all dec [] b = (b, [], success)
  dec_all dec (old ∷ olds) b =
      let (b', x, ret) = dec b old in
      let (b'', xs, ret') = dec_all dec olds b' in
      elim ret [ success ↦ (b'', x ∷ xs, ret') | failure ↦ (b', x ∷ olds, failure) ]

  -- `data_enc_array` returns -1, which is no PCCC_RET_T, at an unsupported type: `none` here.
  abbrev pub enc_with : Option (Buf → A → Buf × Ret) → List A → Buf → Buf × Option Ret
  enc_with none xs b = (b, none)
  enc_with (some enc) xs b = let (b', ret) = enc_all enc xs b in (b', some ret)

  abbrev pub dec_with : Option (Buf → A → Buf × A × Ret) → List A → Buf → Buf × List A × Ret
  dec_with none olds b = (b, olds, eparam)
  dec_with (some dec) olds b = dec_all dec olds b

unfoldable pub data_enc_array : Endian → (t : FileType) → List (Value t) → Buf → Buf × Option Ret
data_enc_array e t xs b = enc_with (encoder e t) xs b

unfoldable pub data_dec_array :
    Endian → ℕ → (t : FileType) → List (Value t) → Buf → Buf × List (Value t) × Ret
data_dec_array e junk t olds b = dec_with (decoder e junk t) olds b
