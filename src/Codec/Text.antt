-- ===== src/Codec/Text.antt =====
-- lib/pccc.h, PCCC_STR_T, and lib/data.c, `enc_str` and `dec_str`. `x % 2` is `x & 1`.
use libpccc.Common.{
  ℕ, zero, suc, ◌+◌, ◌-◌, ◌%◌, Bool, true, false, ◌&&◌, ◌||◌, List, get_or, set, ltb, ◌==◌,
  if◌then◌else◌,
}
use libpccc.ByteOrder.{Endian, htols, ltohs}
use libpccc.Buf.{Buf, buf_append_word, buf_append_byte, buf_get_word, buf_get_byte, ◌and_also◌}
use libpccc.Ret.{Ret, eparam, or_overflow}
use libpccc.Codec.Elements.{or_keep, overflow_ret}

-- `txt` is an array of 83 characters.
pub record Str : Type 0 where
  pub len : ℕ
  pub txt : List ℕ

-- PCCC_STR_T holds at most 82 characters.
abbrev pub max_text : ℕ
max_text = 82

-- The loop that appends the text, from character `i` on, each pair swapped. It returns the `i` at
-- which it stops, the buffer and the overflow flag. The fuel bounds its rounds.
unfoldable pub enc_text : ℕ → ℕ → Str → Buf × Bool → ℕ × (Buf × Bool)
enc_text zero i s r = (i, r)
enc_text (suc fuel) i s r =
    let last : Bool = (i + 1 == s.len) && ((i + 1) % 2 == 1) in
    let c : ℕ = if i % 2 == 1 then get_or s.txt (i - 1) 0 else get_or s.txt (i + 1) 0 in
    let rest : ℕ × (Buf × Bool) = enc_text fuel (if last then i + 2 else i + 1) s (
      if last
      then r
        and_also (λ b. buf_append_byte b 0)
        and_also (λ b. buf_append_byte b (get_or s.txt i 0))
      else r and_also (λ b. buf_append_byte b c)) in
    if ltb i s.len then rest else (i, r)

-- The loop that appends `n` zeros.
unfoldable pub pad : ℕ → Buf × Bool → Buf × Bool
pad zero r = r
pad (suc n) r = pad n (r and_also (λ b. buf_append_byte b 0))

unfoldable pub enc_str : Endian → Buf → Str → Buf × Ret
enc_str e dest s =
    if ltb max_text s.len
    then (dest, eparam)
    else (let (i, r) = enc_text (suc s.len) 0 s (buf_append_word e dest (htols e s.len)) in
        or_overflow (pad (max_text - i) r))

-- The loop of `dec_str` from character `i` on, with `n` rounds left of the 82; it ends early at
-- the end of the buffer. `c` is the value of the uninitialised `c` of a round.
unfoldable pub dec_text : ℕ → ℕ → ℕ → Buf → List ℕ → Buf × List ℕ × Bool
dec_text zero i junk src txt = (src, txt, false)
dec_text (suc n) i junk src txt =
    let (src', c, overflow) = or_keep junk (buf_get_byte src) in
    let txt' : List ℕ = set txt (if i % 2 == 1 then i - 1 else i + 1) c in
    let rest : Buf × List ℕ × Bool = dec_text n (i + 1) junk src' txt' in
    if overflow then (src', txt', true) else rest

unfoldable pub dec_str : Endian → Buf → Str → ℕ → Buf × Str × Ret
dec_str e src dest junk =
    let (s1, word, overflow) = or_keep junk (buf_get_word e src) in
    let len : ℕ = if ltb max_text (ltohs e word) then max_text else ltohs e word in
    let (s2, txt, overflow') = dec_text (if overflow then 0 else max_text) 0 junk s1 dest.txt in
    (s2, record { len = len; txt = set txt len 0 }, overflow_ret (overflow || overflow'))
