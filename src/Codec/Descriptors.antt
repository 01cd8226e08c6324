-- ===== src/Codec/Descriptors.antt =====
-- lib/data.c: the type/data descriptors. A number is a `uint64_t`; `x % 2 ^ 8` is `x & 0xff`.
use libpccc.Common.{
  ℕ, zero, suc, ◌+◌, ◌-◌, ◌*◌, ◌/◌, ◌%◌, ◌^◌, Bool, true, false, not, ◌||◌, Option, none, some, ltb,
  ◌==◌, if◌then◌else◌, bit_and, bit_or, u8, set, get_or,
}
use libpccc.Buf.{Buf, buf_append_byte, buf_get_byte}
use libpccc.Ret.{Ret, success, eparam, eoverflow}

-- The loop `for (i = 0; x; i++)`, from `i` on; `none` when the buffer is full. The fuel bounds its
-- rounds: eight shifts clear any `uint64_t`.
unfoldable pub enc_td_loop : ℕ → ℕ → ℕ → Buf → Buf × Option ℕ
enc_td_loop zero x i dst = (dst, some (i + 1))
enc_td_loop (suc fuel) x i dst =
    let (dst', full) = buf_append_byte dst (x % 2 ^ 8) in
    let rest : Buf × Option ℕ = enc_td_loop fuel (x / 2 ^ 8) (i + 1) dst' in
    if x == 0 then (dst, some (i + 1)) else if full then (dst', none) else rest

-- It returns `i + 1`.
unfoldable pub enc_td_param : Buf → ℕ → Buf × Option ℕ
enc_td_param dst x = enc_td_loop 8 x 0 dst

-- What stands in front of a buffer's block, in the header `BUF`, of which the repository does not
-- hold the layout: what a byte written right there does, and which byte is read there.
pub record Front : Type 0 where
  pub write : ℕ → Buf → Buf
  pub read : Buf → ℕ

-- `*flag = v` and `*flag`, where `flag` points to the cell `i - 1`, which for `i = 0` is in front of
-- the block.
abbrev pub write_flag : Front → ℕ → ℕ → Buf → Buf
write_flag front i v dst =
    if i == 0 then front.write v dst else record dst { cells = set dst.cells (i - 1) v }

abbrev pub flag_at : Front → ℕ → Buf → ℕ
flag_at front i dst = if i == 0 then front.read dst else get_or dst.cells (i - 1) 0

-- `*flag |= v`
abbrev pub or_flag : Front → ℕ → ℕ → Buf → Buf
or_flag front i v dst = write_flag front i (u8 (bit_or (flag_at front i dst) v)) dst

-- A value of eight or more goes behind the flag byte, which gets its length; `place` moves that to
-- the value's nibble. The buffer, and whether it is full.
abbrev pub enc_long : Front → ℕ → (ℕ → ℕ) → ℕ → Buf → Buf × Bool
enc_long front i place x dst =
    let (dst', bytes) = enc_td_param dst x in
    elim bytes [ none ↦ (dst', true) | some n ↦ (or_flag front i (place n) dst', false) ]

abbrev pub upper : ℕ → ℕ
upper n = n * 2 ^ 4

abbrev pub lower : ℕ → ℕ
lower n = n

abbrev pub enc_type : Front → ℕ → ℕ → Buf → Buf × Bool
enc_type front i type dst =
    let long : Buf × Bool = enc_long front i upper type (write_flag front i 0x80 dst) in
    if ltb type 8 then (write_flag front i (upper type) dst, false) else long

abbrev pub enc_size : Front → ℕ → ℕ → Buf → Buf × Bool
enc_size front i size dst =
    let long : Buf × Bool = enc_long front i lower size (or_flag front i 0x08 dst) in
    if ltb size 8 then (or_flag front i size dst, false) else long

-- `flag` is set once, behind the append, and points in front of the read index.
unfoldable pub data_enc_td : Front → Buf → ℕ → ℕ → Buf × Ret
data_enc_td front dst type size =
    let (dst1, full) = buf_append_byte dst 0 in
    let (dst2, full2) = enc_type front dst1.index type dst1 in
    let (dst3, full3) = enc_size front dst1.index size dst2 in
    if not (type / 2 ^ 56 == 0)
    then (dst, eparam)
    else if not (size / 2 ^ 56 == 0)
    then (dst, eparam)
    else if full
    then (dst1, eoverflow)
    else if full2
    then (dst2, eoverflow)
    else if full3
    then (dst3, eoverflow)
    else (dst3, success)

-- `b << i * 8` for an `int`, as a `uint64_t`: the fourth byte moves into the sign. From the fifth
-- byte on C leaves the shift undefined, and `wide` says what it gives.
abbrev pub shifted : (ℕ → ℕ → ℕ) → ℕ → ℕ → ℕ
shifted wide b i =
    if ltb i 3
    then b * 2 ^ (8 * i)
    else if i == 3
    then (if ltb b 128 then b * 2 ^ 24 else b * 2 ^ 24 + (2 ^ 64 - 2 ^ 32))
    else wide b i

-- The loop of `dec_td_param` with `n` rounds left; the value, and whether the buffer has ended.
unfoldable pub dec_td_loop : (ℕ → ℕ → ℕ) → ℕ → ℕ → ℕ → Buf → Buf × ℕ × Bool
dec_td_loop wide zero i x src = (src, x, false)
dec_td_loop wide (suc n) i x src =
    let (src', next) = buf_get_byte src in
    elim next [
      | none ↦ (src', x, true)
      | some b ↦ dec_td_loop wide n (i + 1) (bit_or x (shifted wide b i)) src'
    ]

unfoldable pub dec_td_param : (ℕ → ℕ → ℕ) → Buf → ℕ → Buf × ℕ × Bool
dec_td_param wide src bytes = dec_td_loop wide bytes 0 0 src

-- One half: the flag byte's nibble says that the value is in the next bytes, or holds the value.
abbrev pub dec_half : (ℕ → ℕ → ℕ) → Bool → ℕ → Buf → Buf × ℕ × Bool
dec_half wide extended nibble src =
    let long : Buf × ℕ × Bool = dec_td_param wide src nibble in
    if extended then long else (src, nibble, false)

-- The type, the size, and whether the buffer ended before them.
unfoldable pub data_dec_td : (ℕ → ℕ → ℕ) → Buf → Buf × ℕ × ℕ × Bool
data_dec_td wide src =
    let (src1, first) = buf_get_byte src in
    let flag : ℕ = elim first [ none ↦ 0 | some b ↦ b ] in
    let ended : Bool = elim first [ none ↦ true | some b ↦ false ] in
    let (src2, type, ended2) =
      dec_half wide (not (bit_and flag 0x80 == 0)) (bit_and flag 0x70 / 2 ^ 4) src1 in
    let (src3, size, ended3) =
      dec_half wide (not (bit_and flag 0x08 == 0)) (bit_and flag 0x07) src2 in
    (src3, type, size, ended || ended2 || ended3)
