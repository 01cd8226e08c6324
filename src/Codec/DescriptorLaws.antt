-- ===== src/Codec/DescriptorLaws.antt =====
-- lib/data.c: the values of type/data descriptors do not read back.
use libpccc.Common.{
  ℕ, zero, suc, ◌+◌, ◌/◌, ◌%◌, ◌^◌, ◌≤◌, ◌<◌, ◌≡◌, refl, ap, sym, ◌∙◌, true, false, subst, bit_or,
  none, some, List, [], ◌∷◌, ◌++◌, arith, length, inl, inr, Bool-cases, List-cases, ltb, ◌==◌,
  if◌then◌else◌, ◌*◌, ◌-◌, set, get_or, get_or-set_self, length-set, drop, take, u8,
}
use libpccc.Buf.{Buf, unread, buf_append_byte, buf_get_byte}
use libpccc.Buf.Invariant.{IsValid}
use libpccc.Buf.Read.{advance, buf_get_byte-cons, buf_get_byte-nil}
use libpccc.Buf.Encode.{Wrote, Wrote-nil, Wrote-trans, byte-Appends, Appends-room, unread-Wrote}
use libpccc.Ret.{success}
use libpccc.Codec.Descriptors.{
  Front, shifted, enc_td_loop, enc_td_param, dec_td_loop, dec_td_param, data_enc_td,
}

-- The bytes of a number, least significant first, without zeros at the end.
abbrev pub digits : ℕ → ℕ → List ℕ
digits zero x = []
digits (suc fuel) x = if x == 0 then [] else x % 2 ^ 8 ∷ digits fuel (x / 2 ^ 8)

module _ (fuel x i : ℕ) (dst : Buf) where
  enc_td_loop_end : (x == 0) ≡ true → enc_td_loop (suc fuel) x i dst ≡ (dst, some (i + 1))
  unfolding enc_td_loop
  enc_td_loop_end h = rw h

  enc_td_loop_byte :
      (x == 0) ≡ false
      → (buf_append_byte dst (x % 2 ^ 8)).1 ≡ false
      → enc_td_loop (suc fuel) x i dst
        ≡ enc_td_loop fuel (x / 2 ^ 8) (i + 1) (buf_append_byte dst (x % 2 ^ 8)).0
  unfolding enc_td_loop
  enc_td_loop_byte h f = rw (h, f)

enc_td_loop_out : (x i : ℕ) (dst : Buf) → enc_td_loop zero x i dst ≡ (dst, some (i + 1))
unfolding enc_td_loop
enc_td_loop_out x i dst = refl

-- The loop returns one more than the number of the bytes that it has written.
abbrev Counts : ℕ → ℕ → ℕ → Buf → List ℕ → Type 0
Counts fuel x i dst l =
    (b : Buf) × (enc_td_loop fuel x i dst ≡ (b, some (i + length l + 1))) × Wrote dst l b

enc_td_loop-Wrote :
    (fuel x i : ℕ) {dst : Buf}
    → IsValid dst
    → dst.len + length (digits fuel x) ≤ dst.max
    → Counts fuel x i dst (digits fuel x)
enc_td_loop-Wrote zero x i {dst} v h =
    (dst, enc_td_loop_out x i dst ∙ ap (λ n. (dst, some n)) (omega arith), Wrote-nil v)
enc_td_loop-Wrote (suc fuel) x i {dst} v h = elim (Bool-cases (x == 0)) [
  | inl done ↦
      let none_left : digits (suc fuel) x ≡ [] = rw done in
      let stops : Counts (suc fuel) x i dst [] = (
        dst,
        enc_td_loop_end fuel x i dst done ∙ ap (λ n. (dst, some n)) (omega arith),
        Wrote-nil v,
      ) in
      subst (Counts (suc fuel) x i dst) (sym none_left) stops
  | inr more ↦
      let one_left : digits (suc fuel) x ≡ x % 2 ^ 8 ∷ digits fuel (x / 2 ^ 8) = rw more in
      let r =
        Appends-room (buf_append_byte dst (x % 2 ^ 8)) (byte-Appends v (x % 2 ^ 8))
          (omega (arith, ap (length {0}) one_left)) in
      let rest =
        enc_td_loop-Wrote fuel (x / 2 ^ 8) (i + 1) r.1.valid
          (omega (arith, r.1.new_len, r.1.same_max, ap (length {0}) one_left)) in
      let goes : Counts (suc fuel) x i dst (x % 2 ^ 8 ∷ digits fuel (x / 2 ^ 8)) = (
        rest.0,
        enc_td_loop_byte fuel x i dst more r.0 ∙ rest.1 ∙ ap (λ n. (rest.0, some n)) (omega arith),
        Wrote-trans r.1 rest.2,
      ) in
      subst (Counts (suc fuel) x i dst) (sym one_left) goes
]

dec_td_loop_end :
    (wide : ℕ → ℕ → ℕ) (n i x : ℕ) (b b' : Buf)
    → buf_get_byte b ≡ (b', none)
    → (dec_td_loop wide (suc n) i x b).2 ≡ true
unfolding dec_td_loop
dec_td_loop_end wide n i x b b' e = ground arith

dec_td_loop_byte :
    (wide : ℕ → ℕ → ℕ) (n i x y : ℕ) (b b' : Buf)
    → buf_get_byte b ≡ (b', some y)
    → dec_td_loop wide (suc n) i x b ≡ dec_td_loop wide n (i + 1) (bit_or x (shifted wide y i)) b'
unfolding dec_td_loop
dec_td_loop_byte wide n i x y b b' e = ground arith

dec_td_loop-short :
    (wide : ℕ → ℕ → ℕ) (n i x : ℕ) {b : Buf}
    → IsValid b
    → length (unread b) < n
    → (dec_td_loop wide n i x b).2 ≡ true
dec_td_loop-short wide zero i x v h = absurd (omega arith)
dec_td_loop-short wide (suc n) i x {b} v h = elim (List-cases (unread b)) [
  | inl e ↦ dec_td_loop_end wide n i x b b (buf_get_byte-nil v e)
  | inr (y, ys, e) ↦
      let g = buf_get_byte-cons v e in
      rw (dec_td_loop_byte wide n i x y b (advance 1 b) g.0) (
        dec_td_loop-short wide n (i + 1) (bit_or x (shifted wide y i)) g.2
          (omega (arith, ap (length {0}) e, ap (length {0}) g.1)))
]

-- `enc_td_param` writes the bytes of a value that fits, least significant first, but returns one
-- more than their number. When the bytes that are unread are exactly those, `dec_td_param` finds the
-- end of the buffer before it has read as many.
pub enc_td_param-count :
    (wide : ℕ → ℕ → ℕ) (x : ℕ) {dst : Buf}
    → IsValid dst
    → unread dst ≡ []
    → dst.len + length (digits 8 x) ≤ dst.max
    → (b : Buf) × (n : ℕ) × (enc_td_param dst x ≡ (b, some n))
      × (n ≡ length (digits 8 x) + 1)
      × Wrote dst (digits 8 x) b
      × ((dec_td_param wide b n).2 ≡ true)
unfolding enc_td_param dec_td_param
enc_td_param-count wide x {dst} v e h =
    let w = enc_td_loop-Wrote 8 x 0 v h in
    let all : unread w.0 ≡ digits 8 x = unread-Wrote v w.2 ∙ ap (λ l. l ++ digits 8 x) e in
    (
      w.0,
      length (digits 8 x) + 1,
      w.1 ∙ ap (λ n. (w.0, some n)) (omega arith),
      refl,
      w.2,
      dec_td_loop-short wide (length (digits 8 x) + 1) 0 0 w.2.valid
          (omega (arith, ap (length {0}) all)),
    )

-- A write to a cell that has been read changes nothing of what has not.
drop-take-set :
    (n i j v : ℕ) (xs : List ℕ) → j < i → drop i (take n (set xs j v)) ≡ drop i (take n xs)
drop-take-set zero i j v xs h = refl
drop-take-set (suc n) i j v [] h = refl
drop-take-set (suc n) zero j v (x ∷ xs) h = absurd (omega arith)
drop-take-set (suc n) (suc i) zero v (x ∷ xs) h = refl
drop-take-set (suc n) (suc i) (suc j) v (x ∷ xs) h = drop-take-set n i j v xs (omega arith)

-- `data_enc_td` takes the byte in front of the read index for the flag byte. In a buffer of which
-- something was read, which has room for a byte, a small type and a small size succeed: the byte
-- that is appended for the flag stays zero, behind what is left to read, and the last byte that was
-- read is overwritten by the type and the size. The buffer stays well-formed and its read index
-- where it was.
pub data_enc_td-flag :
    (front : Front) (type size : ℕ) {dst : Buf}
    → IsValid dst
    → 1 ≤ dst.index
    → dst.len < dst.max
    → type < 8
    → size < 8
    → let (b, ret) = data_enc_td front dst type size in
      (ret ≡ success)
      × IsValid b
      × (b.index ≡ dst.index)
      × (unread b ≡ unread dst ++ (0 ∷ []))
      × (get_or b.cells (dst.index - 1) 0 ≡ u8 (bit_or (type * 2 ^ 4) size))
unfolding data_enc_td
data_enc_td-flag front type size {dst} v started room small few =
    let r = Appends-room (buf_append_byte dst 0) (byte-Appends v 0) (omega arith) in
    let b1 : Buf = (buf_append_byte dst 0).0 in
    let i : ℕ = b1.index in
    let same : i ≡ dst.index = r.1.same_index in
    let inside : (i == 0) ≡ false = ground arith in
    let t : (type / 2 ^ 56 == 0) ≡ true = ground arith in
    let s : (size / 2 ^ 56 == 0) ≡ true = ground arith in
    let t8 : ltb type 8 ≡ true = ground arith in
    let s8 : ltb size 8 ≡ true = ground arith in
    let typed : List ℕ = set b1.cells (i - 1) (type * 2 ^ 4) in
    let there : i - 1 < length b1.cells =
      omega (arith, r.1.valid.storage, r.1.valid.read, r.1.valid.filled) in
    let first : get_or typed (i - 1) 0 ≡ type * 2 ^ 4 =
      get_or-set_self b1.cells (i - 1) (type * 2 ^ 4) 0 there in
    let flag : ℕ = u8 (bit_or (get_or typed (i - 1) 0) size) in
    let b3 : Buf = record b1 { cells = set typed (i - 1) flag } in
    let done : data_enc_td front dst type size ≡ (b3, success) =
      rw (data_enc_td, t, s, r.0, t8, s8, inside) refl in
    let sizes : length b3.cells ≡ length b1.cells =
      length-set typed (i - 1) flag ∙ length-set b1.cells (i - 1) (type * 2 ^ 4) in
    let left : unread b3 ≡ unread b1 =
      drop-take-set b1.len i (i - 1) flag typed (omega arith)
      ∙ drop-take-set b1.len i (i - 1) (type * 2 ^ 4) b1.cells (omega arith) in
    let there3 : i - 1 < length typed = omega (arith, length-set b1.cells (i - 1) (type * 2 ^ 4)) in
    let over : get_or b3.cells (dst.index - 1) 0 ≡ u8 (bit_or (type * 2 ^ 4) size) =
      ap (λ k. get_or b3.cells (k - 1) 0) (sym same)
      ∙ get_or-set_self typed (i - 1) flag 0 there3
      ∙ ap (λ x. u8 (bit_or x size)) first in
    rw done (
      refl,
      record {
        storage = sizes ∙ r.1.valid.storage;
        small = r.1.valid.small;
        filled = r.1.valid.filled;
        read = r.1.valid.read;
      },
      same,
      left ∙ unread-Wrote v r.1,
      over,
    )
