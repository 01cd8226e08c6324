-- ===== src/Codec/TextLaws.antt =====
-- lib/data.c: what `enc_str` writes and `dec_str` reads, on a little-endian host.
use libpccc.Common.{
  ℕ, zero, suc, ◌+◌, ◌-◌, ◌%◌, ◌≤◌, ◌<◌, ◌≡◌, refl, ap, sym, ◌∙◌, Bool, false, List, [], ◌∷◌, ◌++◌,
  arith, length, none, some, Bool-cases, inl, inr, ltb, leb, if◌then◌else◌, get_or, append-nil,
  append_assoc, take, drop, replicate, get_or-drop, drop-suc, get_or-take, length-take, length-drop,
}
use libpccc.ByteOrder.{little_endian, htols}
use libpccc.Buf.{buf_append_word, Buf, buf_append_byte, ◌and_also◌}
use libpccc.Buf.Invariant.{IsValid}
use libpccc.Buf.Encode.{Appends, byte-Appends, and_also-Appends}
use libpccc.Ret.Encodes.{Answers, or_overflow-Encodes}
use libpccc.Addr.Element.{link16, link_word-Appends}
use libpccc.Codec.Text.{Str, enc_text, pad, enc_str}

-- Each pair of characters swapped; behind a last single one stands nothing, before it a zero.
abbrev pub swap_pairs : List ℕ → List ℕ
swap_pairs [] = []
swap_pairs (a ∷ []) = 0 ∷ a ∷ []
swap_pairs (a ∷ b ∷ r) = b ∷ a ∷ swap_pairs r

-- The text of an element.
abbrev pub text : Str → List ℕ
text s = take s.len s.txt

-- One round of the loop: at the end of the text, at a last single character, at the first and at
-- the second character of a pair.
module _ (s : Str) (f i : ℕ) (r : Buf × Bool) where
  enc_text_end : s.len ≤ i → enc_text (suc f) i s r ≡ (i, r)
  unfolding enc_text
  enc_text_end e = ground arith

  enc_text_single :
      i + 1 ≡ s.len
      → i % 2 ≡ 0
      → enc_text (suc f) i s r
        ≡ enc_text f (i + 2) s (
            r
            and_also (λ b. buf_append_byte b 0)
            and_also (λ b. buf_append_byte b (get_or s.txt i 0)))
  unfolding enc_text
  enc_text_single e even = ground arith

  enc_text_first :
      i + 1 < s.len
      → i % 2 ≡ 0
      → enc_text (suc f) i s r
        ≡ enc_text f (i + 1) s (r and_also (λ b. buf_append_byte b (get_or s.txt (i + 1) 0)))
  unfolding enc_text
  enc_text_first e even = ground arith

  enc_text_second :
      i < s.len
      → i % 2 ≡ 1
      → enc_text (suc f) i s r
        ≡ enc_text f (i + 1) s (r and_also (λ b. buf_append_byte b (get_or s.txt (i - 1) 0)))
  unfolding enc_text
  enc_text_second e odd = ground arith

module _ (s : Str) (full : length s.txt ≡ 83) (fine : s.len ≤ 82) where
  left : (i : ℕ) {rem : List ℕ} → drop i (text s) ≡ rem → i ≤ s.len → s.len ≡ i + length rem
  left i e h = omega (arith, length-drop i (text s), length-take s.len s.txt, ap (length {0}) e)

  get_text : (i : ℕ) {x : ℕ} {rem : List ℕ} → drop i (text s) ≡ x ∷ rem → get_or s.txt i 0 ≡ x
  get_text i e = sym (get_or-take s.len i s.txt 0 within) ∙ get_or-drop i (text s) 0 e
    where
      within : i < s.len
      within = omega (arith, length-drop i (text s), length-take s.len s.txt, ap (length {0}) e)

  next : (i : ℕ) {x : ℕ} {rem : List ℕ} → drop i (text s) ≡ x ∷ rem → drop (i + 1) (text s) ≡ rem
  next i e =
      let shift : i + 1 ≡ suc i = omega arith in
      ap (λ k. drop k (text s)) shift ∙ drop-suc i (text s) e

  module _ {b : Buf} where
    byte_after :
        (c : ℕ) {ys : List ℕ} (r : Buf × Bool)
        → Appends b ys r
        → Appends b (ys ++ c ∷ []) (r and_also (λ b'. buf_append_byte b' c))
    byte_after c r a =
        and_also-Appends (λ b'. buf_append_byte b' c) r a (λ b' v'. byte-Appends v' c)

    -- From an even character on, the loop appends the rest of the text in swapped pairs.
    enc_text-Appends :
        (rem : List ℕ) (fuel i : ℕ) (ys : List ℕ) (r : Buf × Bool)
        → length rem < fuel
        → i % 2 ≡ 0
        → i ≤ s.len
        → drop i (text s) ≡ rem
        → Appends b ys r
        → (r' : Buf × Bool) × (enc_text fuel i s r ≡ (i + length (swap_pairs rem), r'))
          × Appends b (ys ++ swap_pairs rem) r'
    enc_text-Appends rem zero i ys r f even h e a = absurd (omega arith)
    enc_text-Appends [] (suc fuel) i ys r f even h e a = (
      r,
      rw (enc_text_end s fuel i r (omega (arith, left i e h))) (ground arith),
      rw append-nil a,
    )
    enc_text-Appends (x ∷ []) (suc zero) i ys r f even h e a = absurd (omega arith)
    enc_text-Appends (x ∷ []) (suc (suc fuel)) i ys r f even h e a =
        let r1 : Buf × Bool = r and_also (λ b'. buf_append_byte b' 0) in
        let r2 : Buf × Bool = r1 and_also (λ b'. buf_append_byte b' x) in
        (
          r2,
          rw (enc_text_single s (suc fuel) i r (omega (arith, left i e h)) even, get_text i e)
              (enc_text_end s fuel (i + 2) r2 (omega (arith, left i e h))),
          rw (append_assoc ys (0 ∷ []) (x ∷ [])) at (byte_after x r1 (byte_after 0 r a)),
        )
    enc_text-Appends (x ∷ y ∷ rem) (suc zero) i ys r f even h e a = absurd (omega arith)
    enc_text-Appends (x ∷ y ∷ rem) (suc (suc fuel)) i ys r f even h e a =
        let r1 : Buf × Bool = r and_also (λ b'. buf_append_byte b' y) in
        let r2 : Buf × Bool = r1 and_also (λ b'. buf_append_byte b' x) in
        let back : i + 1 - 1 ≡ i = omega arith in
        let two : i + 1 + 1 ≡ i + 2 = omega arith in
        let e2 : drop (i + 2) (text s) ≡ rem =
          ap (λ k. drop k (text s)) (sym two) ∙ next (i + 1) (next i e) in
        let ih =
          enc_text-Appends rem fuel (i + 2) ((ys ++ y ∷ []) ++ x ∷ []) r2 (omega arith)
            (omega arith) (omega (arith, left i e h)) e2 (byte_after x r1 (byte_after y r a)) in
        let step : enc_text (suc (suc fuel)) i s r ≡ enc_text fuel (i + 2) s r2 = rw (
          enc_text_first s (suc fuel) i r (omega (arith, left i e h)) even,
          get_text (i + 1) (next i e),
          enc_text_second s fuel (i + 1) r1 (omega (arith, left i e h)) (omega arith),
          back,
          get_text i e,
          two,
        ) in
        (
          ih.0,
          step ∙ ih.1 ∙ ap {B = ℕ × (Buf × Bool)} (λ k. (k, ih.0)) (omega arith),
          rw
              (
                append_assoc (ys ++ y ∷ []) (x ∷ []) (swap_pairs rem),
                append_assoc ys (y ∷ []) (x ∷ swap_pairs rem),
              )
              at ih.2,
        )

    pad-Appends :
        (n : ℕ) {ys : List ℕ} (r : Buf × Bool)
        → Appends b ys r
        → Appends b (ys ++ replicate n 0) (pad n r)
    unfolding pad
    pad-Appends zero {ys} r a = rw (append-nil ys) a
    pad-Appends (suc n) {ys} r a =
        rw (append_assoc ys (0 ∷ []) (replicate n 0)) at
          (pad-Appends n (r and_also (λ b'. buf_append_byte b' 0)) (byte_after 0 r a))

-- The 84 bytes of a text: its length, its characters in swapped pairs, and zeros.
abbrev pub str_bytes : Str → List ℕ
str_bytes s =
    (link16 s.len ++ swap_pairs (text s)) ++ replicate (82 - length (swap_pairs (text s))) 0

-- `enc_str` rejects a length above 82 with PCCC_EPARAM, without a change of the buffer, and
-- otherwise writes the bytes of the text.
pub enc_str_lem :
    (s : Str) {b : Buf}
    → IsValid b
    → length s.txt ≡ 83
    → Answers b (if leb s.len 82 then some (str_bytes s) else none) (enc_str little_endian b s)
unfolding enc_str
enc_str_lem s {b} v full = elim (Bool-cases (leb s.len 82)) [
  | inl fine ↦
      let short : s.len ≤ 82 = ground arith in
      let small : ltb 82 s.len ≡ false = ground arith in
      let start : Buf × Bool = buf_append_word little_endian b (htols little_endian s.len) in
      let t =
        enc_text-Appends s full short (text s) (suc s.len) 0 (link16 s.len) start
          (omega (arith, length-take s.len s.txt)) refl (omega arith) refl
          (link_word-Appends s.len v (omega arith)) in
      let n : ℕ = length (swap_pairs (text s)) in
      let stop : enc_text (suc s.len) 0 s start ≡ (n, t.0) =
        t.1 ∙ ap {B = ℕ × (Buf × Bool)} (λ k. (k, t.0)) (omega arith) in
      rw (fine, small, stop) (or_overflow-Encodes _ (pad-Appends s full short (82 - n) t.0 t.2))
  | inr long ↦ rw long (ground arith)
]
