-- ===== src/Codec/TextReads.antt =====
-- lib/data.c: `dec_str` reads back what `enc_str` writes, on a little-endian host.
use libpccc.Common.{
  get_or-set_self, ℕ, zero, suc, ◌+◌, ◌-◌, ◌*◌, ◌/◌, ◌%◌, ◌^◌, ◌≤◌, ◌≡◌, refl, ap, sym, ◌∙◌, Bool,
  true, false, List, [], ◌∷◌, ◌++◌, arith, length, ◌==◌, ltb, get_or, length-replicate, append-nil,
  append_assoc, take, set, replicate, length-take, length-append, length-set,
}
use libpccc.ByteOrder.{little_endian, ltohs}
use libpccc.Buf.{Buf, unread}
use libpccc.Buf.Invariant.{IsValid}
use libpccc.Buf.Read.{advance, buf_get_byte-cons, buf_get_word-cons}
use libpccc.Codec.Elements.{overflow_ret}
use libpccc.Ret.{success}
use libpccc.Codec.Text.{Str, dec_text, dec_str}
use libpccc.Codec.TextLaws.{text, swap_pairs, str_bytes}

-- Reading: the pairs swapped back.
abbrev unswap : List ℕ → List ℕ
unswap [] = []
unswap (a ∷ []) = []
unswap (a ∷ b ∷ r) = b ∷ a ∷ unswap r

-- Two writes behind an even number of characters.
take-set_pair :
    (i : ℕ) (txt : List ℕ) (x y : ℕ)
    → i + 2 ≤ length txt
    → take (suc (suc i)) (set (set txt (suc i) x) i y) ≡ take i txt ++ y ∷ x ∷ []
take-set_pair zero [] x y h = absurd (omega arith)
take-set_pair zero (a ∷ []) x y h = absurd (omega arith)
take-set_pair zero (a ∷ b ∷ txt) x y h = refl
take-set_pair (suc i) [] x y h = absurd (omega arith)
take-set_pair (suc i) (a ∷ txt) x y h = ap (◌∷◌ a) (take-set_pair i txt x y (omega arith))

take-take : (n k : ℕ) (xs : List ℕ) → n ≤ k → take n (take k xs) ≡ take n xs
take-take zero k xs h = refl
take-take (suc n) zero xs h = absurd (omega arith)
take-take (suc n) (suc k) [] h = refl
take-take (suc n) (suc k) (x ∷ xs) h = ap (◌∷◌ x) (take-take n k xs (omega arith))

take-set_ge : (n i : ℕ) (xs : List ℕ) (x : ℕ) → n ≤ i → take n (set xs i x) ≡ take n xs
take-set_ge zero i xs x h = refl
take-set_ge (suc n) i [] x h = refl
take-set_ge (suc n) zero (a ∷ xs) x h = absurd (omega arith)
take-set_ge (suc n) (suc i) (a ∷ xs) x h = ap (◌∷◌ a) (take-set_ge n i xs x (omega arith))

module _ (i junk : ℕ) (txt : List ℕ) {b : Buf} {x : ℕ} {xs : List ℕ} where
  dec_text_first :
      (n : ℕ)
      → IsValid b
      → unread b ≡ x ∷ xs
      → i % 2 ≡ 0
      → dec_text (suc n) i junk b txt ≡ dec_text n (i + 1) junk (advance 1 b) (set txt (i + 1) x)
  unfolding dec_text
  dec_text_first n v e even =
      let is_even : (i % 2 == 1) ≡ false = ground arith in rw ((buf_get_byte-cons v e).0, is_even)

  dec_text_second :
      (n : ℕ)
      → IsValid b
      → unread b ≡ x ∷ xs
      → i % 2 ≡ 1
      → dec_text (suc n) i junk b txt ≡ dec_text n (i + 1) junk (advance 1 b) (set txt (i - 1) x)
  unfolding dec_text
  dec_text_second n v e odd =
      let is_odd : (i % 2 == 1) ≡ true = ground arith in rw ((buf_get_byte-cons v e).0, is_odd)

-- What the loop makes of a list of pairs.
record Reads (b : Buf) (i : ℕ) (txt ps rest : List ℕ) (r : Buf × List ℕ × Bool) : Type 0 where
  went_well : r.2 ≡ false
  valid : IsValid r.0
  unread_rest : unread r.0 ≡ rest
  same_length : length r.1 ≡ length txt
  pairs : take (i + length ps) r.1 ≡ take i txt ++ unswap ps

dec_text-Reads :
    (ps : List ℕ) (i junk : ℕ) (txt rest : List ℕ) {b : Buf}
    → length ps % 2 ≡ 0
    → i % 2 ≡ 0
    → i + length ps ≤ length txt
    → IsValid b
    → unread b ≡ ps ++ rest
    → Reads b i txt ps rest (dec_text (length ps) i junk b txt)
dec_text-Reads [] i junk txt rest {b} p even h v e =
    unfold dec_text in
    record {
      went_well = refl;
      valid = v;
      unread_rest = e;
      same_length = refl;
      pairs = rw (append-nil) (ap (λ k. take k txt) (omega arith));
    }
dec_text-Reads (x ∷ []) i junk txt rest p even h v e = absurd (omega arith)
dec_text-Reads (x ∷ y ∷ ps) i junk txt rest {b} p even h v e =
    let g1 = buf_get_byte-cons v e in
    let g2 = buf_get_byte-cons g1.2 g1.1 in
    let txt1 : List ℕ = set txt (i + 1) x in
    let txt2 : List ℕ = set txt1 i y in
    let back : i + 1 - 1 ≡ i = omega arith in
    let two : i + 1 + 1 ≡ i + 2 = omega arith in
    let n1 : length txt1 ≡ length txt = length-set txt (i + 1) x in
    let n2 : length txt2 ≡ length txt = length-set txt1 i y ∙ n1 in
    let ih =
      dec_text-Reads ps (i + 2) junk txt2 rest (omega arith) (omega arith) (omega arith) g2.2
        g2.1 in
    let step : dec_text (suc (suc (length ps))) i junk b txt
        ≡ dec_text (length ps) (i + 2) junk (advance 1 (advance 1 b)) txt2 =
      rw (
        dec_text_first i junk txt (suc (length ps)) v e even,
        dec_text_second (i + 1) junk txt1 (length ps) g1.2 g1.1 (omega arith),
        back,
        two,
      ) in
    let first : take (suc (suc i)) txt2 ≡ take i txt ++ y ∷ x ∷ [] =
      let k : i + 1 ≡ suc i = omega arith in rw k (take-set_pair i txt x y (omega arith)) in
    let first' : take (i + 2) txt2 ≡ take i txt ++ y ∷ x ∷ [] =
      let k : i + 2 ≡ suc (suc i) = omega arith in ap (λ n. take n txt2) k ∙ first in
    rw step record {
      went_well = ih.went_well;
      valid = ih.valid;
      unread_rest = ih.unread_rest;
      same_length = ih.same_length ∙ n2;
      pairs =
          let out : List ℕ = (dec_text (length ps) (i + 2) junk (advance 1 (advance 1 b)) txt2).1 in
          let k : i + suc (suc (length ps)) ≡ i + 2 + length ps = omega arith in
          ap (λ n. take n out) k
          ∙ ih.pairs
          ∙ ap (λ l. l ++ unswap ps) first'
          ∙ append_assoc (take i txt) (y ∷ x ∷ []) (unswap ps);
    }

length-swap_pairs : (t : List ℕ) → length (swap_pairs t) ≡ length t + length t % 2
length-swap_pairs [] = refl
length-swap_pairs (a ∷ []) = refl
length-swap_pairs (a ∷ b ∷ t) = omega (arith, length-swap_pairs t)

-- Swapping back the bytes of a text gives the text, whatever follows.
take-unswap : (t zs : List ℕ) → take (length t) (unswap (swap_pairs t ++ zs)) ≡ t
take-unswap [] zs = refl
take-unswap (a ∷ []) zs = refl
take-unswap (a ∷ b ∷ t) zs = ap (λ l. a ∷ b ∷ l) (take-unswap t zs)

-- A length that is read and allowed, and then the loop.
dec_str-step :
    (w junk : ℕ) (old : Str) {b : Buf} {xs : List ℕ}
    → IsValid b
    → w ≤ 82
    → unread b ≡ w % 2 ^ 8 ∷ w / 2 ^ 8 ∷ xs
    → let (s2, txt, o) = dec_text 82 0 junk (advance 2 b) old.txt in
      dec_str little_endian b old junk ≡ (s2, record { len = w; txt = set txt w 0 }, overflow_ret o)
unfolding dec_str ltohs
dec_str-step w junk old {b} v h e =
    let same : w % 2 ^ 8 + w / 2 ^ 8 * 2 ^ 8 ≡ w = omega arith in
    let small : ltb 82 w ≡ false = ground arith in
    rw ((buf_get_word-cons little_endian v e).0, same, small)

-- `dec_str` reads back what `enc_str` writes: the length, and the characters up to it; behind them
-- it puts the terminating zero, and it reads exactly the 84 bytes.
pub dec_str-str_bytes :
    (s old : Str) (junk : ℕ) (rest : List ℕ) {b : Buf}
    → IsValid b
    → s.len ≤ 82
    → length s.txt ≡ 83
    → length old.txt ≡ 83
    → unread b ≡ str_bytes s ++ rest
    → let (b', s', r) = dec_str little_endian b old junk in
      (r ≡ success)
      × (s'.len ≡ s.len)
      × (text s' ≡ text s)
      × (get_or s'.txt s'.len 1 ≡ 0)
      × IsValid b'
      × (unread b' ≡ rest)
dec_str-str_bytes s old junk rest {b} v short full full' e =
    let t : List ℕ = text s in
    let zs : List ℕ = replicate (82 - length (swap_pairs t)) 0 in
    let ps : List ℕ = swap_pairs t ++ zs in
    let len_t : length t ≡ s.len = omega (arith, length-take s.len s.txt) in
    let len_ps : length ps ≡ 82 = omega (
      arith,
      length-append (swap_pairs t) zs,
      length-replicate {A = ℕ} (82 - length (swap_pairs t)) 0,
      length-swap_pairs t,
    ) in
    let g = buf_get_word-cons little_endian v e in
    let d : Reads (advance 2 b) 0 old.txt ps rest (dec_text 82 0 junk (advance 2 b) old.txt) =
      rw len_ps at
        (dec_text-Reads ps 0 junk old.txt rest (omega arith) refl (omega arith) g.2 g.1) in
    let txt : List ℕ = (dec_text 82 0 junk (advance 2 b) old.txt).1 in
    let same_text : take s.len (set txt s.len 0) ≡ t =
      take-set_ge s.len s.len txt 0 (omega arith)
      ∙ sym (take-take s.len (0 + length ps) txt (omega arith))
      ∙ ap (take s.len) d.pairs
      ∙ ap (λ k. take k (unswap ps)) (sym len_t)
      ∙ take-unswap t zs in
    rw (dec_str-step s.len junk old v short e) (
      rw d.went_well refl,
      refl,
      same_text,
      get_or-set_self txt s.len 0 1 (omega (arith, d.same_length)),
      d.valid,
      d.unread_rest,
    )
