-- ===== src/Buf/Encode.antt =====
-- buf.c: what it means that a chain of appends, as the encoders write them, puts a list of bytes
-- into a buffer; and that each append of buf.c does so.
use libpccc.Common.{
  ℕ, ◌+◌, ◌^◌, ◌≤◌, ◌<◌, ◌≡◌, refl, ap, sym, ◌∙◌, Bool, true, false, ◌||◌, List, [], ◌∷◌, ◌++◌,
  arith, length, leb, append_assoc, append-nil, length-append, Bool-cases, inl, inr, drop,
  drop-append,
}
use libpccc.ByteOrder.{Endian, store16, store32}
use libpccc.Buf.{
  Buf, buf_append_blob, buf_append_buf, buf_append_byte, buf_append_word, buf_append_long,
  buf_append_str, contents, unread, ◌or_else◌, ◌and_also◌,
}
use libpccc.Buf.Invariant.{IsValid, append, length-contents, extend-IsValid, contents-extend}
use libpccc.Buf.Append.{
  buf_append_byte-eq, buf_append_word-eq, buf_append_long-eq, buf_append_blob-eq, buf_append_str-eq,
  buf_append_buf-eq,
}

-- `b'` is `b` with the bytes `xs` behind its contents.
pub record Wrote (b : Buf) (xs : List ℕ) (b' : Buf) : Type 0 where
  pub valid : IsValid b'
  pub text : contents b' ≡ contents b ++ xs
  pub same_max : b'.max ≡ b.max
  pub same_index : b'.index ≡ b.index
  pub new_len : b'.len ≡ b.len + length xs

-- A call wrote all of `xs`, or reports a failure because `xs` does not fit.
pub data Appends (b : Buf) (xs : List ℕ) (r : Buf × Bool) : Type 0 where
  fits : r.1 ≡ false → Wrote b xs r.0 → Appends b xs r
  overflows :
      r.1 ≡ true → b.max < b.len + length xs → IsValid r.0 → r.0.max ≡ b.max → Appends b xs r

pub Wrote-nil : {b : Buf} → IsValid b → Wrote b [] b
Wrote-nil {b} v = record {
  valid = v;
  text = sym (append-nil (contents b));
  same_max = refl;
  same_index = refl;
  new_len = omega arith;
}

pub Wrote-trans :
    {b b' b'' : Buf} {xs ys : List ℕ} → Wrote b xs b' → Wrote b' ys b'' → Wrote b (xs ++ ys) b''
Wrote-trans {b} {b'} {b''} {xs} {ys} v w = record {
  valid = w.valid;
  text = w.text ∙ ap (λ l. l ++ ys) v.text ∙ append_assoc (contents b) xs ys;
  same_max = w.same_max ∙ v.same_max;
  same_index = w.same_index ∙ v.same_index;
  new_len = omega (arith, w.new_len, v.new_len, length-append xs ys);
}

-- The new bytes are behind what was unread.
pub unread-Wrote :
    {b b' : Buf} {xs : List ℕ} → IsValid b → Wrote b xs b' → unread b' ≡ unread b ++ xs
unread-Wrote {b} {b'} {xs} v w =
    ap (λ n. drop n (contents b')) w.same_index
    ∙ ap (drop b.index) w.text
    ∙ drop-append b.index (contents b) xs (omega (arith, length-contents v))

pub append-Appends : {b : Buf} (xs : List ℕ) → IsValid b → Appends b xs (append b xs)
append-Appends {b} xs v = elim (Bool-cases (leb (b.len + length xs) b.max)) [
  | inl room ↦ rw room (
      fits refl (record {
        valid = extend-IsValid xs v (ground arith);
        text = contents-extend xs v (ground arith);
        same_max = refl;
        same_index = refl;
        new_len = refl;
      }))
  | inr full ↦ rw full (overflows refl (ground arith) v refl)
]

pub Appends-IsValid : {b : Buf} {xs : List ℕ} (r : Buf × Bool) → Appends b xs r → IsValid r.0
Appends-IsValid r (fits e w) = w.valid
Appends-IsValid r (overflows e h v m) = v

pub Appends-max : {b : Buf} {xs : List ℕ} (r : Buf × Bool) → Appends b xs r → r.0.max ≡ b.max
Appends-max r (fits e w) = w.same_max
Appends-max r (overflows e h v m) = m

-- A call whose bytes fit succeeds.
pub Appends-room :
    {b : Buf} {xs : List ℕ} (r : Buf × Bool)
    → Appends b xs r
    → b.len + length xs ≤ b.max
    → (r.1 ≡ false) × Wrote b xs r.0
Appends-room r (fits e w) h = (e, w)
Appends-room r (overflows e k v m) h = absurd (omega arith)

module _ {b : Buf} {xs ys : List ℕ} (k : Buf → Buf × Bool) where
  -- `a || b` writes the bytes of both.
  pub or_else-Appends :
      (r : Buf × Bool)
      → Appends b xs r
      → ((b' : Buf) → IsValid b' → Appends b' ys (k b'))
      → Appends b (xs ++ ys) (r or_else k)
  or_else-Appends (b', true) (fits e w) next = cc
  or_else-Appends (b', false) (fits e w) next = second (k b') (next b' w.valid)
    where
      second : (r : Buf × Bool) → Appends b' ys r → Appends b (xs ++ ys) r
      second r (fits e' w') = fits e' (Wrote-trans w w')
      second r (overflows e' h v m) =
          overflows e' (omega (arith, w.new_len, w.same_max, length-append xs ys)) v
            (m ∙ w.same_max)
  or_else-Appends (b', true) (overflows e h v m) next =
      overflows refl (omega (arith, length-append xs ys)) v m
  or_else-Appends (b', false) (overflows e h v m) next = cc

  -- `overflow |= b` writes the bytes of both, if all of them fit.
  pub and_also-Appends :
      (r : Buf × Bool)
      → Appends b xs r
      → ((b' : Buf) → IsValid b' → Appends b' ys (k b'))
      → Appends b (xs ++ ys) (r and_also k)
  and_also-Appends (b', true) (fits e w) next = cc
  and_also-Appends (b', false) (fits e w) next = second (k b') (next b' w.valid)
    where
      second : (r : Buf × Bool) → Appends b' ys r → Appends b (xs ++ ys) (r.0, false || r.1)
      second (b'', o) (fits e' w') = fits e' (Wrote-trans w w')
      second (b'', o) (overflows e' h v m) =
          overflows e' (omega (arith, w.new_len, w.same_max, length-append xs ys)) v
            (m ∙ w.same_max)
  and_also-Appends (b', true) (overflows e h v m) next =
      overflows refl (omega (arith, length-append xs ys)) (Appends-IsValid (k b') (next b' v))
        (Appends-max (k b') (next b' v) ∙ m)
  and_also-Appends (b', false) (overflows e h v m) next = cc

module _ {b : Buf} (v : IsValid b) where
  pub byte-Appends : (x : ℕ) → Appends b (x ∷ []) (buf_append_byte b x)
  byte-Appends x = rw (buf_append_byte-eq x v) (append-Appends (x ∷ []) v)

  pub word-Appends : (e : Endian) (w : ℕ) → Appends b (store16 e w) (buf_append_word e b w)
  word-Appends e w = rw (buf_append_word-eq e w v) (append-Appends (store16 e w) v)

  pub long-Appends : (e : Endian) (w : ℕ) → Appends b (store32 e w) (buf_append_long e b w)
  long-Appends e w = rw (buf_append_long-eq e w v) (append-Appends (store32 e w) v)

  pub blob-Appends : (xs : List ℕ) → length xs < 2 ^ 63 → Appends b xs (buf_append_blob b xs)
  blob-Appends xs h = rw (buf_append_blob-eq xs v h) (append-Appends xs v)

  pub str-Appends : (xs : List ℕ) → length xs < 2 ^ 63 → Appends b xs (buf_append_str b xs)
  str-Appends xs h = rw (buf_append_str-eq xs v h) (append-Appends xs v)

  pub buf-Appends : {s : Buf} → IsValid s → Appends b (contents s) (buf_append_buf b s)
  buf-Appends {s} w = rw (buf_append_buf-eq v w) (append-Appends (contents s) v)
