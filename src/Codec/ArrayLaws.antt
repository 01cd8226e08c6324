-- ===== src/Codec/ArrayLaws.antt =====
-- lib/data.c: arrays are encoded element by element, and read back so, on a little-endian host.
use libpccc.Common.{
  ℕ, ◌^◌, ◌≤◌, ◌<◌, ◌≡◌, refl, ◌∙◌, Bool, true, false, some, List, [], ◌∷◌, ◌++◌, length,
  length-append, arith, append_assoc, leb,
}
use libpccc.ByteOrder.{little_endian, store32}
use libpccc.Buf.{Buf, unread}
use libpccc.Buf.Invariant.{IsValid}
use libpccc.Buf.Encode.{Wrote-nil, Wrote-trans}
use libpccc.Ret.{Ret, success}
use libpccc.Ret.Encodes.{Encodes, encoded, no_room}
use libpccc.Addr.Element.{link16}
use libpccc.Codec.Text.{enc_str, dec_str}
use libpccc.Codec.TextLaws.{text, str_bytes, enc_str_lem}
use libpccc.Codec.TextReads.{dec_str-str_bytes}
use libpccc.Codec.Interface.{IsCodec}
use libpccc.Codec.Records.{
  timer_bytes, counter_bytes, control_bytes, timer-IsCodec, counter-IsCodec, control-IsCodec,
  int-IsCodec, float-IsCodec,
}
use libpccc.Codec.Arrays.{
  FileType, stat, bin, timer, count, ctl, int, float, outp, inp, str, asc, bcd, Value, enc_all,
  dec_all, data_enc_array, data_dec_array,
}

abbrev pub All : {A : Type 0} → (A → Type 0) → List A → Type 0
All P [] = Unit
All P (x ∷ xs) = P x × All P xs

abbrev pub AllTwo : {A : Type 0} → (A → A → Type 0) → List A → List A → Type 0
AllTwo R [] [] = Unit
AllTwo R [] (y ∷ ys) = ⊥
AllTwo R (x ∷ xs) [] = ⊥
AllTwo R (x ∷ xs) (y ∷ ys) = R x y × AllTwo R xs ys

abbrev pub concat_bytes : {A : Type 0} → (A → List ℕ) → List A → List ℕ
concat_bytes f [] = []
concat_bytes f (x ∷ xs) = f x ++ concat_bytes f xs

module _ {A : Type 0} {enc : Buf → A → Buf × Ret} {dec : Buf → A → Buf × A × Ret}
    {bytes : A → List ℕ} {InRange Slot : A → Type 0} {Same : A → A → Type 0}
    (codec : IsCodec enc dec bytes InRange Slot Same) where
  after_one :
      {b : Buf} (xs : List A) (x : A) (r : Buf × Ret)
      → Encodes b (bytes x) r
      → ((b' : Buf) → IsValid b' → Encodes b' (concat_bytes bytes xs) (enc_all enc xs b'))
      → Encodes b (concat_bytes bytes (x ∷ xs)) (elim r.1 [ success ↦ enc_all enc xs r.0 | _ ↦ r ])
  after_one {b} xs x (b', ret) (encoded e w) rest =
      rw e (second (enc_all enc xs b') (rest b' w.valid))
    where
      second :
          (r : Buf × Ret)
          → Encodes b' (concat_bytes bytes xs) r
          → Encodes b (bytes x ++ concat_bytes bytes xs) r
      second r (encoded e' w') = encoded e' (Wrote-trans w w')
      second r (no_room e' h v m) =
          no_room e'
            (omega (arith, w.new_len, w.same_max, length-append (bytes x) (concat_bytes bytes xs)))
            v (m ∙ w.same_max)
  after_one xs x (b', ret) (no_room e h v m) rest =
      rw e (no_room e (omega (arith, length-append (bytes x) (concat_bytes bytes xs))) v m)

  -- Elements in range are written one behind the other.
  pub enc_all-Encodes :
      (xs : List A) {b : Buf}
      → All InRange xs
      → IsValid b
      → Encodes b (concat_bytes bytes xs) (enc_all enc xs b)
  unfolding enc_all
  enc_all-Encodes [] h v = encoded refl (Wrote-nil v)
  enc_all-Encodes (x ∷ xs) {b} h v =
      after_one xs x (enc b x) (codec.writes x h.0 v) (λ b' v'. enc_all-Encodes xs h.1 v')

  -- And read back into as many slots.
  pub dec_all-reads :
      (xs olds : List A) (rest : List ℕ) {b : Buf}
      → length xs ≡ length olds
      → All InRange xs
      → All Slot olds
      → IsValid b
      → unread b ≡ concat_bytes bytes xs ++ rest
      → let (b', ys, r) = dec_all dec olds b in
        (r ≡ success) × AllTwo Same ys xs × IsValid b' × (unread b' ≡ rest)
  unfolding dec_all
  dec_all-reads [] [] rest n h k v e = (refl, tt, v, e)
  dec_all-reads [] (o ∷ olds) rest n h k v e = absurd (omega arith)
  dec_all-reads (x ∷ xs) [] rest n h k v e = absurd (omega arith)
  dec_all-reads (x ∷ xs) (o ∷ olds) rest {b} n h k v e =
      let e' : unread b ≡ bytes x ++ (concat_bytes bytes xs ++ rest) =
        e ∙ append_assoc (bytes x) (concat_bytes bytes xs) rest in
      let one = codec.reads x o (concat_bytes bytes xs ++ rest) h.0 k.0 v e' in
      let more = dec_all-reads xs olds rest (omega arith) h.1 k.1 one.2 one.3 in
      rw (one.0, dec_all) (more.0, (one.1, more.1), more.2, more.3)

-- The bytes of an element of each type, which elements have such bytes, and what must hold of the
-- memory that an element is read into.
abbrev pub bytes_of : (t : FileType) → Value t → List ℕ
bytes_of stat w = link16 w
bytes_of bin w = link16 w
bytes_of int w = link16 w
bytes_of timer t = timer_bytes t
bytes_of count c = counter_bytes c
bytes_of ctl c = control_bytes c
bytes_of float w = store32 little_endian w
bytes_of str s = str_bytes s
bytes_of outp w = []
bytes_of inp w = []
bytes_of asc w = []
bytes_of bcd w = []

abbrev pub InRange : (t : FileType) → Value t → Type 0
InRange stat w = w < 2 ^ 16
InRange bin w = w < 2 ^ 16
InRange int w = w < 2 ^ 16
InRange timer t = (t.pre < 2 ^ 16) × (t.acc < 2 ^ 16)
InRange count c = (c.pre < 2 ^ 16) × (c.acc < 2 ^ 16)
InRange ctl c = (c.len < 2 ^ 16) × (c.pos < 2 ^ 16)
InRange float w = w < 2 ^ 32
InRange str s = (s.len ≤ 82) × (length s.txt ≡ 83)
InRange outp w = Unit
InRange inp w = Unit
InRange asc w = Unit
InRange bcd w = Unit

abbrev pub Slot : (t : FileType) → Value t → Type 0
Slot str s = length s.txt ≡ 83
Slot _ v = Unit

-- A text is the same if its characters are, any other element if it is equal.
abbrev pub Same : (t : FileType) → Value t → Value t → Type 0
Same str s s' = (s.len ≡ s'.len) × (text s ≡ text s')
Same timer v v' = v ≡ v'
Same count v v' = v ≡ v'
Same ctl v v' = v ≡ v'
Same _ v v' = ◌≡◌ {A = ℕ} v v'

abbrev pub supported : FileType → Bool
supported outp = false
supported inp = false
supported asc = false
supported bcd = false
supported _ = true

str-IsCodec :
    (junk : ℕ)
    → IsCodec
        (enc_str little_endian)
        (λ b old. dec_str little_endian b old junk)
        str_bytes
        (InRange str)
        (Slot str)
        (Same str)
str-IsCodec junk = record {
  writes = λ {b} s h v.
      let fine : leb s.len 82 ≡ true = ground arith in rw fine at (enc_str_lem s v h.1);
  reads = λ {b} s old rest h k v e.
      let r = dec_str-str_bytes s old junk rest v h.0 h.1 k e in (r.0, (r.1, r.2), r.4, r.5);
}

-- What `data_enc_array` and `data_dec_array` promise of an array.
pub record IsStored (t : FileType) (junk : ℕ) (xs olds : List (Value t)) : Type 0 where
  pub writes :
      {b : Buf}
      → IsValid b
      → (r : Buf × Ret) × (data_enc_array little_endian t xs b ≡ (r.0, some r.1))
        × Encodes b (concat_bytes (bytes_of t) xs) r
  pub reads :
      {b : Buf} (rest : List ℕ)
      → IsValid b
      → unread b ≡ concat_bytes (bytes_of t) xs ++ rest
      → let (b', ys, r) = data_dec_array little_endian junk t olds b in
        (r ≡ success) × AllTwo (Same t) ys xs × IsValid b' × (unread b' ≡ rest)

pub array-IsStored :
    (t : FileType) (junk : ℕ) (xs olds : List (Value t))
    → supported t ≡ true
    → length xs ≡ length olds
    → All (InRange t) xs
    → All (Slot t) olds
    → IsStored t junk xs olds
unfolding data_enc_array data_dec_array
array-IsStored stat junk xs olds s n h k = record {
  writes = λ {b} v. (_, refl, enc_all-Encodes int-IsCodec xs h v);
  reads = λ {b} rest v e. dec_all-reads int-IsCodec xs olds rest n h k v e;
}
array-IsStored bin junk xs olds s n h k = record {
  writes = λ {b} v. (_, refl, enc_all-Encodes int-IsCodec xs h v);
  reads = λ {b} rest v e. dec_all-reads int-IsCodec xs olds rest n h k v e;
}
array-IsStored int junk xs olds s n h k = record {
  writes = λ {b} v. (_, refl, enc_all-Encodes int-IsCodec xs h v);
  reads = λ {b} rest v e. dec_all-reads int-IsCodec xs olds rest n h k v e;
}
array-IsStored timer junk xs olds s n h k = record {
  writes = λ {b} v. (_, refl, enc_all-Encodes (timer-IsCodec junk) xs h v);
  reads = λ {b} rest v e. dec_all-reads (timer-IsCodec junk) xs olds rest n h k v e;
}
array-IsStored count junk xs olds s n h k = record {
  writes = λ {b} v. (_, refl, enc_all-Encodes (counter-IsCodec junk) xs h v);
  reads = λ {b} rest v e. dec_all-reads (counter-IsCodec junk) xs olds rest n h k v e;
}
array-IsStored ctl junk xs olds s n h k = record {
  writes = λ {b} v. (_, refl, enc_all-Encodes (control-IsCodec junk) xs h v);
  reads = λ {b} rest v e. dec_all-reads (control-IsCodec junk) xs olds rest n h k v e;
}
array-IsStored float junk xs olds s n h k = record {
  writes = λ {b} v. (_, refl, enc_all-Encodes float-IsCodec xs h v);
  reads = λ {b} rest v e. dec_all-reads float-IsCodec xs olds rest n h k v e;
}
array-IsStored str junk xs olds s n h k = record {
  writes = λ {b} v. (_, refl, enc_all-Encodes (str-IsCodec junk) xs h v);
  reads = λ {b} rest v e. dec_all-reads (str-IsCodec junk) xs olds rest n h k v e;
}
array-IsStored outp junk xs olds s n h k = absurd (cc)
array-IsStored inp junk xs olds s n h k = absurd (cc)
array-IsStored asc junk xs olds s n h k = absurd (cc)
array-IsStored bcd junk xs olds s n h k = absurd (cc)
