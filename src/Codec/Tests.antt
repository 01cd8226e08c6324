-- ===== src/Codec/Tests.antt =====
-- lib/data.c on concrete elements.
use libpccc.Common.{true, ℕ, ◌≡◌, refl, some, [], ◌∷◌, ◌++◌, arith, replicate, get_or}
use libpccc.ByteOrder.{little_endian}
use libpccc.Buf.{Buf, unread}
use libpccc.Buf.Invariant.{IsValid}
use libpccc.Ret.{Ret, success}
use libpccc.Ret.Encodes.{Encodes, Answers}
use libpccc.Codec.Text.{Str, enc_str, dec_str}
use libpccc.Codec.TextLaws.{text, str_bytes, enc_str_lem}
use libpccc.Codec.TextReads.{dec_str-str_bytes}
use libpccc.Codec.Arrays.{int, data_enc_array, data_dec_array}
use libpccc.Codec.ArrayLaws.{AllTwo, Same}
use libpccc.Buf.Encode.{Wrote}
use libpccc.Codec.Descriptors.{Front, enc_td_param, dec_td_param, data_enc_td}
use libpccc.Codec.DescriptorLaws.{enc_td_param-count, data_enc_td-flag}
use libpccc.Codec.Stored.{data_enc_array-Encodes, data_dec_array-reads}

abbrev page : Buf
page = record { cells = replicate 100 0; max = 100; len = 0; index = 0 }

page-IsValid : IsValid page
page-IsValid = record {
  storage = refl;
  small = omega arith;
  filled = omega arith;
  read = omega arith;
}

abbrev abc : Str
abc = record { len = 3; txt = b'a' ∷ b'b' ∷ b'c' ∷ replicate 80 0 }

enc_str_lem_example : Answers page (some (str_bytes abc)) (enc_str little_endian page abc)
enc_str_lem_example = enc_str_lem abc page-IsValid refl

-- What `enc_str` writes of it, and one more byte.
abbrev stored : Buf
stored = record { cells = str_bytes abc ++ 9 ∷ []; max = 85; len = 85; index = 0 }

stored-IsValid : IsValid stored
stored-IsValid = record {
  storage = refl;
  small = omega arith;
  filled = omega arith;
  read = omega arith;
}

abbrev blank : Str
blank = record { len = 0; txt = replicate 83 1 }

dec_str-str_bytes_example :
    let (b', s', r) = dec_str little_endian stored blank 0 in
    (r ≡ success)
    × (s'.len ≡ 3)
    × (text s' ≡ b'a' ∷ b'b' ∷ b'c' ∷ [])
    × (get_or s'.txt s'.len 1 ≡ 0)
    × IsValid b'
    × (unread b' ≡ 9 ∷ [])
dec_str-str_bytes_example =
    dec_str-str_bytes abc blank 0 (9 ∷ []) stored-IsValid (omega arith) refl refl refl

data_enc_array-Encodes_example :
    (r : Buf × Ret) × (data_enc_array little_endian int (1 ∷ 515 ∷ []) page ≡ (r.0, some r.1))
    × Encodes page (1 ∷ 0 ∷ 3 ∷ 2 ∷ []) r
data_enc_array-Encodes_example =
    data_enc_array-Encodes int (1 ∷ 515 ∷ []) refl (omega arith, (omega arith, tt)) page-IsValid

abbrev two_words : Buf
two_words = record { cells = 1 ∷ 0 ∷ 3 ∷ 2 ∷ 9 ∷ []; max = 5; len = 5; index = 0 }

two_words-IsValid : IsValid two_words
two_words-IsValid = record {
  storage = refl;
  small = omega arith;
  filled = omega arith;
  read = omega arith;
}

data_dec_array-reads_example :
    let (b', ys, r) = data_dec_array little_endian 0 int (0 ∷ 0 ∷ []) two_words in
    (r ≡ success) × AllTwo (Same int) ys (1 ∷ 515 ∷ []) × IsValid b' × (unread b' ≡ 9 ∷ [])
data_dec_array-reads_example =
    data_dec_array-reads int 0 (1 ∷ 515 ∷ []) (0 ∷ 0 ∷ []) (9 ∷ []) refl refl
      (omega arith, (omega arith, tt)) (tt, (tt, tt)) two_words-IsValid refl

enc_td_param-count_example :
    (b : Buf) × (n : ℕ) × (enc_td_param page 300 ≡ (b, some n))
    × (n ≡ 3)
    × Wrote page (44 ∷ 1 ∷ []) b
    × ((dec_td_param (λ b i. 0) b n).2 ≡ true)
enc_td_param-count_example = enc_td_param-count (λ b i. 0) 300 page-IsValid refl (omega arith)

-- A page of three bytes, of which one was read.
abbrev read_page : Buf
read_page = record { cells = 7 ∷ 8 ∷ 9 ∷ replicate 97 0; max = 100; len = 3; index = 1 }

abbrev front : Front
front = record { write = λ v b. b; read = λ b. 0 }

data_enc_td-flag_example :
    let (b, ret) = data_enc_td front read_page 2 4 in
    (ret ≡ success)
    × IsValid b
    × (b.index ≡ 1)
    × (unread b ≡ 8 ∷ 9 ∷ 0 ∷ [])
    × (get_or b.cells 0 0 ≡ 0x24)
data_enc_td-flag_example =
    data_enc_td-flag front 2 4
      (record { storage = refl; small = omega arith; filled = omega arith; read = omega arith })
      (omega arith) (omega arith) (omega arith) (omega arith)
