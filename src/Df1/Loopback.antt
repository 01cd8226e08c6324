-- ===== src/Df1/Loopback.antt =====
-- df1d/rx.c against df1d/tx.c: the receiver takes a frame apart as the transmitter puts it together.
use libpccc.Common.{
  ℕ, ◌≡◌, refl, ap, sym, ◌∙◌, true, false, List, [], ◌∷◌, ◌++◌, arith, inl, inr, Bool-cases, length,
  ◌==◌, ◌+◌, ◌≤◌,
}
use libpccc.Buf.{Buf, buf_append_byte}
use libpccc.Buf.Invariant.{IsValid}
use libpccc.Buf.Encode.{Wrote, Wrote-nil, Wrote-trans, byte-Appends, Appends-room}
use libpccc.Df1.State.{Platform, Conn, rx_app, sym_dle}
use libpccc.Df1.Checksum.{cs_add}
use libpccc.Df1.Transmit.{rx_active}
use libpccc.Df1.Receive.{rx_byte, add_to_app, add_byte}
use libpccc.Df1.Frame.{escape, sum_cs}
use libpccc.Df1.Stream.Bytes.{step_byte, link_bytes, refuses}

-- The receiver with some more bytes of the message.
abbrev pub took : Conn → Buf → List ℕ → Conn
took c b app = record c {
  rx = record (c.rx) { app = b; prev_dle = false; acc_cs = sum_cs c.use_crc c.rx.acc_cs app };
}

-- A receiver that takes the bytes of a message: no DLE is open, and all bytes have fitted.
pub record Taking (c : Conn) : Type 0 where
  pub state : c.rx.state ≡ rx_app
  pub plain : c.rx.prev_dle ≡ false
  pub complete : c.rx.overflow ≡ false
  pub valid : IsValid c.rx.app

pub link_step :
    (p : Platform) (c : Conn) (x : ℕ) (xs : List ℕ)
    → rx_active c.rx ≡ true
    → link_bytes p c (x ∷ xs) ≡ link_bytes p (rx_byte p c x).0 xs
unfolding link_bytes step_byte
link_step p c x xs h = let goes_on : refuses c x ≡ false = ground arith in rw (goes_on, h)

module _ (p : Platform) (c : Conn) (x : ℕ) where
  add_byte-took :
      c.rx.overflow ≡ false
      → (buf_append_byte c.rx.app x).1 ≡ false
      → add_byte c x ≡ took c (buf_append_byte c.rx.app x).0 (x ∷ [])
  unfolding add_byte cs_add sum_cs
  add_byte-took o f = rw (o, f)

  rx_byte-plain :
      c.rx.state ≡ rx_app
      → c.rx.prev_dle ≡ false
      → (x == sym_dle) ≡ false
      → (rx_byte p c x).0 ≡ add_byte c x
  unfolding rx_byte add_to_app
  rx_byte-plain s d n = ground arith

pub rx_byte-dle :
    (p : Platform) (c : Conn)
    → c.rx.state ≡ rx_app
    → c.rx.prev_dle ≡ false
    → (rx_byte p c sym_dle).0 ≡ record c { rx = record (c.rx) { prev_dle = true } }
unfolding rx_byte add_to_app
rx_byte-dle p c s d = rw (s, d)

rx_byte-second_dle :
    (p : Platform) (c : Conn)
    → c.rx.state ≡ rx_app
    → c.rx.prev_dle ≡ true
    → (rx_byte p c sym_dle).0 ≡ add_byte c sym_dle
unfolding rx_byte add_to_app
rx_byte-second_dle p c s d = rw (s, d)

took-Taking :
    {c : Conn} {b : Buf} (app : List ℕ) → Taking c → Wrote c.rx.app app b → Taking (took c b app)
took-Taking app t w = record {
  state = t.state;
  plain = refl;
  complete = t.complete;
  valid = w.valid;
}

-- One byte of the message, a DLE twice.
took_one :
    (p : Platform) {c : Conn} (x : ℕ)
    → Taking c
    → c.rx.app.len + 1 ≤ c.rx.app.max
    → (b : Buf) × Wrote c.rx.app (x ∷ []) b
      × ((rest : List ℕ)
          → link_bytes p c (escape (x ∷ []) ++ rest) ≡ link_bytes p (took c b (x ∷ [])) rest)
took_one p {c} x t h =
    let r = Appends-room (buf_append_byte c.rx.app x) (byte-Appends t.valid x) h in
    let active : rx_active c.rx ≡ true = rw (t.state) refl in
    let added = add_byte-took p c x t.complete r.0 in
    (
      (buf_append_byte c.rx.app x).0,
      r.1,
      λ rest. elim (Bool-cases (x == sym_dle)) [
        | inl dle ↦
            let is : x ≡ sym_dle = ground arith in
            let c' : Conn = record c { rx = record (c.rx) { prev_dle = true } } in
            let second : (rx_byte p c' x).0 ≡ took c (buf_append_byte c.rx.app x).0 (x ∷ []) =
              ap (λ y. (rx_byte p c' y).0) is
              ∙ rx_byte-second_dle p c' t.state refl
              ∙ ap (add_byte c') (sym is)
              ∙ add_byte-took p c' x t.complete r.0 in
            rw dle (
              link_step p c x (sym_dle ∷ rest) active
              ∙ ap (λ d. link_bytes p d (sym_dle ∷ rest))
                  (ap (λ y. (rx_byte p c y).0) is ∙ rx_byte-dle p c t.state t.plain)
              ∙ link_step p c' sym_dle rest active
              ∙ ap (λ y. link_bytes p (rx_byte p c' y).0 rest) (sym is)
              ∙ ap (λ d. link_bytes p d rest) second)
        | inr other ↦ rw other (
            link_step p c x rest active
            ∙ ap (λ d. link_bytes p d rest) (rx_byte-plain p c x t.state t.plain other ∙ added))
      ],
    )

escape-cons :
    (x : ℕ) (xs rest : List ℕ) → escape (x ∷ xs) ++ rest ≡ escape (x ∷ []) ++ (escape xs ++ rest)
escape-cons x xs rest = ground arith

-- The bytes of a message that fits, with every DLE doubled, are taken one after the other.
pub took_all :
    (p : Platform) (app : List ℕ) {c : Conn}
    → Taking c
    → c.rx.app.len + length app ≤ c.rx.app.max
    → (b : Buf) × Wrote c.rx.app app b
      × ((rest : List ℕ) → link_bytes p c (escape app ++ rest) ≡ link_bytes p (took c b app) rest)
unfolding sum_cs
took_all p [] {c} t h = (
  c.rx.app,
  Wrote-nil t.valid,
  λ rest. ap (λ d. link_bytes p (record c { rx = record (c.rx) { prev_dle = d } }) rest) t.plain,
)
took_all p (x ∷ app) {c} t h =
    let one = took_one p x t (omega arith) in
    let all =
      took_all p app (took-Taking (x ∷ []) t one.1)
        (omega (arith, one.1.new_len, one.1.same_max)) in
    (
      all.0,
      Wrote-trans one.1 all.1,
      λ rest.
          ap (link_bytes p c) (escape-cons x app rest) ∙ one.2 (escape app ++ rest) ∙ all.2 rest,
    )
