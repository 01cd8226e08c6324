-- ===== src/Df1/Closing.antt =====
-- df1d/rx.c: the start of a frame, and its end with the checksum.
use libpccc.Common.{
  ℕ, ◌≡◌, refl, ap, ◌∙◌, true, false, List, ◌∷◌, ◌++◌, arith, inl, inr, Bool-cases, ◌==◌, ◌&&◌, ◌+◌,
  ◌*◌, ◌^◌, ◌/◌, ◌%◌, ◌<◌, if◌then◌else◌, u16,
}
use libpccc.Buf.{Buf, buf_empty}
use libpccc.Addr.Element.{link16}
use libpccc.Df1.State.{Platform, Conn, rx_idle, rx_app, rx_cs1, rx_cs2, sym_stx, sym_etx, sym_dle}
use libpccc.Df1.Checksum.{cs_add, cs_ok, cs_clear, crc_add, bcc_close}
use libpccc.Df1.Transmit.{rx_active}
use libpccc.Df1.Receive.{start_msg, rx_byte, add_to_app, accept_msg}
use libpccc.Df1.Link.{plain_byte, symbol_byte}
use libpccc.Df1.Frame.{crc_add-lt, sum_cs, cs_bytes}
use libpccc.Df1.Stream.Bytes.{step_byte, link_bytes, refuses}
use libpccc.Df1.Stream.Parse.{idle-refuses}
use libpccc.Df1.Loopback.{rx_byte-dle, took, link_step}

-- The receiver when the checksum of a frame has come in.
unfoldable pub checked : Conn → Buf → List ℕ → Conn
checked c b app =
    let cs : ℕ = sum_cs c.use_crc 0 app in
    let sum : ℕ = if c.use_crc then crc_add cs sym_etx else bcc_close cs in
    record c {
      read_sym = false;
      rx = record (c.rx) {
        state = if c.use_crc then rx_cs2 else rx_cs1;
        app = b;
        eticks = 0;
        prev_dle = true;
        overflow = false;
        acc_cs = if c.use_crc then sum else cs;
        msg_cs = sum;
      };
    }

rx_byte-etx :
    (p : Platform) (c : Conn)
    → c.rx.state ≡ rx_app
    → c.rx.prev_dle ≡ true
    → (rx_byte p c sym_etx).0 ≡ record c {
      rx = record (c.rx) {
        state = rx_cs1;
        acc_cs = if c.use_crc then crc_add c.rx.acc_cs sym_etx else c.rx.acc_cs;
      };
    }
unfolding rx_byte add_to_app cs_add
rx_byte-etx p c s d = elim (Bool-cases c.use_crc) [ inl u ↦ rw (s, d, u) | inr u ↦ rw (s, d, u) ]

rx_byte-bcc :
    (p : Platform) (c : Conn) (x : ℕ)
    → c.rx.state ≡ rx_cs1
    → c.use_crc ≡ false
    → (rx_byte p c x).0 ≡ accept_msg p (record c { rx = record (c.rx) { msg_cs = x } })
unfolding rx_byte
rx_byte-bcc p c x s u = rw (s, u)

rx_byte-crc1 :
    (p : Platform) (c : Conn) (x : ℕ)
    → c.rx.state ≡ rx_cs1
    → c.use_crc ≡ true
    → (rx_byte p c x).0 ≡ record c { rx = record (c.rx) { msg_cs = x; state = rx_cs2 } }
unfolding rx_byte
rx_byte-crc1 p c x s u = rw (s, u)

rx_byte-crc2 :
    (p : Platform) (c : Conn) (x : ℕ)
    → c.rx.state ≡ rx_cs2
    → (rx_byte p c x).0
      ≡ accept_msg p (record c { rx = record (c.rx) { msg_cs = u16 (c.rx.msg_cs + x * 2 ^ 8) } })
unfolding rx_byte
rx_byte-crc2 p c x s = rw s

step_to :
    (p : Platform) (c d : Conn) (x : ℕ) (xs : List ℕ)
    → rx_active c.rx ≡ true
    → (rx_byte p c x).0 ≡ d
    → link_bytes p c (x ∷ xs) ≡ link_bytes p d xs
step_to p c d x xs h e = link_step p c x xs h ∙ ap (λ k. link_bytes p k xs) e

-- The receiver behind DLE STX.
abbrev pub started : Conn → Conn
started c = record c {
  read_sym = false;
  rx = record (c.rx) {
    state = rx_app;
    app = record (c.rx.app) { len = 0; index = 0 };
    eticks = 0;
    prev_dle = false;
    overflow = false;
    acc_cs = 0;
  };
}

start_msg-started :
    (c : Conn) → c.rx.state ≡ rx_idle → start_msg (record c { read_sym = false }) ≡ started c
unfolding start_msg cs_clear buf_empty
start_msg-started c s = rw s

symbol_byte-dle :
    (p : Platform) (c : Conn)
    → c.read_sym ≡ false
    → symbol_byte p c sym_dle ≡ record c { read_sym = true }
unfolding symbol_byte plain_byte
symbol_byte-dle p c r = rw r

link_round :
    (p : Platform) (c : Conn) (x : ℕ) (xs : List ℕ)
    → refuses c x ≡ false
    → link_bytes p c (x ∷ xs) ≡ link_bytes p (step_byte p c x) xs
unfolding link_bytes
link_round p c x xs h = rw h

step_byte-dle :
    (p : Platform) (c : Conn)
    → c.rx.state ≡ rx_idle
    → c.read_sym ≡ false
    → step_byte p c sym_dle ≡ record c { read_sym = true }
unfolding step_byte
step_byte-dle p c s r =
    let open_not : (c.read_sym && sym_dle == sym_stx) ≡ false = rw r in
    let quiet : rx_active c.rx ≡ false = rw s in rw (quiet, open_not) (symbol_byte-dle p c r)

step_byte-stx :
    (p : Platform) (c : Conn)
    → c.rx.state ≡ rx_idle
    → step_byte p (record c { read_sym = true }) sym_stx ≡ start_msg (record c { read_sym = false })
unfolding step_byte
step_byte-stx p c s = let quiet : rx_active c.rx ≡ false = rw s in rw quiet

-- DLE STX starts a message.
pub link_bytes-stx :
    (p : Platform) (c : Conn) (rest : List ℕ)
    → c.rx.state ≡ rx_idle
    → c.read_sym ≡ false
    → link_bytes p c (sym_dle ∷ sym_stx ∷ rest) ≡ link_bytes p (started c) rest
link_bytes-stx p c rest s r =
    let c1 : Conn = record c { read_sym = true } in
    let no_first = idle-refuses c sym_dle s in
    let no_second = idle-refuses c1 sym_stx s in
    link_round p c sym_dle (sym_stx ∷ rest) no_first
    ∙ ap (λ d. link_bytes p d (sym_stx ∷ rest)) (step_byte-dle p c s r)
    ∙ link_round p c1 sym_stx rest no_second
    ∙ ap (λ d. link_bytes p d rest) (step_byte-stx p c s ∙ start_msg-started c s)

crc_join : (crc : ℕ) → crc < 2 ^ 16 → u16 (crc % 2 ^ 8 + crc / 2 ^ 8 * 2 ^ 8) ≡ crc
crc_join crc h = omega arith

-- DLE ETX and the checksum end it.
module _ (p : Platform) (c : Conn) (b : Buf) (app rest : List ℕ) where
  link_bytes-bcc :
      c.use_crc ≡ false
      → link_bytes p
          (took (started c) b app)
          (sym_dle ∷ sym_etx ∷ bcc_close (sum_cs false 0 app) ∷ rest)
        ≡ link_bytes p (accept_msg p (checked c b app)) rest
  unfolding checked
  link_bytes-bcc u =
      let d : Conn = took (started c) b app in
      let d1 : Conn = record d { rx = record (d.rx) { prev_dle = true } } in
      let d2 : Conn = record d1 {
        rx = record (d1.rx) {
          state = rx_cs1;
          acc_cs = if d1.use_crc then crc_add d1.rx.acc_cs sym_etx else d1.rx.acc_cs;
        };
      } in
      let last : (rx_byte p d2 (bcc_close (sum_cs false 0 app))).0
          ≡ accept_msg p (checked c b app) =
        rx_byte-bcc p d2 _ refl u ∙ (rw u) in
      step_to p d d1 sym_dle _ refl (rx_byte-dle p d refl refl)
      ∙ step_to p d1 d2 sym_etx _ refl (rx_byte-etx p d1 refl refl)
      ∙ step_to p d2 _ _ rest refl last

  link_bytes-crc :
      c.use_crc ≡ true
      → link_bytes p
          (took (started c) b app)
          (sym_dle ∷ sym_etx ∷ (link16 (crc_add (sum_cs true 0 app) sym_etx) ++ rest))
        ≡ link_bytes p (accept_msg p (checked c b app)) rest
  unfolding checked
  link_bytes-crc u =
      let d : Conn = took (started c) b app in
      let crc : ℕ = crc_add (sum_cs true 0 app) sym_etx in
      let d1 : Conn = record d { rx = record (d.rx) { prev_dle = true } } in
      let d2 : Conn = record d1 {
        rx = record (d1.rx) {
          state = rx_cs1;
          acc_cs = if d1.use_crc then crc_add d1.rx.acc_cs sym_etx else d1.rx.acc_cs;
        };
      } in
      let d3 : Conn = record d2 { rx = record (d2.rx) { msg_cs = crc % 2 ^ 8; state = rx_cs2 } } in
      let joined = crc_join crc (crc_add-lt (sum_cs true 0 app) sym_etx) in
      let last : (rx_byte p d3 (crc / 2 ^ 8)).0 ≡ accept_msg p (checked c b app) =
        rx_byte-crc2 p d3 (crc / 2 ^ 8) refl
        ∙ ap (λ m. accept_msg p (record d3 { rx = record (d3.rx) { msg_cs = m } })) joined
        ∙ (rw u) in
      step_to p d d1 sym_dle _ refl (rx_byte-dle p d refl refl)
      ∙ step_to p d1 d2 sym_etx _ refl (rx_byte-etx p d1 refl refl)
      ∙ step_to p d2 d3 (crc % 2 ^ 8) _ refl (rx_byte-crc1 p d2 (crc % 2 ^ 8) refl u)
      ∙ step_to p d3 _ (crc / 2 ^ 8) rest refl last

  pub link_bytes-close :
      link_bytes p (took (started c) b app) (sym_dle ∷ sym_etx ∷ (cs_bytes c.use_crc app ++ rest))
      ≡ link_bytes p (accept_msg p (checked c b app)) rest
  link_bytes-close = elim (Bool-cases c.use_crc) [
    | inl u ↦
        ap
          (λ t.
            link_bytes p (took (started c) b app) (sym_dle ∷ sym_etx ∷ (cs_bytes t app ++ rest)))
          u
        ∙ link_bytes-crc u
    | inr u ↦
        ap
          (λ t.
            link_bytes p (took (started c) b app) (sym_dle ∷ sym_etx ∷ (cs_bytes t app ++ rest)))
          u
        ∙ link_bytes-bcc u
  ]

pub cs_ok-checked : (c : Conn) (b : Buf) (app : List ℕ) → cs_ok (checked c b app) ≡ true
unfolding cs_ok checked
cs_ok-checked c b app = ground arith
