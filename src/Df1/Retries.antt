-- ===== src/Df1/Retries.antt =====
-- df1d/tx.c: how often a message goes out that the other node answers by NAK.
use libpccc.Common.{
  ℕ, zero, suc, ◌+◌, ◌^◌, ◌≤◌, ◌<◌, ◌≡◌, refl, ap, ◌∙◌, Bool, true, false, not, ◌&&◌, Option, none,
  some, List, [], ◌∷◌, ◌++◌, arith, leb, replicate, ap₂, inl, inr, Option-cases,
}
use libpccc.Buf.{contents, buf_append_buf, buf_empty}
use libpccc.Buf.Invariant.{IsValid, length-contents, buf_empty-IsValid}
use libpccc.Buf.Encode.{buf-Appends, Appends-room}
use libpccc.Df1.State.{
  Platform, Client, Conn, tx_idle, tx_pend_msg_tx, tx_pend_resp, inc, modify, modify_opt,
}
use libpccc.Df1.Transmit.{
  find_next_tx, send_msg, flush_msg, fail_notice, next_ready, first_ready, start_at, is_ready,
  from_client, before_client, tx_nak, naked, client_msg_tx_fail, tx_data_sent,
}
use libpccc.Df1.Faults.{find_next_tx_on-none}
use libpccc.Df1.Queue.{send_msg_with-room}

-- No client has a message ready.
abbrev pub quiet : List Client → Bool
quiet [] = true
quiet (c ∷ cs) = not (is_ready c) && quiet cs

first_ready-quiet : (cs : List Client) → quiet cs ≡ true → first_ready cs ≡ none
unfolding first_ready
first_ready-quiet [] q = refl
first_ready-quiet (c ∷ cs) q = ground (arith, first_ready-quiet cs)

quiet-append : (xs ys : List Client) → quiet xs ≡ true → quiet ys ≡ true → quiet (xs ++ ys) ≡ true
quiet-append [] ys h k = k
quiet-append (x ∷ xs) ys h k = ground (arith, quiet-append xs ys)

quiet-from_client : (q : ℕ) (cs : List Client) → quiet cs ≡ true → quiet (from_client q cs) ≡ true
quiet-from_client q [] h = refl
quiet-from_client q (c ∷ cs) h = ground (arith, quiet-from_client q cs)

quiet-before_client :
    (q : ℕ) (cs : List Client) → quiet cs ≡ true → quiet (before_client q cs) ≡ true
quiet-before_client q [] h = refl
quiet-before_client q (c ∷ cs) h = ground (arith, quiet-before_client q cs)

pub next_ready-quiet :
    (c : Conn) (start : Option ℕ) → quiet c.clients ≡ true → next_ready c start ≡ none
unfolding next_ready
next_ready-quiet c start h = elim (Option-cases (start_at c start)) [
  | inl e ↦ rw (next_ready, e)
  | inr (q, e) ↦
      rw (next_ready, e)
        (first_ready-quiet (from_client q c.clients ++ before_client q c.clients) (
          quiet-append (from_client q c.clients) (before_client q c.clients)
            (quiet-from_client q c.clients h) (quiet-before_client q c.clients h)))
]

-- The notice of failure makes no client ready.
pub quiet-modify_opt :
    (f : Client → Client) (o : Option ℕ) (cs : List Client)
    → ((c : Client) → is_ready (f c) ≡ false)
    → quiet cs ≡ true
    → quiet (modify_opt o f cs) ≡ true
quiet-modify_opt f none cs k h = h
quiet-modify_opt f (some q) cs k h = on_list cs h
  where
    on_list : (cs : List Client) → quiet cs ≡ true → quiet (modify q f cs) ≡ true
    on_list [] h = refl
    on_list (c ∷ cs) h = ground (arith, k c, on_list cs)

-- The service has written out what is in the TTY's buffer, and the other node answers by NAK.
abbrev pub nak_round : Platform → Conn → Conn
nak_round p c = tx_nak p (tx_data_sent (record c { tty_out = buf_empty c.tty_out }))

abbrev pub nak_rounds : ℕ → Platform → Conn → Conn
nak_rounds zero p c = c
nak_rounds (suc k) p c = nak_rounds k p (nak_round p c)

-- What each round puts into the TTY's buffer, which is empty before it.
abbrev pub nak_output : ℕ → Platform → Conn → List (List ℕ)
nak_output zero p c = []
nak_output (suc k) p c = contents (nak_round p c).tty_out ∷ nak_output k p (nak_round p c)

-- One more round, when the message goes out again.
abbrev again : Conn → Conn
again c = record c {
  tx = record (c.tx) { state = tx_pend_msg_tx; nak_cnt = inc c.tx.nak_cnt; eticks = 0 };
  tty_out = (buf_append_buf (buf_empty c.tty_out) c.tx.msg).0;
}

nak_round-again :
    (p : Platform) (c : Conn)
    → c.tx.state ≡ tx_pend_msg_tx
    → leb c.tx.max_nak (inc c.tx.nak_cnt) ≡ false
    → (buf_append_buf (buf_empty c.tty_out) c.tx.msg).1 ≡ false
    → nak_round p c ≡ again c
unfolding tx_nak tx_data_sent naked send_msg
nak_round-again p c s more room =
    let c1 : Conn = record c {
      tty_out = buf_empty c.tty_out;
      tx = record (c.tx) { state = tx_pend_resp; eticks = 0; nak_cnt = inc c.tx.nak_cnt };
    } in
    rw (s, more) (send_msg_with-room (client_msg_tx_fail p) c1 room)

-- The last round: the message is given up.
abbrev given_up : Conn → Conn
given_up c = record c {
  tty_out = buf_empty c.tty_out;
  tx = flush_msg (record (c.tx) { state = tx_pend_resp; eticks = 0; nak_cnt = inc c.tx.nak_cnt });
  dcnts = record (c.dcnts) { tx_fail = inc c.dcnts.tx_fail };
}

nak_round-last :
    (p : Platform) (c : Conn)
    → c.tx.state ≡ tx_pend_msg_tx
    → leb c.tx.max_nak (inc c.tx.nak_cnt) ≡ true
    → quiet c.clients ≡ true
    → nak_round p c ≡ fail_notice p (given_up c)
unfolding tx_nak tx_data_sent naked client_msg_tx_fail find_next_tx fail_notice flush_msg
nak_round-last p c s enough q =
    rw (s, enough)
      (find_next_tx_on-none p (fail_notice p (given_up c)) _ none (
        next_ready-quiet (fail_notice p (given_up c)) none
          (quiet-modify_opt _ c.tx.client c.clients (λ d. refl) q)))

-- A message that is on its way, has had `nak_cnt` NAKs and is answered by NAK every time goes out
-- again, as it stands in the transmitter's buffer, once after each NAK until it has had `max_nak` of
-- them, and then it is given up: nothing more goes out, the transmitter is idle, with an empty
-- buffer, and the message's client is told. This takes exactly the rounds that are left. The frame
-- has to fit the TTY's buffer, and no client has another message ready.
pub nak_rounds-give_up :
    (left : ℕ) (p : Platform) (c : Conn)
    → c.tx.state ≡ tx_pend_msg_tx
    → c.tx.nak_cnt + suc left ≡ c.tx.max_nak
    → c.tx.max_nak < 2 ^ 32
    → quiet c.clients ≡ true
    → IsValid c.tty_out
    → IsValid c.tx.msg
    → c.tx.msg.len ≤ c.tty_out.max
    → let d = nak_rounds left p c in
      let e = nak_rounds (suc left) p c in
      (nak_output (suc left) p c ≡ replicate left (contents c.tx.msg) ++ ([] ∷ []))
      × (d.tx.state ≡ tx_pend_msg_tx)
      × (d.tx.msg ≡ c.tx.msg)
      × (d.clients ≡ c.clients)
      × (e.tx.state ≡ tx_idle)
      × (e.tx.msg.len ≡ 0)
      × (e.clients ≡ (fail_notice p c).clients)
unfolding fail_notice flush_msg buf_empty
nak_rounds-give_up zero p c s count small q v w fits =
    let enough : leb c.tx.max_nak (inc c.tx.nak_cnt) ≡ true = ground arith in
    rw (nak_round-last p c s enough q) (refl, s, refl, refl, refl, refl, refl)
nak_rounds-give_up (suc left) p c s count small q v w fits =
    let more : leb c.tx.max_nak (inc c.tx.nak_cnt) ≡ false = ground arith in
    let sent =
      Appends-room (buf_append_buf (buf_empty c.tty_out) c.tx.msg)
        (buf-Appends (buf_empty-IsValid v) w) (omega (arith, length-contents w)) in
    let round : nak_round p c ≡ again c = nak_round-again p c s more sent.0 in
    let first : (n : ℕ) → nak_rounds (suc n) p c ≡ nak_rounds n p (again c) =
      λ n. ap (nak_rounds n p) round in
    let rest =
      nak_rounds-give_up left p (again c) refl (omega arith) small q sent.1.valid w
        (omega (arith, sent.1.same_max)) in
    let out : nak_output (suc (suc left)) p c
        ≡ replicate (suc left) (contents c.tx.msg) ++ ([] ∷ []) =
      ap (λ d. contents d.tty_out ∷ nak_output (suc left) p d) round
      ∙ ap₂ (λ x l. x ∷ l) sent.1.text rest.0 in
    (
      out,
      rw (first left) rest.1,
      rw (first left) rest.2,
      rw (first left) rest.3,
      rw (first (suc left)) rest.4,
      rw (first (suc left)) rest.5,
      rw (first (suc left)) rest.6,
    )
