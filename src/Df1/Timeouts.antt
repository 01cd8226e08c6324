-- ===== src/Df1/Timeouts.antt =====
-- df1d/tx.c: how long the transmitter waits for an answer, and how often it asks for one.
use libpccc.Common.{
  ℕ, zero, suc, ◌+◌, ◌^◌, ◌≤◌, ◌<◌, ◌≡◌, refl, ap, ◌∙◌, Bool, true, false, not, ◌&&◌, none, arith,
  List, [], ◌∷◌, ◌++◌, replicate, ap₂, ltb,
}
use libpccc.Buf.{contents, buf_empty, buf_append_byte, ◌or_else◌}
use libpccc.Buf.Invariant.{IsValid, buf_empty-IsValid}
use libpccc.Buf.Encode.{byte-Appends, or_else-Appends, Appends-room}
use libpccc.Df1.State.{Platform, Conn, tx_idle, tx_pend_msg_tx, tx_pend_resp, inc, sym_dle, sym_enq}
use libpccc.Df1.Transmit.{
  find_next_tx, flush_msg, fail_notice, client_msg_tx_fail, tx_data_sent, tx_tick, resp_timeout,
  send_enq, rx_active,
}
use libpccc.Df1.Faults.{find_next_tx_on-none}
use libpccc.Df1.Retries.{quiet, next_ready-quiet, quiet-modify_opt}

-- Ticks of the timer, one after the other.
abbrev pub tx_ticks : ℕ → Platform → Conn → Conn
tx_ticks zero p c = c
tx_ticks (suc k) p c = tx_ticks k p (tx_tick p c)

abbrev pub at_tick : Conn → ℕ → Conn
at_tick c n = record c { tx = record (c.tx) { eticks = n } }

-- The transmitter's clock stands still while a message comes in, until embedded responses are seen.
abbrev pub paused : Conn → Bool
paused c = not c.embed_rsp && rx_active c.rx

module _ (p : Platform) (c : Conn) (s : c.tx.state ≡ tx_pend_resp) (runs : paused c ≡ false) where
  tx_tick_early :
      ltb c.tx.tticks (inc c.tx.eticks) ≡ false → tx_tick p c ≡ at_tick c (inc c.tx.eticks)
  unfolding tx_tick
  tx_tick_early h = ground arith

  tx_tick_late :
      ltb c.tx.tticks (inc c.tx.eticks) ≡ true
      → tx_tick p c ≡ resp_timeout p (at_tick c (inc c.tx.eticks))
  unfolding tx_tick
  tx_tick_late h = ground arith

-- While the transmitter waits for an answer and its clock runs, the timeout comes with the tick
-- after `tticks`, neither before nor after it.
pub tx_ticks-resp_timeout :
    (left : ℕ) (p : Platform) (c : Conn)
    → c.tx.state ≡ tx_pend_resp
    → paused c ≡ false
    → c.tx.eticks + left ≡ c.tx.tticks
    → c.tx.tticks + 1 < 2 ^ 32
    → (tx_ticks left p c ≡ at_tick c c.tx.tticks)
      × (tx_ticks (suc left) p c ≡ resp_timeout p (at_tick c (c.tx.tticks + 1)))
tx_ticks-resp_timeout zero p c s runs h small =
    let now : c.tx.eticks ≡ c.tx.tticks = omega arith in
    let late : ltb c.tx.tticks (inc c.tx.eticks) ≡ true = ground arith in
    let next : inc c.tx.eticks ≡ c.tx.tticks + 1 = omega arith in
    (ap (at_tick c) now, tx_tick_late p c s runs late ∙ ap (λ n. resp_timeout p (at_tick c n)) next)
tx_ticks-resp_timeout (suc left) p c s runs h small =
    let early : ltb c.tx.tticks (inc c.tx.eticks) ≡ false = ground arith in
    let first = tx_tick_early p c s runs early in
    let rest =
      tx_ticks-resp_timeout left p (at_tick c (inc c.tx.eticks)) s runs (omega arith) small in
    (ap (tx_ticks left p) first ∙ rest.0, ap (tx_ticks (suc left) p) first ∙ rest.1)

-- The service has written out what is in the TTY's buffer, and no answer comes until the timeout.
abbrev pub silent_round : Platform → Conn → Conn
silent_round p c =
    tx_ticks (suc c.tx.tticks) p (tx_data_sent (record c { tty_out = buf_empty c.tty_out }))

abbrev pub silent_rounds : ℕ → Platform → Conn → Conn
silent_rounds zero p c = c
silent_rounds (suc k) p c = silent_rounds k p (silent_round p c)

-- What each round puts into the TTY's buffer, which is empty before it.
abbrev pub silent_output : ℕ → Platform → Conn → List (List ℕ)
silent_output zero p c = []
silent_output (suc k) p c =
    contents (silent_round p c).tty_out ∷ silent_output k p (silent_round p c)

-- The connection at the timeout.
abbrev late : Conn → Conn
late c = record c {
  tty_out = buf_empty c.tty_out;
  tx = record (c.tx) { state = tx_pend_resp; eticks = c.tx.tticks + 1 };
}

silent_round-resp_timeout :
    (p : Platform) (c : Conn)
    → c.tx.state ≡ tx_pend_msg_tx
    → paused c ≡ false
    → c.tx.tticks + 1 < 2 ^ 32
    → silent_round p c ≡ resp_timeout p (late c)
unfolding tx_data_sent
silent_round-resp_timeout p c s runs small =
    let c1 : Conn = record c {
      tty_out = buf_empty c.tty_out;
      tx = record (c.tx) { state = tx_pend_resp; eticks = 0 };
    } in
    let sent : tx_data_sent (record c { tty_out = buf_empty c.tty_out }) ≡ c1 = ground arith in
    ap (tx_ticks (suc c.tx.tticks) p) sent
    ∙ (tx_ticks-resp_timeout c.tx.tticks p c1 refl runs (omega arith) small).1

-- DLE ENQ goes out.
abbrev asked : Conn → Conn
asked c = record c {
  tty_out =
      (buf_append_byte (buf_empty c.tty_out) sym_dle or_else (λ b. buf_append_byte b sym_enq)).0;
  tx = record (c.tx) {
    state = tx_pend_msg_tx;
    eticks = c.tx.tticks + 1;
    enq_cnt = inc c.tx.enq_cnt;
  };
  dcnts = record (c.dcnts) { resp_timeouts = inc c.dcnts.resp_timeouts };
}

resp_timeout-asks :
    (p : Platform) (c : Conn)
    → ltb c.tx.max_enq (inc c.tx.enq_cnt) ≡ false
    → (buf_append_byte (buf_empty c.tty_out) sym_dle or_else (λ b. buf_append_byte b sym_enq)).1
      ≡ false
    → resp_timeout p (late c) ≡ asked c
unfolding resp_timeout send_enq
resp_timeout-asks p c more room = rw (more, room)

-- The message is given up.
abbrev dropped : Conn → Conn
dropped c = record c {
  tty_out = buf_empty c.tty_out;
  tx = flush_msg (record (c.tx) {
    state = tx_pend_resp;
    eticks = c.tx.tticks + 1;
    enq_cnt = inc c.tx.enq_cnt;
  });
  dcnts = record (c.dcnts) {
    resp_timeouts = inc c.dcnts.resp_timeouts;
    tx_fail = inc c.dcnts.tx_fail;
  };
}

resp_timeout-drops :
    (p : Platform) (c : Conn)
    → ltb c.tx.max_enq (inc c.tx.enq_cnt) ≡ true
    → quiet c.clients ≡ true
    → resp_timeout p (late c) ≡ fail_notice p (dropped c)
unfolding resp_timeout client_msg_tx_fail find_next_tx fail_notice flush_msg
resp_timeout-drops p c enough q = rw enough (
    find_next_tx_on-none p (fail_notice p (dropped c)) _ none (
      next_ready-quiet (fail_notice p (dropped c)) none
        (quiet-modify_opt _ c.tx.client c.clients (λ d. refl) q)))

-- A message that no one answers is followed by DLE ENQ, 0x10 0x05, once after each timeout, until
-- `max_enq` of them have gone out; with the next timeout it is given up: nothing more goes out, the
-- transmitter is idle, with an empty buffer, and the message's client is told. The TTY's buffer has
-- room for two bytes, the transmitter's clock runs, and no client has another message ready.
pub silent_rounds-give_up :
    (left : ℕ) (p : Platform) (c : Conn)
    → c.tx.state ≡ tx_pend_msg_tx
    → c.tx.enq_cnt + left ≡ c.tx.max_enq
    → c.tx.max_enq + 1 < 2 ^ 32
    → c.tx.tticks + 1 < 2 ^ 32
    → paused c ≡ false
    → quiet c.clients ≡ true
    → IsValid c.tty_out
    → 2 ≤ c.tty_out.max
    → let d = silent_rounds left p c in
      let e = silent_rounds (suc left) p c in
      (silent_output (suc left) p c ≡ replicate left (0x10 ∷ 0x05 ∷ []) ++ ([] ∷ []))
      × (d.tx.state ≡ tx_pend_msg_tx)
      × (d.tx.msg ≡ c.tx.msg)
      × (d.tx.enq_cnt ≡ c.tx.max_enq)
      × (e.tx.state ≡ tx_idle)
      × (e.tx.msg.len ≡ 0)
      × (e.clients ≡ (fail_notice p c).clients)
unfolding fail_notice flush_msg buf_empty
silent_rounds-give_up zero p c s count small ticks runs q v room =
    let enough : ltb c.tx.max_enq (inc c.tx.enq_cnt) ≡ true = ground arith in
    let last : silent_round p c ≡ fail_notice p (dropped c) =
      silent_round-resp_timeout p c s runs ticks ∙ resp_timeout-drops p c enough q in
    rw last (refl, s, refl, omega arith, refl, refl, refl)
silent_rounds-give_up (suc left) p c s count small ticks runs q v room =
    let more : ltb c.tx.max_enq (inc c.tx.enq_cnt) ≡ false = ground arith in
    let enq =
      Appends-room
        (buf_append_byte (buf_empty c.tty_out) sym_dle or_else (λ b. buf_append_byte b sym_enq))
        (or_else-Appends (λ b. buf_append_byte b sym_enq)
          (buf_append_byte (buf_empty c.tty_out) sym_dle)
          (byte-Appends (buf_empty-IsValid v) sym_dle) (λ b w. byte-Appends w sym_enq))
        (omega arith) in
    let round : silent_round p c ≡ asked c =
      silent_round-resp_timeout p c s runs ticks ∙ resp_timeout-asks p c more enq.0 in
    let first : (n : ℕ) → silent_rounds (suc n) p c ≡ silent_rounds n p (asked c) =
      λ n. ap (silent_rounds n p) round in
    let rest =
      silent_rounds-give_up left p (asked c) refl (omega arith) small ticks runs q enq.1.valid
        (omega (arith, enq.1.same_max)) in
    let out : silent_output (suc (suc left)) p c
        ≡ replicate (suc left) (0x10 ∷ 0x05 ∷ []) ++ ([] ∷ []) =
      ap (λ d. contents d.tty_out ∷ silent_output (suc left) p d) round
      ∙ ap₂ (λ x l. x ∷ l) enq.1.text rest.0 in
    (
      out,
      rw (first left) rest.1,
      rw (first left) rest.2,
      rw (first left) rest.3,
      rw (first (suc left)) rest.4,
      rw (first (suc left)) rest.5,
      rw (first (suc left)) rest.6,
    )
