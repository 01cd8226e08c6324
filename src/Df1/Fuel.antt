-- ===== src/Df1/Fuel.antt =====
-- df1d/client.c: the fuel of `find_next_tx` is enough.
use libpccc.Common.{
  ℕ, zero, suc, ◌+◌, ◌≤◌, ◌<◌, ◌≡◌, refl, ap, sym, ◌∙◌, Bool, true, false, not, ◌&&◌, ◌||◌, Option,
  none, some, List, [], ◌∷◌, ◌++◌, arith, length, ◌==◌, if◌then◌else◌, inl, inr, Bool-cases,
  Option-cases, ◌⊎◌,
}
use libpccc.Buf.{buf_append_buf}
use libpccc.Df1.State.{Platform, Client, Conn, tx_idle, tx_pend_msg_tx, client_at, modify}
use libpccc.Df1.Transmit.{
  tx_busy, is_ready, first_ready, from_client, before_client, next_ready, start_at, fail_notice,
  find_next_tx, find_next_tx_on, tx_msg_with, send_msg_with, frame_msg, flush_msg,
}
use libpccc.Df1.Handover.{client_at-modify}
use libpccc.Df1.Faults.{find_next_tx_on-submits, submits}

-- How many clients are ready, and whether all structures have addresses of their own.
abbrev pub ready_count : List Client → ℕ
ready_count [] = 0
ready_count (c ∷ cs) = if is_ready c then suc (ready_count cs) else ready_count cs

abbrev pub has_id : ℕ → List Client → Bool
has_id q [] = false
has_id q (c ∷ cs) = c.id == q || has_id q cs

abbrev pub own_ids : List Client → Bool
own_ids [] = true
own_ids (c ∷ cs) = not (has_id c.id cs) && own_ids cs

ready_count-le : (cs : List Client) → ready_count cs ≤ length cs
ready_count-le [] = omega arith
ready_count-le (c ∷ cs) = ground (arith, ready_count-le cs)

-- A client of the list.
abbrev In : Client → List Client → Type 0
In cl [] = ⊥
In cl (c ∷ cs) = (c ≡ cl) ⊎ In cl cs

In-append : (cl : Client) (xs ys : List Client) → In cl (xs ++ ys) → In cl xs ⊎ In cl ys
In-append cl [] ys m = inr m
In-append cl (x ∷ xs) ys (inl e) = inl (inl e)
In-append cl (x ∷ xs) ys (inr m) = elim (In-append cl xs ys m) [
  | inl l ↦ inl (inr l)
  | inr r ↦ inr r
]

In-first_ready :
    (cs : List Client) (cl : Client) → first_ready cs ≡ some cl → In cl cs × (is_ready cl ≡ true)
unfolding first_ready
In-first_ready [] cl e = cc
In-first_ready (c ∷ cs) cl e = elim (Bool-cases (is_ready c)) [
  | inl r ↦
      let same : some c ≡ some cl = rw r at e in
      let is : c ≡ cl = cc in (inl is, ap is_ready (sym is) ∙ r)
  | inr u ↦ let rest = In-first_ready cs cl (rw u at e) in (inr rest.0, rest.1)
]

In-from_client : (q : ℕ) (cs : List Client) (cl : Client) → In cl (from_client q cs) → In cl cs
In-from_client q [] cl m = m
In-from_client q (c ∷ cs) cl m = elim (Bool-cases (c.id == q)) [
  | inl h ↦ rw h at m
  | inr h ↦ inr (In-from_client q cs cl (rw h at m))
]

In-before_client : (q : ℕ) (cs : List Client) (cl : Client) → In cl (before_client q cs) → In cl cs
In-before_client q [] cl m = m
In-before_client q (c ∷ cs) cl m = elim (Bool-cases (c.id == q)) [
  | inl h ↦ absurd (rw h at m)
  | inr h ↦ elim (rw h at m) [ inl e ↦ inl e | inr r ↦ inr (In-before_client q cs cl r) ]
]

has_id-In : (cl : Client) (cs : List Client) → In cl cs → has_id cl.id cs ≡ true
has_id-In cl [] m = absurd m
has_id-In cl (c ∷ cs) (inl e) = let i : c.id ≡ cl.id = ap (λ d. d.id) e in ground arith
has_id-In cl (c ∷ cs) (inr m) = ground (arith, has_id-In cl cs m)

client_at-In :
    (cl : Client) (cs : List Client) → own_ids cs ≡ true → In cl cs → client_at cl.id cs ≡ some cl
client_at-In cl [] o m = absurd m
client_at-In cl (c ∷ cs) o (inl e) =
    let here : (c.id == cl.id) ≡ true = let i : c.id ≡ cl.id = ap (λ d. d.id) e in ground arith in
    rw here (ap some e)
client_at-In cl (c ∷ cs) o (inr m) =
    let h = has_id-In cl cs m in
    elim (Bool-cases (c.id == cl.id)) [
      | inl here ↦
          let same : c.id ≡ cl.id = ground arith in
          let twice : has_id c.id cs ≡ true = ap (λ q. has_id q cs) same ∙ h in absurd (grind arith)
      | inr there ↦ rw there (client_at-In cl cs (ground arith) m)
    ]

next_ready-at :
    (c : Conn) (start : Option ℕ) (cl : Client)
    → own_ids c.clients ≡ true
    → next_ready c start ≡ some cl
    → (client_at cl.id c.clients ≡ some cl) × (is_ready cl ≡ true)
unfolding next_ready
next_ready-at c start cl o e = elim (Option-cases (start_at c start)) [
  | inl n ↦ let no_client : none ≡ some cl = rw (next_ready, n) at e in cc
  | inr (q, n) ↦
      let found : first_ready (from_client q c.clients ++ before_client q c.clients) ≡ some cl =
        rw (next_ready, n) at e in
      let (m, r) = In-first_ready (from_client q c.clients ++ before_client q c.clients) cl found in
      elim (In-append cl (from_client q c.clients) (before_client q c.clients) m) [
        | inl f ↦ (client_at-In cl c.clients o (In-from_client q c.clients cl f), r)
        | inr b ↦ (client_at-In cl c.clients o (In-before_client q c.clients cl b), r)
      ]
]

-- A write that keeps the identities, and what it does to the number of ready clients.
module _ (q : ℕ) (f : Client → Client) (keeps : (c : Client) → (f c).id ≡ c.id) where
  has_id-modify : (r : ℕ) (cs : List Client) → has_id r (modify q f cs) ≡ has_id r cs
  has_id-modify r [] = refl
  has_id-modify r (c ∷ cs) = ground (arith, keeps c, has_id-modify r cs)

  own_ids-modify : (cs : List Client) → own_ids (modify q f cs) ≡ own_ids cs
  own_ids-modify [] = refl
  own_ids-modify (c ∷ cs) = elim (Bool-cases (c.id == q)) [
    | inl h ↦ rw h (ap (λ i. not (has_id i cs) && own_ids cs) (keeps c))
    | inr h ↦ rw (h, has_id-modify c.id cs, own_ids-modify cs)
  ]

  ready_count-same :
      ((c : Client) → is_ready (f c) ≡ is_ready c)
      → (cs : List Client) → ready_count (modify q f cs) ≡ ready_count cs
  ready_count-same same [] = refl
  ready_count-same same (c ∷ cs) = ground (arith, same c, ready_count-same same cs)

  ready_count-less :
      ((c : Client) → is_ready (f c) ≡ false)
      → (cs : List Client) (cl : Client) → client_at q cs ≡ some cl
      → is_ready cl ≡ true
      → ready_count (modify q f cs) + 1 ≡ ready_count cs
  ready_count-less done [] cl e r = cc
  ready_count-less done (c ∷ cs) cl e r = elim (Bool-cases (c.id == q)) [
    | inl h ↦
        let same : some c ≡ some cl = rw h at e in
        let is : c ≡ cl = cc in
        let ready : is_ready c ≡ true = ap is_ready is ∙ r in ground (arith, done c)
    | inr h ↦ ground (arith, ready_count-less done cs cl (rw h at e) r)
  ]

-- The connection that the notice of failure leaves when the frame of a ready client has no room.
module _ (p : Platform) (c : Conn) (cl : Client) where
  abbrev sending : Conn
  sending = record c {
    tx = record (c.tx) {
      msg = (frame_msg p c.use_crc c.tx.msg cl.df1_tx).1.0;
      client = some cl.id;
    };
    clients =
        modify cl.id (λ d. record d { df1_tx = (frame_msg p c.use_crc c.tx.msg cl.df1_tx).0 })
          c.clients;
  }

  abbrev refused_conn : Conn
  refused_conn =
      fail_notice p
        (record sending { tx = flush_msg (record (sending.tx) { state = tx_pend_msg_tx }) })

  fewer_ready :
      client_at cl.id c.clients ≡ some cl
      → is_ready cl ≡ true
      → own_ids c.clients ≡ true
      → (ready_count refused_conn.clients + 1 ≡ ready_count c.clients)
        × (own_ids refused_conn.clients ≡ true)
  unfolding fail_notice flush_msg
  fewer_ready at_id r o =
      let src : Client → Client =
        λ d. record d { df1_tx = (frame_msg p c.use_crc c.tx.msg cl.df1_tx).0 } in
      let at2 = client_at-modify cl.id src c.clients (λ d. refl) at_id in
      (
        ready_count-less cl.id _ (λ d. refl) (λ d. refl) (modify cl.id src c.clients) (src cl) at2 r
            ∙ ready_count-same cl.id src (λ d. refl) (λ d. refl) c.clients,
        own_ids-modify cl.id _ (λ d. refl) (modify cl.id src c.clients)
            ∙ own_ids-modify cl.id src (λ d. refl) c.clients
            ∙ o,
      )

  -- Two ways to go on after a failure that agree on that connection.
  tx_msg_with-agree :
      (f g : Conn → Conn)
      → f (record sending { tx = flush_msg (record (sending.tx) { state = tx_pend_msg_tx }) })
        ≡ g (record sending { tx = flush_msg (record (sending.tx) { state = tx_pend_msg_tx }) })
      → tx_msg_with f p c cl ≡ tx_msg_with g p c cl
  unfolding tx_msg_with send_msg_with
  tx_msg_with-agree f g e = elim (Bool-cases (buf_append_buf c.tty_out sending.tx.msg).1) [
    | inl full ↦ rw (full, e)
    | inr room ↦ rw room
  ]

find_next_tx_on-more :
    (fuel : ℕ) (p : Platform) (c : Conn) (start : Option ℕ)
    → own_ids c.clients ≡ true
    → ready_count c.clients < fuel
    → find_next_tx_on (suc fuel) p c start ≡ find_next_tx_on fuel p c start
unfolding find_next_tx_on
find_next_tx_on-more zero p c start o h = absurd (omega arith)
find_next_tx_on-more (suc fuel) p c start o h = elim (Bool-cases (tx_busy c.tx)) [
  | inl busy ↦ rw busy
  | inr free ↦ elim (Option-cases (next_ready c start)) [
    | inl e ↦ rw (free, e)
    | inr (cl, e) ↦
        let (at_id, ready) = next_ready-at c start cl o e in
        let (less, own) = fewer_ready p c cl at_id ready o in
        let same =
          tx_msg_with-agree p c cl (λ d. find_next_tx_on (suc fuel) p (fail_notice p d) none)
            (λ d. find_next_tx_on fuel p (fail_notice p d) none)
            (find_next_tx_on-more fuel p (refused_conn p c cl) none own (omega arith)) in
        let idle : c.tx.state ≡ tx_idle = ground arith in
        find_next_tx_on-submits p c cl (suc fuel) start idle e
        ∙ ap (submits cl.id) same
        ∙ sym (find_next_tx_on-submits p c cl fuel start idle e)
  ]
]

-- When no two client structures are the same, `find_next_tx` gives with any further rounds of fuel
-- what it gives with its own, however many messages fail one after the other.
pub find_next_tx-fuel :
    (extra : ℕ) (p : Platform) (c : Conn) (start : Option ℕ)
    → own_ids c.clients ≡ true
    → find_next_tx_on (extra + suc (length c.clients)) p c start ≡ find_next_tx p c start
unfolding find_next_tx
find_next_tx-fuel zero p c start o = ap (λ n. find_next_tx_on n p c start) (omega arith)
find_next_tx-fuel (suc extra) p c start o =
    let shift : suc extra + suc (length c.clients) ≡ suc (extra + suc (length c.clients)) =
      omega arith in
    ap (λ n. find_next_tx_on n p c start) shift
    ∙ find_next_tx_on-more (extra + suc (length c.clients)) p c start o
        (omega (arith, ready_count-le c.clients))
    ∙ find_next_tx-fuel extra p c start o
