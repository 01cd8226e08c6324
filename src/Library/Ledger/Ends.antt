-- ===== src/Library/Ledger/Ends.antt =====
-- lib/pccc.c, lib/msg.c: the tick and the closing of a connection serve what the library owes.
use libpccc.Common.{
  if_either, if_false, ℕ, zero, suc, ◌+◌, ◌<◌, ◌≡◌, refl, sym, ap, ◌∙◌, Bool, Bool-cases, inl, inr,
  Option, Option-cases, none, some, List, [], ◌∷◌, ◌++◌, get_or, get_or-set_self, set, length,
  length-set, arith, true, false, not, ◌&&◌, ◌==◌, leb, if◌then◌else◌,
}
use libpccc.Ret.{Ret, success, elink, ecmd_timeout}
use libpccc.Library.State.{Msg, no_msg, Pccc, msg_at, put_msg, tell}
use libpccc.Library.Message.{msg_flush, closed_text, abort_msg, abort_from, msg_abort_all}
use libpccc.Library.Manage.{tick_msg, tick_from, pccc_tick, pccc_close}
use libpccc.Library.Pool.{IsSound, IsSound-at, IsPool, get_or-set_ne}
use libpccc.Library.Ledger.{due_to, owes, owed, told}
use libpccc.Library.Ledger.Serve.{
  Serves, Serves-refl, Serves-same, Serves-trans, Serves-end, owes-used, owes-unused,
  owes-msg_flush, told-tell, tell-msgs, tell-cur_msg,
}

-- A message in use is flushed and its user told.
module _ {c : Pccc} (h : IsPool c) (i : ℕ) (ret : Ret) where
  tell-Serves :
      ((msg_at c i).state == 0) ≡ false
      → Serves c
          (tell (msg_at c i).notify ret (msg_at c i).udata (put_msg c i (msg_flush (msg_at c i))))
  tell-Serves used =
      let m : Msg = msg_at c i in
      let flushed : Pccc = put_msg c i (msg_flush m) in
      Serves-end i m h (IsSound-at c.msgs i h.sound) (tell-msgs m.notify ret m.udata flushed)
        (told-tell m.notify ret m.udata flushed
          ∙ ap (λ l. l ++ told c.calls) (sym (owes-used m used)))
        (tell-cur_msg m.notify ret m.udata flushed)

expiring-used : {m : Msg} → IsSound m → (m.expires == 0) ≡ false → (m.state == 0) ≡ false
expiring-used {m} s e = ground (arith, s.phase)

tick_msg-Serves : (now : Option ℕ) (i : ℕ) (c : Pccc) → IsPool c → Serves c (tick_msg now i c).0
unfolding tick_msg
tick_msg-Serves now i c h =
    let m : Msg = msg_at c i in
    elim (Bool-cases (m.is_cmd && not (m.expires == 0))) [
      | inr idle ↦ rw idle (Serves-refl h)
      | inl armed ↦ elim (Option-cases now) [
        | inl failed ↦ rw (armed, failed) (Serves-same h refl refl h.in_pool)
        | inr (t, at_t) ↦ elim (Bool-cases (leb m.expires t)) [
          | inl due ↦
              rw (armed, at_t, due)
                (tell-Serves h i ecmd_timeout
                  (expiring-used (IsSound-at c.msgs i h.sound) (ground arith)))
          | inr early ↦ rw (armed, at_t, early) (Serves-refl h)
        ]
      ]
    ]

tick_from-Serves :
    (n i : ℕ) (now : ℕ → Option ℕ) (c : Pccc) → IsPool c → Serves c (tick_from n i now c).0
unfolding tick_from
tick_from-Serves zero i now c h = Serves-refl h
tick_from-Serves (suc n) i now c h =
    let one = tick_msg-Serves (now i) i c h in
    elim (Bool-cases (tick_msg (now i) i c).1) [
      | inl failed ↦ rw (tick_from, failed) one
      | inr fine ↦
          rw (tick_from, fine)
            (Serves-trans one (tick_from-Serves n (i + 1) now (tick_msg (now i) i c).0 one.pool))
    ]

-- At any time, a tick leaves the pool sound, and a user is told only of a command that waited.
pub pccc_tick-Serves : (now : ℕ → Option ℕ) (c : Pccc) → IsPool c → Serves c (pccc_tick now c).0
unfolding pccc_tick
pccc_tick-Serves now c h =
    if_either (λ (r : Pccc × Ret). Serves c r.0) c.connected
      (tick_from-Serves (length c.msgs) 0 now c h) (Serves-refl h)

closed_text-same :
    (fn : Option ℕ) (c : Pccc)
    → ((closed_text fn c).msgs ≡ c.msgs)
      × ((closed_text fn c).calls ≡ c.calls)
      × ((closed_text fn c).cur_msg ≡ c.cur_msg)
closed_text-same none c = (refl, refl, refl)
closed_text-same (some fn) c = (refl, refl, refl)

abort_msg-Serves : (c : Pccc) (i : ℕ) → IsPool c → Serves c (abort_msg c i)
unfolding abort_msg
abort_msg-Serves c i h =
    let m : Msg = msg_at c i in
    let named : Pccc = closed_text m.notify c in
    let same = closed_text-same m.notify c in
    elim (Bool-cases (m.state == 0)) [
      | inl unused ↦ rw unused (Serves-refl h)
      | inr used ↦ rw used (
          Serves-end i m h (IsSound-at c.msgs i h.sound)
            (ap (λ l. set l i (msg_flush m)) (tell-msgs m.notify elink m.udata named ∙ same.0))
            (told-tell m.notify elink m.udata named
              ∙ ap (λ l. due_to m.notify m.udata ++ told l) same.1
              ∙ ap (λ l. l ++ told c.calls) (sym (owes-used m used)))
            (tell-cur_msg m.notify elink m.udata named ∙ same.2))
    ]

abort_from-Serves : (n i : ℕ) (c : Pccc) → IsPool c → Serves c (abort_from n i c)
unfolding abort_from
abort_from-Serves zero i c h = Serves-refl h
abort_from-Serves (suc n) i c h =
    let one = abort_msg-Serves c i h in
    Serves-trans one (abort_from-Serves n (i + 1) (abort_msg c i) one.pool)

-- What `abort_msg` does to the pool.
abort_msg-msgs :
    (c : Pccc) (i : ℕ)
    → (abort_msg c i).msgs
      ≡ (if (msg_at c i).state == 0 then c.msgs else set c.msgs i (msg_flush (msg_at c i)))
unfolding abort_msg
abort_msg-msgs c i =
    let m : Msg = msg_at c i in
    let named : Pccc = closed_text m.notify c in
    elim (Bool-cases (m.state == 0)) [
      | inl unused ↦ rw unused
      | inr used ↦ rw used (
          ap (λ l. set l i (msg_flush m))
            (tell-msgs m.notify elink m.udata named ∙ (closed_text-same m.notify c).0))
    ]

-- The messages before `k` owe nothing.
abbrev Quiet : ℕ → List Msg → Type 0
Quiet k ms = (j : ℕ) → j < k → owes (get_or ms j no_msg) ≡ []

owed-Quiet : (ms : List Msg) → Quiet (length ms) ms → owed ms ≡ []
owed-Quiet [] q = refl
owed-Quiet (m ∷ ms) q = rw (q 0 (omega arith)) (owed-Quiet ms (λ j l. q (suc j) (omega arith)))

Quiet-set :
    (ms : List Msg) (i : ℕ) (m : Msg)
    → i < length ms
    → Quiet i ms
    → owes m ≡ []
    → Quiet (i + 1) (set ms i m)
Quiet-set ms i m l q e j k = elim (Bool-cases (i == j)) [
  | inl here ↦
      let at_i : i ≡ j = ground arith in
      ap (λ n. owes (get_or (set ms i m) n no_msg)) (sym at_i)
      ∙ ap owes (get_or-set_self ms i m no_msg l)
      ∙ e
  | inr there ↦ ap owes (get_or-set_ne ms i j m there) ∙ q j (ground arith)
]

Quiet-next :
    (ms : List Msg) (i : ℕ) → Quiet i ms → owes (get_or ms i no_msg) ≡ [] → Quiet (i + 1) ms
Quiet-next ms i q e j k = elim (Bool-cases (i == j)) [
  | inl here ↦ let at_i : i ≡ j = ground arith in ap (λ n. owes (get_or ms n no_msg)) (sym at_i) ∙ e
  | inr there ↦ q j (ground arith)
]

abort_msg-Quiet :
    (c : Pccc) (i : ℕ)
    → i < length c.msgs
    → Quiet i c.msgs
    → Quiet (i + 1) (abort_msg c i).msgs × (length (abort_msg c i).msgs ≡ length c.msgs)
abort_msg-Quiet c i l q =
    let m : Msg = msg_at c i in
    elim (Bool-cases (m.state == 0)) [
      | inl unused ↦
          let same : (abort_msg c i).msgs ≡ c.msgs = rw unused at (abort_msg-msgs c i) in
          rw same (Quiet-next c.msgs i q (owes-unused m unused), refl)
      | inr used ↦
          let gone : (abort_msg c i).msgs ≡ set c.msgs i (msg_flush m) =
            rw used at (abort_msg-msgs c i) in
          rw gone (
            Quiet-set c.msgs i (msg_flush m) l q (owes-msg_flush m),
            length-set c.msgs i (msg_flush m),
          )
    ]

abort_from-Quiet :
    (n i : ℕ) (c : Pccc)
    → i + n ≡ length c.msgs
    → Quiet i c.msgs
    → owed (abort_from n i c).msgs ≡ []
unfolding abort_from
abort_from-Quiet zero i c e q = owed-Quiet c.msgs (λ j l. q j (omega arith))
abort_from-Quiet (suc n) i c e q =
    let one = abort_msg-Quiet c i (omega arith) q in
    abort_from-Quiet n (i + 1) (abort_msg c i) (omega (arith, one.1)) one.0

-- Closing a connection tells every user whose command waited, and leaves no command that waits.
pub pccc_close-Serves :
    (closed : Bool) (c : Pccc)
    → IsPool c
    → c.connected ≡ true
    → Serves c (pccc_close closed c).0 × (owed (pccc_close closed c).0.msgs ≡ [])
unfolding pccc_close msg_abort_all
pccc_close-Serves closed c h up =
    let down : Pccc = record c { connected = false } in
    let pool : IsPool down = record { sound = h.sound; in_pool = h.in_pool } in
    let aborted : Serves c (msg_abort_all down) =
      Serves-trans (Serves-same h refl refl h.in_pool)
        (abort_from-Serves (length c.msgs) 0 down pool) in
    let quiet : owed (msg_abort_all down).msgs ≡ [] =
      abort_from-Quiet (length c.msgs) 0 down (omega arith) (λ j l. absurd (omega arith)) in
    let end : (d : Pccc)
        → d.msgs ≡ (msg_abort_all down).msgs
        → d.calls ≡ (msg_abort_all down).calls
        → d.cur_msg ≡ 0
        → Serves c d × (owed d.msgs ≡ []) =
      λ d m k z. (
        Serves-trans aborted
            (Serves-same aborted.pool m k (omega (arith, aborted.pool.in_pool, z))),
        ap owed m ∙ quiet,
      ) in
    if_false (λ (r : Pccc × Ret). Serves c r.0 × (owed r.0.msgs ≡ [])) (not c.connected)
      (c, success) (ap not up)
      (if_either (λ (r : Pccc × Ret). Serves c r.0 × (owed r.0.msgs ≡ [])) closed
        (end _ refl refl refl) (end _ refl refl refl))
