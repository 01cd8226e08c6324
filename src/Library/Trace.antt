-- ===== src/Library/Trace.antt =====
-- lib/: what happens at a connection, as a sequence of events, against a ledger of the calls of the
-- users' functions that are asked for and made.
use mathlib.Core.List.Perm
use mathlib.Core.List.{Perm}
use libpccc.Common.{
  ℕ, ◌≤◌, ◌≡◌, refl, sym, ap, ◌∙◌, Bool, true, false, Option, none, some, List, [], ◌++◌, length,
  set, arith, ◌==◌, append_assoc, append-nil, subst, length-set,
}
use libpccc.Buf.{Io}
use libpccc.Df1.State.{Platform}
use libpccc.Library.State.{Pccc, Msg, msg_at}
use libpccc.Library.Message.{msg_send_next}
use libpccc.Library.Manage.{pccc_read, pccc_write, pccc_tick, pccc_close}
use libpccc.Library.Action.{Action}
use libpccc.Library.Send.{Host, cmd_send}
use libpccc.Library.Pool.{IsPool, AllSound-set}
use libpccc.Library.Request.{Request, Wire, wire, run, IsInRange}
use libpccc.Library.Assembly.{little, Desc, Assembled, Assembled-at, Assembled-IsSound}
use libpccc.Library.Assembly.Handles.{Ready, Sends, Refuses, Ready-unused}
use libpccc.Library.Assembly.Requests.{run-Sends, run-Refuses}
use libpccc.Library.Ledger.{Due, due_to, owes, owed, told, owed-set_new, perm_past}
use libpccc.Library.Ledger.Serve.{Serves, Serves-refl, Serves-put, owes-unused, owes-used}
use libpccc.Library.Ledger.Steps.{msg_send_next-Serves}
use libpccc.Library.Ledger.Bytes.{no_stray}
use libpccc.Library.Ledger.Sockets.{received, pccc_read-Serves, pccc_write-Serves}
use libpccc.Library.Ledger.Ends.{pccc_tick-Serves, pccc_close-Serves}

-- An event, with the calls that it newly asks for: a command that is taken, which has a function to
-- call, or one that is refused, what is read from the service and written to it, time that passes,
-- and the connection's end. A command is any of `Request`, with arguments in range, at a connection
-- that is up and has a free message.
pub data Step (p : Platform) : List Due → Pccc → Pccc → Type 0 where
  asks :
      (host : Host) (fn dnode : ℕ) (q : Request) (w : Wire) {c : Pccc} {i : ℕ}
      → Ready c i
      → IsInRange c.mem q
      → wire c.mem q ≡ some w
      → length w.body ≤ 249
      → Step p (due_to (some fn) w.udata) c (run (little p) host (some fn) dnode q c).0
  asks_wrongly :
      (host : Host) (fn : Option ℕ) (dnode : ℕ) (q : Request) {c : Pccc} {i : ℕ}
      → Ready c i
      → IsInRange c.mem q
      → wire c.mem q ≡ none
      → Step p [] c (run (little p) host fn dnode q c).0
  reads :
      (junk : ℕ) (now : ℕ → Option ℕ) (ios : List (Io (List ℕ))) {c : Pccc}
      → no_stray (little p) junk now (received ios c) ≡ true
      → Step p [] c (pccc_read (little p) junk now ios c).0
  writes : (ios : List (Io ℕ)) {c : Pccc} → Step p [] c (pccc_write ios c).0
  ticks : (now : ℕ → Option ℕ) {c : Pccc} → Step p [] c (pccc_tick now c).0
  closes : (closed : Bool) {c : Pccc} → c.connected ≡ true → Step p [] c (pccc_close closed c).0

pub data Trace (p : Platform) : List Due → Pccc → Pccc → Type 0 where
  start : {c : Pccc} → Trace p [] c c
  next :
      {asked new : List Due} {b c d : Pccc}
      → Trace p asked b c
      → Step p new c d
      → Trace p (new ++ asked) b d

-- The ledger: what was asked for and what was owed is told, or still owed, and nothing else is told.
pub record Balances (asked : List Due) (c d : Pccc) : Type 0 where
  pub new : List Due
  pub paid : Perm (asked ++ owed c.msgs) (new ++ owed d.msgs)
  pub said : told d.calls ≡ new ++ told c.calls
  pub pool : IsPool d

Serves-Balances : {c d : Pccc} → Serves c d → Balances [] c d
Serves-Balances s = record {
  new = s.settles.new;
  paid = s.settles.paid;
  said = s.settles.said;
  pool = s.pool;
}

Balances-trans :
    {xs ys : List Due} {a b c : Pccc} → Balances xs a b → Balances ys b c → Balances (ys ++ xs) a c
Balances-trans {xs} {ys} {a} {b} {c} s t = record {
  new = t.new ++ s.new;
  paid =
      rw (append_assoc ys xs (owed a.msgs), append_assoc t.new s.new (owed c.msgs))
        (Perm.trans (Perm.append_left ys s.paid) (
          Perm.trans (perm_past ys s.new (owed b.msgs))
            (Perm.trans (Perm.append_left s.new t.paid) (perm_past s.new t.new (owed c.msgs)))));
  said = t.said ∙ ap (λ l. t.new ++ l) s.said ∙ sym (append_assoc t.new s.new (told a.calls));
  pool = t.pool;
}

-- A new command is owed its call.
Assembled-Balances :
    {c e : Pccc} {i : ℕ} {desc : Desc} {fn udata : Option ℕ} {reply : _} {xs : List ℕ}
    → IsPool c
    → Assembled c i desc fn udata reply xs e
    → Balances (due_to fn udata) c e
Assembled-Balances {c} {e} {i} {desc} {fn} {udata} h a =
    let m : Msg = a.message in
    let busy : (m.state == 0) ≡ false = ground (arith, a.pending) in
    let idle : owes (msg_at c i) ≡ [] = owes-unused (msg_at c i) (ground (arith, a.was_free)) in
    let due : owes m ≡ due_to fn udata =
      owes-used m busy ∙ ap (λ f. due_to f m.udata) a.notifies ∙ ap (due_to fn) a.points in
    let new : Perm (owed (set c.msgs i m)) (owes m ++ owed c.msgs) =
      owed-set_new c.msgs i m a.inside idle in
    record {
      new = [];
      paid = Perm.symm (
          subst (λ l. Perm (owed l) (due_to fn udata ++ owed c.msgs)) (sym a.placed)
            (subst (λ l. Perm (owed (set c.msgs i m)) (l ++ owed c.msgs)) due new));
      said = ap told a.same_calls;
      pool = record {
        sound = rw a.placed (AllSound-set c.msgs i m h.sound (Assembled-IsSound a));
        in_pool = omega (arith, h.in_pool, a.same_cur, ap length a.placed, length-set c.msgs i m);
      };
    }

-- With a function to call, a command is queued, and the queue is served.
cmd_send-queues :
    (p : Platform) (host : Host) (i : ℕ) (e : Pccc) {fn : ℕ}
    → (msg_at e i).notify ≡ some fn
    → (cmd_send p host i e).0 ≡ (msg_send_next p e).0
unfolding cmd_send
cmd_send-queues p host i e n = rw (cmd_send, n) refl

Sends-Balances :
    {p : Platform} {host : Host} {fn dnode : ℕ} {c : Pccc} {i : ℕ} {w : Wire}
    {act : Action (Unit {0})}
    → IsPool c
    → Sends p host (some fn) dnode c i w act
    → Balances (due_to (some fn) w.udata) c (act c).0
Sends-Balances {p} {host} {fn} {dnode} {c} {i} {w} {act} h s =
    let e : Pccc = s.assembled in
    let taken : Balances (due_to (some fn) w.udata) c e = Assembled-Balances h s.holds in
    let queued : (msg_at e i).notify ≡ some fn =
      ap (λ (m : Msg). m.notify) (Assembled-at s.holds) ∙ s.holds.notifies in
    let end : (act c).0 ≡ (msg_send_next (little p) e).0 =
      ap (λ (r : Pccc × _). r.0) s.sends ∙ cmd_send-queues (little p) host i e queued in
    subst (λ d. Balances (due_to (some fn) w.udata) c d) (sym end)
      (Balances-trans taken (Serves-Balances (msg_send_next-Serves (little p) e taken.pool)))

Refuses-Serves :
    {c : Pccc} {i : ℕ} {act : Action (Unit {0})} → Ready c i → Refuses c i act → Serves c (act c).0
Refuses-Serves {c} {i} {act} r f =
    Serves-put i f.left r.pool f.sound
      (owes-unused f.left (ground (arith, f.unused))
        ∙ sym (owes-unused (msg_at c i) (ground (arith, Ready-unused r))))
      f.placed f.same_calls f.same_cur

Step-Balances :
    (p : Platform) {new : List Due} {c d : Pccc} → IsPool c → Step p new c d → Balances new c d
Step-Balances p h (asks host fn dnode q w r ranged e short) =
    Sends-Balances h (run-Sends p host (some fn) dnode r q ranged w e short)
Step-Balances p h (asks_wrongly host fn dnode q r ranged e) =
    Serves-Balances (Refuses-Serves r (run-Refuses p host fn dnode r q ranged e))
Step-Balances p h (reads junk now ios known) =
    Serves-Balances (pccc_read-Serves (little p) junk now ios _ h known)
Step-Balances p h (writes ios) = Serves-Balances (pccc_write-Serves ios _ h)
Step-Balances p h (ticks now) = Serves-Balances (pccc_tick-Serves now _ h)
Step-Balances p h (closes closed up) = Serves-Balances (pccc_close-Serves closed _ h up).0

-- On a little-endian host, from a sound pool, after any sequence of non-blocking commands as in
-- `asks`, commands with wrong arguments, reads of bytes of which none is an ACK or a NAK for a message
-- not in use, writes, ticks and closings: the calls that were owed and the new ones that were asked
-- for are, as multisets, the ones made since and the ones still owed, each call made has the function
-- and pointer of its command, and the pool is sound.
pub Trace-Balances :
    (p : Platform) {asked : List Due} {c d : Pccc}
    → IsPool c
    → Trace p asked c d
    → Balances asked c d
Trace-Balances p h start = Serves-Balances (Serves-refl h)
Trace-Balances p h (next before step) =
    let b = Trace-Balances p h before in Balances-trans b (Step-Balances p b.pool step)

-- From a connection with a sound pool that owes nothing and has called nothing, after any such
-- sequence that leaves the connection up, closing it completes the calls: the ones made since the
-- start are the ones that were asked for, each as often, in some order.
pub close-Perm :
    (p : Platform) (closed : Bool) {asked : List Due} {c d : Pccc}
    → IsPool c
    → owed c.msgs ≡ []
    → c.calls ≡ []
    → Trace p asked c d
    → d.connected ≡ true
    → Perm asked (told (pccc_close closed d).0.calls)
close-Perm p closed {asked} {c} {d} h none_owed none_told trace up =
    let e : Pccc = (pccc_close closed d).0 in
    let b = Trace-Balances p h trace in
    let end = pccc_close-Serves closed d b.pool up in
    let all = Balances-trans b (Serves-Balances end.0) in
    let said : told e.calls ≡ all.new =
      all.said ∙ ap (λ l. all.new ++ told l) none_told ∙ append-nil all.new in
    let asked_only : asked ++ owed c.msgs ≡ asked =
      ap (λ l. asked ++ l) none_owed ∙ append-nil asked in
    let told_only : all.new ++ owed e.msgs ≡ told e.calls =
      ap (λ l. all.new ++ l) end.1 ∙ append-nil all.new ∙ sym said in
    subst (λ l. Perm l (told e.calls)) asked_only
      (subst (λ l. Perm (asked ++ owed c.msgs) l) told_only all.paid)
