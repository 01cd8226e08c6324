-- ===== src/Library/Pool.antt =====
-- lib/msg.c: what holds of every message of the pool, and the searches through the pool.
use libpccc.Common.{
  ℕ, zero, suc, ◌+◌, ◌<◌, ◌≡◌, ◌⊎◌, inl, inr, refl, ap, ◌∙◌, Bool, true, false, not, ◌&&◌, some,
  List, [], ◌∷◌, length, get_or, set, arith, ltb, ◌==◌, bit_or, passes_below, passes_below-at,
  length-set, length-replicate, Bool-cases,
}
use libpccc.Buf.{buf_empty}
use libpccc.Buf.Invariant.{IsValid}
use libpccc.Library.State.{buf_size, no_cells, Msg, no_msg, Pccc, put_msg}
use libpccc.Library.Message.{msg_flush, free_from, find_cmd_from, awaits}

-- A message that is not in use is empty and has no time at which it expires, and one that is, is
-- a command. Of the state there are four bits.
pub record IsSound (m : Msg) : Type 0 where
  pub small : m.state < 16
  pub phase :
      ((m.state ≡ 0) × (m.expires ≡ 0) × (m.buf.len ≡ 0))
      ⊎ (((m.state == 0) ≡ false) × (m.is_cmd ≡ true))
  pub valid : IsValid m.buf
  pub sized : m.buf.max ≡ buf_size

abbrev pub AllSound : List Msg → Type 0
AllSound [] = Unit {0}
AllSound (m ∷ ms) = IsSound m × AllSound ms

pub no_msg-IsSound : IsSound no_msg
unfolding no_cells
no_msg-IsSound = record {
  small = omega arith;
  phase = inl (refl, refl, refl);
  valid = record {
    storage = length-replicate {A = ℕ} buf_size 0;
    small = omega arith;
    filled = omega arith;
    read = omega arith;
  };
  sized = refl;
}

pub IsSound-at : (ms : List Msg) (i : ℕ) → AllSound ms → IsSound (get_or ms i no_msg)
IsSound-at [] i h = no_msg-IsSound
IsSound-at (m ∷ ms) zero h = h.0
IsSound-at (m ∷ ms) (suc i) h = IsSound-at ms i h.1

pub AllSound-set :
    (ms : List Msg) (i : ℕ) (m : Msg) → AllSound ms → IsSound m → AllSound (set ms i m)
AllSound-set [] i m h s = tt
AllSound-set (x ∷ ms) zero m h s = (s, h.1)
AllSound-set (x ∷ ms) (suc i) m h s = (h.0, AllSound-set ms i m h.1 s)

-- The pool of a connection.
pub record IsPool (c : Pccc) : Type 0 where
  pub sound : AllSound c.msgs
  pub in_pool : c.cur_msg < length c.msgs

pub put_msg-IsPool : {c : Pccc} (i : ℕ) (m : Msg) → IsPool c → IsSound m → IsPool (put_msg c i m)
put_msg-IsPool {c} i m h s = record {
  sound = AllSound-set c.msgs i m h.sound s;
  in_pool = omega (arith, h.in_pool, length-set c.msgs i m);
}

pub msg_flush-IsSound : {m : Msg} → IsSound m → IsSound (msg_flush m)
unfolding msg_flush buf_empty
msg_flush-IsSound {m} h = record {
  small = omega arith;
  phase = inl (refl, refl, refl);
  valid = record {
    storage = h.valid.storage;
    small = h.valid.small;
    filled = omega arith;
    read = omega arith;
  };
  sized = h.sized;
}

-- Of the fields of a message, those that matter.
pub IsSound-as :
    {m n : Msg}
    → IsSound m
    → n.state ≡ m.state
    → n.expires ≡ m.expires
    → n.is_cmd ≡ m.is_cmd
    → n.buf ≡ m.buf
    → IsSound n
IsSound-as h st ex cmd b = record {
  small = rw st h.small;
  phase = rw (st, ex, cmd, b) h.phase;
  valid = rw b h.valid;
  sized = rw b h.sized;
}

pub used-is_cmd : {m : Msg} → IsSound m → (m.state == 0) ≡ false → m.is_cmd ≡ true
used-is_cmd {m} h used = ground (arith, h.phase)

-- Another message in use, with the same buffer.
pub busy-IsSound :
    {m n : Msg}
    → IsSound m
    → (m.state == 0) ≡ false
    → (n.state == 0) ≡ false
    → n.state < 16
    → n.is_cmd ≡ m.is_cmd
    → n.buf ≡ m.buf
    → IsSound n
busy-IsSound h used busy small cmd b = record {
  small = small;
  phase = inr (busy, cmd ∙ used-is_cmd h used);
  valid = rw b h.valid;
  sized = rw b h.sized;
}

-- Setting a bit of the state leaves the message in use.
abbrev stays : ℕ → ℕ → Bool
stays bit s = not (bit_or s bit == 0) && ltb (bit_or s bit) 16

or_bit :
    (bit s : ℕ)
    → passes_below 16 (stays bit) ≡ true
    → s < 16
    → ((bit_or s bit == 0) ≡ false) × (bit_or s bit < 16)
or_bit bit s all h = let t = passes_below-at 16 (stays bit) all s h in ground (arith, t)

pub or_ack : (s : ℕ) → s < 16 → ((bit_or s 4 == 0) ≡ false) × (bit_or s 4 < 16)
unfolding passes_below
or_ack s h = or_bit 4 s refl h

pub or_reply : (s : ℕ) → s < 16 → ((bit_or s 8 == 0) ≡ false) × (bit_or s 8 < 16)
unfolding passes_below
or_reply s h = or_bit 8 s refl h

-- What a search finds.
pub free_from-unused :
    (k : ℕ) (ms : List Msg) {i : ℕ}
    → free_from k ms ≡ some i
    → (j : ℕ) × (i ≡ k + j) × (j < length ms) × ((get_or ms j no_msg).state ≡ 0)
unfolding free_from
free_from-unused k [] e = cc
free_from-unused k (m ∷ ms) {i} e = elim (Bool-cases (m.state == 0)) [
  | inl free ↦ (0, ground arith, omega arith, ground arith)
  | inr used ↦
      let r = free_from-unused (k + 1) ms {i = i} (rw used at e) in
      (suc r.0, omega (arith, r.1), omega (arith, r.2), r.3)
]

pub find_cmd_from-awaits :
    (k tns : ℕ) (ms : List Msg) {i : ℕ}
    → find_cmd_from k tns ms ≡ some i
    → (j : ℕ) × (i ≡ k + j) × (j < length ms) × (awaits tns (get_or ms j no_msg) ≡ true)
unfolding find_cmd_from
find_cmd_from-awaits k tns [] e = cc
find_cmd_from-awaits k tns (m ∷ ms) {i} e = elim (Bool-cases (awaits tns m)) [
  | inl here ↦ (0, ground arith, omega arith, here)
  | inr there ↦
      let r = find_cmd_from-awaits (k + 1) tns ms {i = i} (rw there at e) in
      (suc r.0, omega (arith, r.1), omega (arith, r.2), r.3)
]

pub get_or-set_ne :
    (ms : List Msg) (i j : ℕ) (m : Msg)
    → (i == j) ≡ false
    → get_or (set ms i m) j no_msg ≡ get_or ms j no_msg
get_or-set_ne [] i j m h = refl
get_or-set_ne (x ∷ ms) zero zero m h = absurd (ground arith)
get_or-set_ne (x ∷ ms) zero (suc j) m h = refl
get_or-set_ne (x ∷ ms) (suc i) zero m h = refl
get_or-set_ne (x ∷ ms) (suc i) (suc j) m h = get_or-set_ne ms i j m (ground arith)

pub set-set : (ms : List Msg) (i : ℕ) (m n : Msg) → set (set ms i m) i n ≡ set ms i n
set-set [] i m n = refl
set-set (x ∷ ms) zero m n = refl
set-set (x ∷ ms) (suc i) m n = ap (◌∷◌ x) (set-set ms i m n)

pub set-get_or : (ms : List Msg) (i : ℕ) → set ms i (get_or ms i no_msg) ≡ ms
set-get_or [] i = refl
set-get_or (x ∷ ms) zero = refl
set-get_or (x ∷ ms) (suc i) = ap (◌∷◌ x) (set-get_or ms i)

-- A free message stays the first one if it is written and still free.
pub free_from-set :
    (k : ℕ) (ms : List Msg) (j : ℕ) (m : Msg) {i : ℕ}
    → free_from k ms ≡ some i
    → i ≡ k + j
    → m.state ≡ 0
    → free_from k (set ms j m) ≡ some i
unfolding free_from
free_from-set k [] j m e at z = cc
free_from-set k (x ∷ ms) zero m e at z =
    let free : (m.state == 0) ≡ true = ground arith in rw free (ap some (omega arith))
free_from-set k (x ∷ ms) (suc j) m {i} e at z = elim (Bool-cases (x.state == 0)) [
  | inl here ↦ let k_is : some k ≡ some i = rw here at e in absurd (grind arith)
  | inr there ↦ rw there (free_from-set (k + 1) ms j m {i = i} (rw there at e) (omega arith) z)
]
