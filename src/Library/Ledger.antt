-- ===== src/Library/Ledger.antt =====
-- lib/: which calls of the user's functions the library owes, and which it has made.
pub mod Reply
pub mod Serve
pub mod Steps
pub mod Replies
pub mod Acks
pub mod Ends
pub mod Bytes
pub mod Sockets
use mathlib.Core.List.Perm
use mathlib.Core.List.{Perm, perm_append_comm}
use libpccc.Common.{
  ℕ, zero, suc, ◌≡◌, refl, sym, ap, ◌∙◌, Option, none, some, List, [], ◌∷◌, ◌++◌, get_or, set,
  length, ◌<◌, arith, ◌==◌, if◌then◌else◌, append-nil, append_assoc,
}
use libpccc.Library.State.{Msg, no_msg, Call, notified, null_call, Pccc}

-- A user's function and the pointer that it will be given.
abbrev pub Due : Type 0
Due = ℕ × Option ℕ

abbrev pub due_to : Option ℕ → Option ℕ → List Due
due_to none udata = []
due_to (some fn) udata = (fn, udata) ∷ []

-- A message in use owes its user a call, if it has a function to call.
abbrev pub owes : Msg → List Due
owes m = if m.state == 0 then [] else due_to m.notify m.udata

abbrev pub owed : List Msg → List Due
owed [] = []
owed (m ∷ ms) = owes m ++ owed ms

abbrev pub told : List Call → List Due
told [] = []
told (notified fn ret udata ∷ calls) = (fn, udata) ∷ told calls
told (null_call ∷ calls) = told calls

-- The calls made since, and owed before: what was owed is told, once, and nothing else is.
pub record Settles (c c' : Pccc) : Type 0 where
  pub new : List Due
  pub paid : Perm (owed c.msgs) (new ++ owed c'.msgs)
  pub said : told c'.calls ≡ new ++ told c.calls

pub Settles-same :
    {c c' : Pccc} → owed c'.msgs ≡ owed c.msgs → told c'.calls ≡ told c.calls → Settles c c'
Settles-same {c} {c'} o t = record { new = []; paid = rw o Perm.rfl; said = t }

-- A block moves past another.
pub perm_past : (xs ys zs : List Due) → Perm (xs ++ (ys ++ zs)) (ys ++ (xs ++ zs))
perm_past xs ys zs =
    rw (← append_assoc xs ys zs, ← append_assoc ys xs zs)
      (Perm.append_right zs (perm_append_comm xs ys))

pub Settles-trans : {a b c : Pccc} → Settles a b → Settles b c → Settles a c
Settles-trans {a} {b} {c} s t = record {
  new = t.new ++ s.new;
  paid = Perm.trans s.paid (
      Perm.trans (Perm.append_left s.new t.paid)
        (rw (append_assoc t.new s.new (owed c.msgs)) (perm_past s.new t.new (owed c.msgs))));
  said = t.said ∙ ap (λ l. t.new ++ l) s.said ∙ sym (append_assoc t.new s.new (told a.calls));
}

pub owed-set_same :
    (ms : List Msg) (i : ℕ) (m : Msg)
    → owes m ≡ owes (get_or ms i no_msg)
    → owed (set ms i m) ≡ owed ms
owed-set_same [] i m e = refl
owed-set_same (x ∷ ms) zero m e = ap (λ l. l ++ owed ms) e
owed-set_same (x ∷ ms) (suc i) m e = ap (λ l. owes x ++ l) (owed-set_same ms i m e)

-- A message that no longer owes the call that it may have owed.
pub owed-set_end :
    (ms : List Msg) (i : ℕ) (m : Msg)
    → owes m ≡ []
    → Perm (owed ms) (owes (get_or ms i no_msg) ++ owed (set ms i m))
owed-set_end [] i m e = Perm.rfl
owed-set_end (x ∷ ms) zero m e = rw e Perm.rfl
owed-set_end (x ∷ ms) (suc i) m e =
    Perm.trans (Perm.append_left (owes x) (owed-set_end ms i m e))
      (perm_past (owes x) (owes (get_or ms i no_msg)) (owed (set ms i m)))

-- A message that owed nothing.
pub owed-set_new :
    (ms : List Msg) (i : ℕ) (m : Msg)
    → i < length ms
    → owes (get_or ms i no_msg) ≡ []
    → Perm (owed (set ms i m)) (owes m ++ owed ms)
owed-set_new [] i m l e = absurd (omega arith)
owed-set_new (x ∷ ms) zero m l e = rw e Perm.rfl
owed-set_new (x ∷ ms) (suc i) m l e =
    Perm.trans (Perm.append_left (owes x) (owed-set_new ms i m (omega arith) e))
      (perm_past (owes x) (owes m) (owed ms))
