-- ===== src/Library/Ledger/Serve.antt =====
-- lib/: the two ways in which a function may leave the pool, seen by what the library owes.
use libpccc.Common.{
  ℕ, ◌<◌, ◌≡◌, refl, ap, ◌∙◌, Option, none, some, List, [], ◌∷◌, ◌++◌, set, arith, true, false,
  ◌==◌, length, length-set,
}
use libpccc.Ret.{Ret}
use libpccc.Library.Message.{msg_flush}
use libpccc.Library.State.{Msg, Call, call, tell, Pccc, msg_at}
use libpccc.Library.Pool.{
  IsSound, msg_flush-IsSound, IsSound-at, busy-IsSound, AllSound-set, IsPool,
}
use libpccc.Library.Ledger.{
  due_to, owes, owed, told, Settles, Settles-same, Settles-trans, owed-set_same, owed-set_end,
}

-- The pool is sound, and the calls made are calls that were owed.
pub record Serves (c c' : Pccc) : Type 0 where
  pub settles : Settles c c'
  pub pool : IsPool c'

pub Serves-refl : {c : Pccc} → IsPool c → Serves c c
Serves-refl h = record { settles = Settles-same refl refl; pool = h }

pub Serves-trans : {a b c : Pccc} → Serves a b → Serves b c → Serves a c
Serves-trans s t = record { settles = Settles-trans s.settles t.settles; pool = t.pool }

-- A connection with the same messages and calls, and another current message.
pub Serves-same :
    {c c' : Pccc}
    → IsPool c
    → c'.msgs ≡ c.msgs
    → c'.calls ≡ c.calls
    → c'.cur_msg < length c.msgs
    → Serves c c'
Serves-same {c} {c'} h m k l = record {
  settles = Settles-same (ap owed m) (ap told k);
  pool = record { sound = rw m h.sound; in_pool = rw m l };
}

-- One message changes, and what it owes does not.
pub Serves-put :
    {c c' : Pccc} (i : ℕ) (m : Msg)
    → IsPool c
    → IsSound m
    → owes m ≡ owes (msg_at c i)
    → c'.msgs ≡ set c.msgs i m
    → c'.calls ≡ c.calls
    → c'.cur_msg ≡ c.cur_msg
    → Serves c c'
Serves-put {c} {c'} i m h s o e k cur = record {
  settles = Settles-same (ap owed e ∙ owed-set_same c.msgs i m o) (ap told k);
  pool = record {
    sound = rw e (AllSound-set c.msgs i m h.sound s);
    in_pool = rw (e, cur) (omega (arith, h.in_pool, length-set c.msgs i m));
  };
}

owes_busy :
    (m n : Msg)
    → (m.state == 0) ≡ false
    → (n.state == 0) ≡ false
    → n.notify ≡ m.notify
    → n.udata ≡ m.udata
    → owes n ≡ owes m
owes_busy m n a b f u = rw (a, b, f, u) refl

-- One message changes, stays in use, and keeps whom to tell.
pub Serves-busy :
    {c c' : Pccc} (i : ℕ) (m : Msg)
    → IsPool c
    → ((msg_at c i).state == 0) ≡ false
    → (m.state == 0) ≡ false
    → m.state < 16
    → m.is_cmd ≡ (msg_at c i).is_cmd
    → m.buf ≡ (msg_at c i).buf
    → m.notify ≡ (msg_at c i).notify
    → m.udata ≡ (msg_at c i).udata
    → c'.msgs ≡ set c.msgs i m
    → c'.calls ≡ c.calls
    → c'.cur_msg ≡ c.cur_msg
    → Serves c c'
Serves-busy {c} i m h used busy small cmd b n u =
    Serves-put i m h (busy-IsSound (IsSound-at c.msgs i h.sound) used busy small cmd b)
      (owes_busy (msg_at c i) m used busy n u)

pub owes-msg_flush : (m : Msg) → owes (msg_flush m) ≡ []
unfolding msg_flush
owes-msg_flush m = refl

pub owes-used : (m : Msg) → (m.state == 0) ≡ false → owes m ≡ due_to m.notify m.udata
owes-used m used = rw used

pub owes-unused : (m : Msg) → (m.state == 0) ≡ true → owes m ≡ []
owes-unused m unused = rw unused

-- What a call, and a guarded call, adds to what was told.
pub told-call :
    (fn : Option ℕ) (ret : Ret) (udata : Option ℕ) (calls : List Call)
    → told (call fn ret udata ∷ calls) ≡ due_to fn udata ++ told calls
told-call none ret udata calls = refl
told-call (some fn) ret udata calls = refl

pub told-tell :
    (fn : Option ℕ) (ret : Ret) (udata : Option ℕ) (c : Pccc)
    → told (tell fn ret udata c).calls ≡ due_to fn udata ++ told c.calls
told-tell none ret udata c = refl
told-tell (some fn) ret udata c = refl

-- A guarded call leaves the pool alone.
pub tell-msgs :
    (fn : Option ℕ) (ret : Ret) (udata : Option ℕ) (c : Pccc) → (tell fn ret udata c).msgs ≡ c.msgs
tell-msgs none ret udata c = refl
tell-msgs (some fn) ret udata c = refl

pub tell-cur_msg :
    (fn : Option ℕ) (ret : Ret) (udata : Option ℕ) (c : Pccc)
    → (tell fn ret udata c).cur_msg ≡ c.cur_msg
tell-cur_msg none ret udata c = refl
tell-cur_msg (some fn) ret udata c = refl

-- One message is flushed, and what it owed is told.
pub Serves-end :
    {c c' : Pccc} (i : ℕ) (m : Msg)
    → IsPool c
    → IsSound m
    → c'.msgs ≡ set c.msgs i (msg_flush m)
    → told c'.calls ≡ owes (msg_at c i) ++ told c.calls
    → c'.cur_msg ≡ c.cur_msg
    → Serves c c'
Serves-end {c} i m h s msgs said cur = record {
  settles = record {
    new = owes (msg_at c i);
    paid = rw msgs (owed-set_end c.msgs i (msg_flush m) (owes-msg_flush m));
    said = said;
  };
  pool = record {
    sound = rw msgs (AllSound-set c.msgs i (msg_flush m) h.sound (msg_flush-IsSound s));
    in_pool = rw (msgs, cur) (omega (arith, h.in_pool, length-set c.msgs i (msg_flush m)));
  };
}
