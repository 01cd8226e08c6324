-- ===== src/Library/Opening/Allocated.antt =====
-- lib/msg.c, buf.c, lib/pccc.c: what the allocations of pccc_new make.
use libpccc.Common.{
  ℕ, zero, ◌≡◌, suc, inl, refl, ◌∙◌, Bool, true, ◌&&◌, ap, subst, false, Option, none, some, List,
  [], ◌∷◌, length, arith,
}
use libpccc.Buf.{Buf, buf_new, buf_empty}
use libpccc.Buf.Invariant.{IsValid}
use libpccc.Library.State.{Msg, buf_size}
use libpccc.Library.Message.{msg_flush, init_one, init_all, msg_init}
use libpccc.Library.Manage.{Blocks, alloc_bufs}
use libpccc.Library.Pool.{IsSound, AllSound}
use libpccc.Library.Ledger.{owed}

-- What `malloc` gives has the size that was asked for.
abbrev pub IsBlock : Option (List ℕ) → Type 0
IsBlock none = Unit
IsBlock (some cells) = length cells ≡ buf_size

abbrev pub AllBlocks : List (Option (List ℕ)) → Type 0
AllBlocks [] = Unit
AllBlocks (b ∷ bs) = IsBlock b × AllBlocks bs

-- A pool as it should be at the start, of `n` messages.
pub record IsFresh (n : ℕ) (pool : List Msg) : Type 0 where
  pub sound : AllSound pool
  pub idle : owed pool ≡ []
  pub size : length pool ≡ n

pub msg_flush-new :
    (m : Msg) (cells : List ℕ)
    → length cells ≡ buf_size
    → IsSound (
        msg_flush (record m {
          buf = buf_empty (record { cells = cells; max = buf_size; len = 0; index = 0 });
        }))
unfolding msg_flush buf_empty
msg_flush-new m cells e = record {
  small = omega arith;
  phase = inl (refl, refl, refl);
  valid = record { storage = e; small = omega arith; filled = omega arith; read = omega arith };
  sized = refl;
}

-- What malloc did not refuse.
abbrev pub given : {A : Type 0} → Option A → Bool
given none = false
given (some x) = true

-- A block for each of `n` buffers.
abbrev pub enough : ℕ → List (Option (List ℕ)) → Bool
enough zero blocks = true
enough (suc n) [] = false
enough (suc n) (b ∷ bs) = given b && enough n bs

-- The pool, if there is one, is as it should be.
abbrev pub FreshPool : ℕ → Option (List Msg) → Type 0
FreshPool n none = Unit
FreshPool n (some pool) = IsFresh n pool

pub init_one-FreshPool :
    (m : Msg) (block : Option (List ℕ)) (n : ℕ) (rest : Option (List Msg))
    → IsBlock block
    → FreshPool n rest
    → let o = init_one m (buf_new block buf_size) rest in
      (given o ≡ given block && given rest) × FreshPool (suc n) o
unfolding buf_new msg_flush
init_one-FreshPool m none n rest b r = (refl, tt)
init_one-FreshPool m (some cells) n none b r = (refl, tt)
init_one-FreshPool m (some cells) n (some pool) b f = (
  refl,
  record {
    sound = (msg_flush-new m cells b, f.sound);
    idle = f.idle;
    size = omega (arith, f.size);
  },
)

pub init_all-FreshPool :
    (ms : List Msg) (blocks : List (Option (List ℕ)))
    → AllBlocks blocks
    → (given (init_all ms blocks) ≡ enough (length ms) blocks)
      × FreshPool (length ms) (init_all ms blocks)
unfolding init_all
init_all-FreshPool [] blocks b = (refl, record { sound = tt; idle = refl; size = refl })
init_all-FreshPool (m ∷ ms) [] b = (refl, tt)
init_all-FreshPool (m ∷ ms) (block ∷ blocks) b =
    let rest = init_all-FreshPool ms blocks b.1 in
    let all = init_one-FreshPool m block (length ms) (init_all ms blocks) b.0 rest.1 in
    (all.0 ∙ ap (λ g. given block && g) rest.0, all.1)

-- The array for the messages has as many as were asked for.
abbrev pub HasSize : ℕ → Option (List Msg) → Type 0
HasSize n none = Unit
HasSize n (some ms) = length ms ≡ n

pub msg_init-FreshPool :
    (array : Option (List Msg)) (blocks : List (Option (List ℕ))) (n : ℕ)
    → HasSize n array
    → AllBlocks blocks
    → (given (msg_init array blocks) ≡ given array && enough n blocks)
      × FreshPool n (msg_init array blocks)
unfolding msg_init
msg_init-FreshPool none blocks n h b = (refl, tt)
msg_init-FreshPool (some ms) blocks n h b =
    subst (λ k. (given (init_all ms blocks) ≡ enough k blocks) × FreshPool k (init_all ms blocks)) h
      (init_all-FreshPool ms blocks b)

-- A well-formed buffer of BUF_SIZE bytes that holds nothing.
pub record IsEmpty (b : Buf) : Type 0 where
  pub valid : IsValid b
  pub empty : b.len ≡ 0
  pub size : b.max ≡ buf_size

block-IsEmpty :
    (cells : List ℕ)
    → length cells ≡ buf_size
    → IsEmpty (record { cells = cells; max = buf_size; len = 0; index = 0 })
block-IsEmpty cells e = record {
  valid = record { storage = e; small = omega arith; filled = omega arith; read = omega arith };
  empty = refl;
  size = refl;
}

abbrev pub EmptyBufs : Option (Buf × Buf × Buf) → Type 0
EmptyBufs none = Unit
EmptyBufs (some (a, b, c)) = IsEmpty a × IsEmpty b × IsEmpty c

pub alloc_bufs-EmptyBufs :
    (m : Blocks)
    → IsBlock m.sock_in
    → IsBlock m.sock_out
    → IsBlock m.msg_in
    → (given (alloc_bufs m) ≡ given m.sock_in && (given m.sock_out && given m.msg_in))
      × EmptyBufs (alloc_bufs m)
unfolding alloc_bufs buf_new buf_empty
alloc_bufs-EmptyBufs m x y z = three m.sock_in m.sock_out m.msg_in x y z
  where
    three :
        (a b c : Option (List ℕ))
        → IsBlock a
        → IsBlock b
        → IsBlock c
        → let o = alloc_bufs (record m { sock_in = a; sock_out = b; msg_in = c }) in
          (given o ≡ given a && (given b && given c)) × EmptyBufs o
    three none b c x y z = (refl, tt)
    three (some a) none c x y z = (refl, tt)
    three (some a) (some b) none x y z = (refl, tt)
    three (some a) (some b) (some c) x y z =
        (refl, (block-IsEmpty a x, block-IsEmpty b y, block-IsEmpty c z))
