-- ===== src/Library/Opening.antt =====
-- lib/pccc.c, lib/msg.c: what pccc_new makes.
use libpccc.Common.{
  ℕ, zero, ◌<◌, ◌≡◌, suc, ◌⊎◌, inl, inr, refl, sym, ◌∙◌, Bool, true, ◌&&◌, ap, subst, ◌^◌, false,
  Bool-cases, Option, none, some, Option-cases, List, [], ◌∷◌, length, arith, ◌==◌, not, ◌||◌, u16,
  bit_xor,
}
use libpccc.Buf.{Buf, buf_new, buf_empty}
use libpccc.Buf.Invariant.{IsValid}
use libpccc.Library.State.{Pccc, Msg, Datum, mode_idle, buf_size}
use libpccc.Library.Message.{msg_flush, init_one, init_all, msg_init}
use libpccc.Library.Manage.{Blocks, alloc_bufs, first_tns, pccc_new}
use libpccc.Library.Pool.{IsSound, AllSound, IsPool}
use libpccc.Library.Ledger.{owed}
mod Allocated
pub use Allocated.*

-- A connection to be opened, with what the program asked for, that is not up, with well-formed empty
-- buffers and a sound pool that owes nothing, of which no one was told anything, and with
-- a transaction number other than zero.
pub record IsNew (src_addr timeout msgs : ℕ) (c : Pccc) : Type 0 where
  pub address : c.src_addr ≡ src_addr
  pub patience : c.timeout ≡ timeout
  pub size : length c.msgs ≡ msgs
  pub pool : IsPool c
  pub idle : owed c.msgs ≡ []
  pub silent : c.calls ≡ []
  pub down : c.connected ≡ false
  pub mode : c.read_mode ≡ mode_idle
  pub sock_in : IsEmpty c.sock_in
  pub sock_out : IsEmpty c.sock_out
  pub msg_in : IsEmpty c.msg_in
  pub small : c.tns < 2 ^ 16
  pub nonzero : 0 < c.tns

abbrev pub NewIfMade : ℕ → ℕ → ℕ → Option Pccc → Type 0
NewIfMade src_addr timeout msgs none = Unit
NewIfMade src_addr timeout msgs (some c) = IsNew src_addr timeout msgs c

-- All that `pccc_new` needs.
abbrev pub has_all : Blocks → ℕ → ℕ → Bool
has_all m timeout msgs =
    not (timeout == 0)
    && not (msgs == 0)
    && m.con
    && m.priv
    && (given m.sock_in && (given m.sock_out && given m.msg_in))
    && (given m.msgs && enough msgs m.bufs)

first_tns-ranged : (random pid : ℕ) → (first_tns random pid < 2 ^ 16) × (0 < first_tns random pid)
unfolding first_tns
first_tns-ranged random pid =
    let tns : ℕ = u16 (bit_xor (u16 random) pid) in
    let small : tns < 2 ^ 16 = omega arith in
    elim (Bool-cases (tns == 0)) [
      | inl z ↦ rw z (omega arith, omega arith)
      | inr n ↦ rw n (small, ground arith)
    ]

-- If what malloc gives has the sizes that were asked for, pccc_new makes a connection exactly if the
-- timeout and the number of messages are not zero and malloc gives all that is asked for: the two
-- structures, the three buffers, the array and a buffer for each message. The connection has the
-- address, the timeout and the number of messages that were asked for; it is not up, has well-formed
-- empty buffers, a receiver that is idle, and a sound pool that owes no call, has made no call, and
-- starts with a transaction number that is not zero.
pub pccc_new-IsNew :
    (m : Blocks) (mem : ℕ → Datum) (random pid src_addr timeout msgs : ℕ)
    → IsBlock m.sock_in
    → IsBlock m.sock_out
    → IsBlock m.msg_in
    → HasSize msgs m.msgs
    → AllBlocks m.bufs
    → let o = pccc_new m mem random pid src_addr timeout msgs in
      (given o ≡ has_all m timeout msgs) × NewIfMade src_addr timeout msgs o
unfolding pccc_new
pccc_new-IsNew m mem random pid src_addr timeout msgs x y z h b =
    let bufs = alloc_bufs-EmptyBufs m x y z in
    let pool = msg_init-FreshPool m.msgs m.bufs msgs h b in
    elim (Bool-cases (timeout == 0 || msgs == 0 || not m.con || not m.priv)) [
      | inl bad ↦ rw bad (ground arith, tt)
      | inr good ↦ elim (Option-cases (alloc_bufs m)) [
        | inl e ↦
            let lacks : given m.sock_in && (given m.sock_out && given m.msg_in) ≡ false =
              sym bufs.0 ∙ ap (λ o. given o) e in
            rw (good, e, lacks) (ground arith, tt)
        | inr ((b1, b2, b3), e) ↦
            let has : given m.sock_in && (given m.sock_out && given m.msg_in) ≡ true =
              sym bufs.0 ∙ ap (λ o. given o) e in
            let empty : EmptyBufs (some (b1, b2, b3)) = subst EmptyBufs e bufs.1 in
            elim (Option-cases (msg_init m.msgs m.bufs)) [
              | inl k ↦
                  let lacks : given m.msgs && enough msgs m.bufs ≡ false =
                    sym pool.0 ∙ ap (λ o. given o) k in
                  rw (good, e, k, has, lacks) (ground arith, tt)
              | inr (ms, k) ↦
                  let all : given m.msgs && enough msgs m.bufs ≡ true =
                    sym pool.0 ∙ ap (λ o. given o) k in
                  let f : IsFresh msgs ms = subst (FreshPool msgs) k pool.1 in
                  let t = first_tns-ranged random pid in
                  rw (good, e, k, has, all)
                    (
                      ground arith,
                      record {
                        address = refl;
                        patience = refl;
                        size = f.size;
                        pool = record { sound = f.sound; in_pool = ground (arith, f.size, good) };
                        idle = f.idle;
                        silent = refl;
                        down = refl;
                        mode = refl;
                        sock_in = empty.0;
                        sock_out = empty.1;
                        msg_in = empty.2;
                        small = t.0;
                        nonzero = t.1;
                      },
                    )
            ]
      ]
    ]
