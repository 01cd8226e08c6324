-- ===== src/Library/Ledger/Sockets.antt =====
-- lib/pccc.c: reading and writing, seen by what the library owes.
use libpccc.Common.{ℕ, ◌≡◌, refl, true, not, inl, inr, Option-cases, Option, List, ◌==◌, if_either}
use libpccc.Buf.{Io, buf_read, buf_write}
use libpccc.Ret.{Ret}
use libpccc.Df1.State.{Platform}
use libpccc.Library.State.{Pccc}
use libpccc.Library.Manage.{pccc_read, pccc_write}
use libpccc.Library.Pool.{IsPool}
use libpccc.Library.Ledger.Serve.{Serves, Serves-trans, Serves-same}
use libpccc.Library.Ledger.Bytes.{no_stray, parse_link-Serves}

-- The connection after the socket was read.
abbrev pub received : List (Io (List ℕ)) → Pccc → Pccc
received reads c = record c { sock_in = (buf_read reads c.sock_in).0 }

pub pccc_read-Serves :
    (p : Platform) (junk : ℕ) (now : ℕ → Option ℕ) (reads : List (Io (List ℕ))) (c : Pccc)
    → IsPool c
    → no_stray p junk now (received reads c) ≡ true
    → Serves c (pccc_read p junk now reads c).0
unfolding pccc_read
pccc_read-Serves p junk now reads c h known =
    let got : Serves c (received reads c) = Serves-same h refl refl h.in_pool in
    let parsed =
      Serves-trans got (parse_link-Serves p junk now (received reads c) got.pool known) in
    if_either (λ (r : Pccc × Ret). Serves c r.0) (not c.connected)
      (Serves-same h refl refl h.in_pool)
      (elim (Option-cases (buf_read reads c.sock_in).1) [
        | inl failed ↦ rw failed (Serves-same h refl refl h.in_pool)
        | inr (n, e) ↦ rw e (
            if_either (λ (r : Pccc × Ret). Serves c r.0) (n == 0)
              (Serves-same h refl refl h.in_pool) parsed)
      ])

pub pccc_write-Serves :
    (writes : List (Io ℕ)) (c : Pccc) → IsPool c → Serves c (pccc_write writes c).0
unfolding pccc_write
pccc_write-Serves writes c h =
    if_either (λ (r : Pccc × Ret). Serves c r.0) (not c.connected)
      (Serves-same h refl refl h.in_pool)
      (elim (Option-cases (buf_write writes c.sock_out).1) [
        | inl failed ↦ rw failed (Serves-same h refl refl h.in_pool)
        | inr (n, e) ↦ rw e (Serves-same h refl refl h.in_pool)
      ])
