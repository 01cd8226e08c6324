-- ===== src/Df1/Stream/Split.antt =====
-- df1d/conn.c: how the bytes from the TTY are cut into reads.
use libpccc.Common.{
  ℕ, ◌≡◌, refl, ap, sym, ◌∙◌, Bool, true, false, List, [], ◌∷◌, ◌++◌, inl, inr, Bool-cases, arith,
  if◌then◌else◌,
}
use libpccc.Buf.{Buf, unread}
use libpccc.Buf.Invariant.{IsValid}
use libpccc.Df1.State.{Platform, Conn}
use libpccc.Df1.Link.{parse_tty_data}
use libpccc.Df1.Stream.Bytes.{refuses, step_byte, link_bytes}
use libpccc.Df1.Stream.Parse.{parse_tty_data_lem}

-- Whether a message is refused because another one is pending.
unfoldable pub refused : Platform → Conn → List ℕ → Bool
refused p c [] = false
refused p c (x ∷ xs) =
    let rest : Bool = refused p (step_byte p c x) xs in if refuses c x then true else rest

link_bytes-append :
    (p : Platform) (c : Conn) (xs ys : List ℕ)
    → refused p c xs ≡ false
    → link_bytes p c (xs ++ ys) ≡ link_bytes p (link_bytes p c xs) ys
unfolding link_bytes refused
link_bytes-append p c [] ys h = refl
link_bytes-append p c (x ∷ xs) ys h = elim (Bool-cases (refuses c x)) [
  | inl stop ↦ absurd (grind arith)
  | inr goes ↦ rw goes (link_bytes-append p (step_byte p c x) xs ys (rw goes at h))
]

-- As long as no message is refused, it does not matter for the connection how the bytes are cut
-- into two reads: parsing the first part and then the second gives what parsing them in one buffer
-- gives.
pub parse_tty_data-split :
    (p : Platform) (c : Conn) {whole first second : Buf}
    → IsValid whole
    → IsValid first
    → IsValid second
    → unread whole ≡ unread first ++ unread second
    → refused p c (unread first) ≡ false
    → (parse_tty_data p c whole).0 ≡ (parse_tty_data p (parse_tty_data p c first).0 second).0
parse_tty_data-split p c {whole} {first} {second} v v1 v2 e h =
    (parse_tty_data_lem p c v).0
    ∙ ap (link_bytes p c) e
    ∙ link_bytes-append p c (unread first) (unread second) h
    ∙ ap (λ d. link_bytes p d (unread second)) (sym (parse_tty_data_lem p c v1).0)
    ∙ sym (parse_tty_data_lem p (parse_tty_data p c first).0 v2).0
