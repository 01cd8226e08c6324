-- ===== src/Library/Reading.antt =====
-- lib/pccc.c: parse_link reads sock_in to its end.
use libpccc.Common.{
  ◌+◌, ℕ, zero, suc, ◌<◌, ◌≤◌, ◌≡◌, ◌⊎◌, inl, inr, refl, sym, ap, subst, ◌∙◌, Bool, true, false,
  Option, none, List, [], ◌∷◌, length, arith,
}
use libpccc.Buf.{Buf, unread, buf_get_byte}
use libpccc.Buf.Invariant.{IsValid}
use libpccc.Buf.Read.{length-unread, buf_get_byte-cons, buf_get_byte-nil}
use libpccc.Ret.{Ret, success, efatal}
use libpccc.Df1.State.{Platform}
use libpccc.Library.State.{Pccc}
use libpccc.Library.Link.{byte_from_link, loop_on, loop_byte, link_loop, parse_link}
use libpccc.Library.Input.{byte_from_link-SameIn}

-- Every byte was read, or `time` failed.
abbrev pub HasRead : Pccc × Ret → Type 0
HasRead r = ((r.1 ≡ success) × (unread r.0.sock_in ≡ [])) ⊎ (r.1 ≡ efatal)

loop_on-HasRead :
    (f g : Pccc → Pccc × Ret) (r : Pccc × Bool)
    → (f r.0 ≡ g r.0) × HasRead (f r.0)
    → (loop_on f r ≡ loop_on g r) × HasRead (loop_on f r)
loop_on-HasRead f g (c, true) h = (refl, inr refl)
loop_on-HasRead f g (c, false) h = h

module _ (p : Platform) (junk : ℕ) (now : ℕ → Option ℕ) where
  -- Two amounts of fuel that are enough give the same.
  link_loop-HasRead :
      (xs : List ℕ) (m n : ℕ) (c : Pccc)
      → IsValid c.sock_in
      → unread c.sock_in ≡ xs
      → length xs < m
      → length xs < n
      → (link_loop m p junk now c ≡ link_loop n p junk now c) × HasRead (link_loop m p junk now c)
  unfolding link_loop
  link_loop-HasRead xs zero n c v e l k = absurd (omega arith)
  link_loop-HasRead xs (suc m) zero c v e l k = absurd (omega arith)
  link_loop-HasRead [] (suc m) (suc n) c v e l k =
      let nil : buf_get_byte c.sock_in ≡ (c.sock_in, none) = buf_get_byte-nil v e in
      let f : Pccc → Pccc × Ret = λ d. link_loop m p junk now d in
      let g : Pccc → Pccc × Ret = λ d. link_loop n p junk now d in
      subst
        (λ r.
          (loop_byte p junk now f c r ≡ loop_byte p junk now g c r)
          × HasRead (loop_byte p junk now f c r))
        (sym nil) (refl, inl (refl, e))
  link_loop-HasRead (x ∷ xs) (suc m) (suc n) c v e l k =
      let next = buf_get_byte-cons v e in
      let b : Buf = record (c.sock_in) { index = c.sock_in.index + 1 } in
      let got : Pccc = record c { sock_in = b } in
      let r : Pccc × Bool = byte_from_link p junk (now c.sock_in.index) x got in
      let same : r.0.sock_in ≡ b = byte_from_link-SameIn p junk (now c.sock_in.index) x got in
      let f : Pccc → Pccc × Ret = λ d. link_loop m p junk now d in
      let g : Pccc → Pccc × Ret = λ d. link_loop n p junk now d in
      let rest =
        link_loop-HasRead xs m n r.0 (subst IsValid (sym same) next.2) (ap unread same ∙ next.1)
          (omega arith) (omega arith) in
      subst
        (λ r.
          (loop_byte p junk now f c r ≡ loop_byte p junk now g c r)
          × HasRead (loop_byte p junk now f c r))
        (sym next.0) (loop_on-HasRead f g r rest)

  -- With a well-formed sock_in, parse_link ends: it reads all bytes of sock_in, or ends with
  -- PCCC_EFATAL, and any fuel above its own gives the same.
  pub parse_link-HasRead :
      (c : Pccc) (fuel : ℕ)
      → IsValid c.sock_in
      → c.sock_in.len < fuel
      → (parse_link p junk now c ≡ link_loop fuel p junk now c) × HasRead (parse_link p junk now c)
  unfolding parse_link
  parse_link-HasRead c fuel v l =
      let short : length (unread c.sock_in) ≤ c.sock_in.len = omega (arith, length-unread v) in
      link_loop-HasRead (unread c.sock_in) (suc c.sock_in.len) fuel c v refl (omega (arith, short))
        (omega (arith, short))
