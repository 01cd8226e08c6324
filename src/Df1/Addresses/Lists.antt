-- ===== src/Df1/Addresses/Lists.antt =====
-- df1d/client.c: the list of clients, its numbers and the addresses of the registered ones.
use libpccc.Common.{
  ℕ, ◌≡◌, refl, Bool, true, false, not, ◌&&◌, none, some, List, [], ◌∷◌, ◌++◌, arith, ◌==◌,
  if◌then◌else◌, inl, inr, Bool-cases,
}
use libpccc.Df1.State.{Client, client_at, modify}
use libpccc.Df1.Receive.{find_addr, is_registered}
use libpccc.Df1.Sockets.{unlink}

-- The addresses of the registered clients.
abbrev pub addrs : List Client → List ℕ
addrs [] = []
addrs (c ∷ cs) = if is_registered c then c.addr ∷ addrs cs else addrs cs

abbrev pub fresh : ℕ → List ℕ → Bool
fresh a [] = true
fresh a (x ∷ xs) = not (x == a) && fresh a xs

abbrev pub distinct : List ℕ → Bool
distinct [] = true
distinct (x ∷ xs) = fresh x xs && distinct xs

pub fresh-find_addr : (cs : List Client) (a : ℕ) → find_addr cs a ≡ none → fresh a (addrs cs) ≡ true
unfolding find_addr
fresh-find_addr [] a h = refl
fresh-find_addr (c ∷ cs) a h = ground (arith, fresh-find_addr cs a)

pub taken-find_addr :
    (cs : List Client) (a : ℕ) (cl : Client) → find_addr cs a ≡ some cl → fresh a (addrs cs) ≡ false
unfolding find_addr
taken-find_addr [] a cl h = ground arith
taken-find_addr (c ∷ cs) a cl h = ground (arith, taken-find_addr cs a cl)

-- Writes that change neither the address nor the registration.
pub addrs-modify :
    (q : ℕ) (f : Client → Client) (cs : List Client)
    → ((c : Client) → (f c).addr ≡ c.addr)
    → ((c : Client) → is_registered (f c) ≡ is_registered c)
    → addrs (modify q f cs) ≡ addrs cs
addrs-modify q f [] a r = refl
addrs-modify q f (c ∷ cs) a r = ground (arith, a c, r c, addrs-modify q f cs a r)

module _ (q a : ℕ) (f : Client → Client) where
  pub fresh-modify :
      (cs : List Client) (b : ℕ) (cl : Client)
      → client_at q cs ≡ some cl
      → is_registered cl ≡ false
      → (f cl).addr ≡ a
      → (a == b) ≡ false
      → fresh b (addrs cs) ≡ true
      → fresh b (addrs (modify q f cs)) ≡ true
  fresh-modify [] b cl at_q u e n h = refl
  fresh-modify (c ∷ cs) b cl at_q u e n h = elim (Bool-cases (c.id == q)) [
    | inl here ↦ grind arith
    | inr there ↦ ground (arith, fresh-modify cs b cl)
  ]

  -- A client that registers with an address that no registered client has.
  pub distinct-modify :
      (cs : List Client) (cl : Client)
      → client_at q cs ≡ some cl
      → is_registered cl ≡ false
      → (f cl).addr ≡ a
      → fresh a (addrs cs) ≡ true
      → distinct (addrs cs) ≡ true
      → distinct (addrs (modify q f cs)) ≡ true
  distinct-modify [] cl at_q u e n h = refl
  distinct-modify (c ∷ cs) cl at_q u e n h = elim (Bool-cases (c.id == q)) [
    | inl here ↦ let same : some c ≡ some cl = rw here at at_q in grind arith
    | inr there ↦
        let found : client_at q cs ≡ some cl = rw there at at_q in
        elim (Bool-cases (is_registered c)) [
          | inl reg ↦
              let other : (a == c.addr) ≡ false = ground arith in
              let rest : fresh a (addrs cs) ≡ true = ground arith in
              let own : fresh c.addr (addrs cs) ≡ true = ground arith in
              let apart : distinct (addrs cs) ≡ true = ground arith in
              ground (
                arith,
                fresh-modify cs c.addr cl found u e other own,
                distinct-modify cs cl found u e rest apart,
              )
          | inr un ↦ ground (arith, distinct-modify cs cl)
        ]
  ]

pub fresh-unlink :
    (q a : ℕ) (cs : List Client) → fresh a (addrs cs) ≡ true → fresh a (addrs (unlink q cs)) ≡ true
fresh-unlink q a [] h = refl
fresh-unlink q a (c ∷ cs) h = ground (arith, fresh-unlink q a cs)

pub distinct-unlink :
    (q : ℕ) (cs : List Client) → distinct (addrs cs) ≡ true → distinct (addrs (unlink q cs)) ≡ true
distinct-unlink q [] h = refl
distinct-unlink q (c ∷ cs) h = ground (arith, distinct-unlink q cs, fresh-unlink q c.addr cs)

pub addrs-accepted :
    (cs : List Client) (d : Client) → is_registered d ≡ false → addrs (cs ++ d ∷ []) ≡ addrs cs
addrs-accepted [] d u = rw u
addrs-accepted (c ∷ cs) d u = ground (arith, addrs-accepted cs d u)

-- The clients' numbers, which name one client each.
abbrev pub ids : List Client → List ℕ
ids [] = []
ids (c ∷ cs) = c.id ∷ ids cs

pub client_at-fresh : (q : ℕ) (cs : List Client) → fresh q (ids cs) ≡ true → client_at q cs ≡ none
client_at-fresh q [] h = refl
client_at-fresh q (c ∷ cs) h = ground (arith, client_at-fresh q cs)

pub client_at-unlink :
    (q : ℕ) (cs : List Client) → distinct (ids cs) ≡ true → client_at q (unlink q cs) ≡ none
client_at-unlink q [] h = refl
client_at-unlink q (c ∷ cs) h = elim (Bool-cases (c.id == q)) [
  | inl here ↦
      let same : c.id ≡ q = ground arith in
      let others : fresh c.id (ids cs) ≡ true = ground arith in
      rw here (client_at-fresh q cs (rw same at others))
  | inr there ↦ ground (arith, client_at-unlink q cs)
]

pub client_at-unlink_other :
    (q r : ℕ) (cs : List Client) → (q == r) ≡ false → client_at r (unlink q cs) ≡ client_at r cs
client_at-unlink_other q r [] h = refl
client_at-unlink_other q r (c ∷ cs) h = ground (arith, client_at-unlink_other q r cs h)

pub client_at-append :
    (q : ℕ) (cs ds : List Client) → client_at q cs ≡ none → client_at q (cs ++ ds) ≡ client_at q ds
client_at-append q [] ds h = refl
client_at-append q (c ∷ cs) ds h = ground (arith, client_at-append q cs ds)

pub client_at-accepted :
    (q : ℕ) (cs : List Client) (d : Client)
    → (d.id == q) ≡ false
    → client_at q (cs ++ d ∷ []) ≡ client_at q cs
client_at-accepted q [] d h = rw h
client_at-accepted q (c ∷ cs) d h = ground (arith, client_at-accepted q cs d h)
