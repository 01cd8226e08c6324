-- ===== src/Df1/Registration/Bytes.antt =====
-- df1d/client.c: one byte of the name of a client that registers.
use libpccc.Common.{
  ℕ, ◌+◌, ◌≤◌, ◌<◌, ◌≡◌, refl, ap, sym, ◌∙◌, subst, true, false, none, some, List, [], ◌∷◌, ◌++◌,
  arith, length, length-set, set, set-eq-store, take, take-store, ◌==◌, inl, inr, Bool-cases,
  append_assoc, u8,
}
use libpccc.Df1.State.{Platform, Client, reg_name, idle, Conn, client_at, modify}
use libpccc.Df1.Receive.{find_addr, is_registered}
use libpccc.Df1.Sockets.{reg_client, write_name, count_name_byte, name_byte, set_state, sock_byte}
use libpccc.Df1.Handover.{client_at-modify}
use libpccc.Df1.Addresses.{write_name_in}

-- A write that leaves a client unregistered makes no address taken.
pub find_addr-modify :
    (q a : ℕ) (f : Client → Client) (cs : List Client) (d : Client)
    → client_at q cs ≡ some d
    → is_registered (f d) ≡ false
    → find_addr cs a ≡ none
    → find_addr (modify q f cs) a ≡ none
unfolding find_addr
find_addr-modify q a f [] d at u h = refl
find_addr-modify q a f (c ∷ cs) d at u h = elim (Bool-cases (c.id == q)) [
  | inl here ↦ let same : some c ≡ some d = rw here at at in grind arith
  | inr there ↦ ground (arith, find_addr-modify q a f cs d)
]

-- The client `q` is now `d`, and its address `a` is free.
pub record Goes (c : Conn) (q a : ℕ) (d : Client) (e : Conn) : Type 0 where
  pub target : client_at q e.clients ≡ some d
  pub free : find_addr e.clients a ≡ none
  pub same_tx : e.tx ≡ c.tx
  pub same_rx : e.rx ≡ c.rx

pub Goes-modify :
    {b c : Conn} {q a : ℕ} {d : Client} (f : Client → Client)
    → Goes b q a d c
    → ((d : Client) → (f d).id ≡ d.id)
    → is_registered (f d) ≡ false
    → Goes b q a (f d) (record c { clients = modify q f c.clients })
Goes-modify {b} {c} {q} {a} {d} f g same u = record {
  target = client_at-modify q f c.clients same g.target;
  free = find_addr-modify q a f c.clients d g.target u g.free;
  same_tx = g.same_tx;
  same_rx = g.same_rx;
}

-- A byte of the name in the array.
pub Goes-write_name :
    (p : Platform) (cl : Client) (i x : ℕ) {b c : Conn} {a : ℕ} {d : Client}
    → i < length cl.name
    → Goes b cl.id a d c
    → is_registered d ≡ false
    → Goes b cl.id a (record d { name = set d.name i x }) (write_name p cl i x c)
Goes-write_name p cl i x {b} {c} {a} {d} h g u =
    subst (λ e. Goes b cl.id a (record d { name = set d.name i x }) e)
      (sym (write_name_in p c cl i x h))
      (Goes-modify (λ d. record d { name = set d.name i x }) g (λ d. refl) u)

registers :
    (d : Client) (c : Conn)
    → find_addr c.clients d.addr ≡ none
    → reg_client c d ≡ (set_state d.id idle c, false)
unfolding reg_client
registers d c e = rw (reg_client, e)

-- The client with one more byte of its name.
abbrev pub got : ℕ → Client → Client
got x cl = record cl {
  name = set cl.name cl.name_len_rcvd x;
  name_len_rcvd = u8 (cl.name_len_rcvd + 1);
}

module _ (p : Platform) (c : Conn) (cl : Client) (x : ℕ) (at : client_at cl.id c.clients ≡ some cl)
    (s : cl.state ≡ reg_name) (free : find_addr c.clients cl.addr ≡ none)
    (h : cl.name_len_rcvd < length cl.name) where
  abbrev pub written : Conn
  written =
      write_name p cl cl.name_len_rcvd x
        (record c { clients = modify cl.id count_name_byte c.clients })

  pub written-Goes : Goes c cl.id cl.addr (got x cl) written
  written-Goes =
      let u : is_registered cl ≡ false = rw s in
      let here : Goes c cl.id cl.addr cl c = record {
        target = at;
        free = free;
        same_tx = refl;
        same_rx = refl;
      } in
      Goes-write_name p cl cl.name_len_rcvd x h (Goes-modify count_name_byte here (λ d. refl) u) u

  pub name_byte_more :
      (u8 (cl.name_len_rcvd + 1) == cl.name_len) ≡ false → name_byte p c cl x ≡ (written, false)
  unfolding name_byte
  name_byte_more more = rw (written-Goes.target, more) refl

  -- The zero, and the registration.
  abbrev pub ended : Conn
  ended = write_name p (got x cl) cl.name_len 0 written

  pub ended-Goes :
      cl.name_len < length cl.name
      → Goes c cl.id cl.addr (record (got x cl) { name = set (got x cl).name cl.name_len 0 }) ended
  ended-Goes k =
      let u : is_registered cl ≡ false = rw s in
      Goes-write_name p (got x cl) cl.name_len 0
        (omega (arith, length-set cl.name cl.name_len_rcvd x)) written-Goes u

  pub name_byte_last :
      (u8 (cl.name_len_rcvd + 1) == cl.name_len) ≡ true
      → cl.name_len < length cl.name
      → name_byte p c cl x ≡ (set_state cl.id idle ended, false)
  unfolding name_byte
  name_byte_last full k =
      let e = ended-Goes k in
      rw (written-Goes.target, full, e.target)
        (registers (record (got x cl) { name = set (got x cl).name cl.name_len 0 }) ended e.free)

pub sock_byte-named :
    (p : Platform) (c : Conn) (cl : Client) (x : ℕ)
    → cl.state ≡ reg_name
    → sock_byte p c cl x ≡ name_byte p c cl x
unfolding sock_byte
sock_byte-named p c cl x s = rw s

-- One more byte in an array.
pub take-set :
    (k x : ℕ) (xs : List ℕ) → k < length xs → take (k + 1) (set xs k x) ≡ take k xs ++ (x ∷ [])
take-set k x xs h =
    ap (take (k + 1)) (set-eq-store xs k x)
    ∙ take-store xs k (k + 1) (x ∷ []) (omega arith) (omega arith)

-- The client is registered, and behind the part of its name that was there stand the rest and
-- a zero.
pub record Registered (c : Conn) (cl : Client) (rest : List ℕ) (e : Conn) : Type 0 where
  pub name : List ℕ
  pub named : take (cl.name_len + 1) name ≡ take cl.name_len_rcvd cl.name ++ (rest ++ (0 ∷ []))
  pub size : length name ≡ length cl.name
  pub target :
      client_at cl.id e.clients
      ≡ some (record cl { name = name; name_len_rcvd = cl.name_len; state = idle })
  pub same_tx : e.tx ≡ c.tx
  pub same_rx : e.rx ≡ c.rx

pub last-Registered :
    (p : Platform) (c : Conn) (cl : Client) (x : ℕ)
    → client_at cl.id c.clients ≡ some cl
    → cl.state ≡ reg_name
    → find_addr c.clients cl.addr ≡ none
    → cl.name_len ≡ cl.name_len_rcvd + 1
    → cl.name_len < length cl.name
    → length cl.name ≤ 255
    → (e : Conn) × (name_byte p c cl x ≡ (e, false)) × Registered c cl (x ∷ []) e
last-Registered p c cl x at s free n k small =
    let h : cl.name_len_rcvd < length cl.name = omega arith in
    let all : u8 (cl.name_len_rcvd + 1) ≡ cl.name_len = omega arith in
    let full : (u8 (cl.name_len_rcvd + 1) == cl.name_len) ≡ true = ground (arith, all) in
    let g = ended-Goes p c cl x at s free h k in
    let one : List ℕ = set cl.name cl.name_len_rcvd x in
    let size1 = length-set cl.name cl.name_len_rcvd x in
    (
      set_state cl.id idle (ended p c cl x at s free h),
      name_byte_last p c cl x at s free h full k,
      record {
        name = set one cl.name_len 0;
        named =
            take-set cl.name_len 0 one (omega (arith, size1))
            ∙ ap (λ m. take m one ++ (0 ∷ [])) n
            ∙ ap (λ l. l ++ (0 ∷ [])) (take-set cl.name_len_rcvd x cl.name h)
            ∙ append_assoc (take cl.name_len_rcvd cl.name) (x ∷ []) (0 ∷ []);
        size = length-set one cl.name_len 0 ∙ size1;
        target =
            client_at-modify cl.id (λ d. record d { state = idle }) _ (λ d. refl) g.target
            ∙ ap
                (λ m.
                  some
                    (record cl { name = set one cl.name_len 0; name_len_rcvd = m; state = idle }))
                all;
        same_tx = g.same_tx;
        same_rx = g.same_rx;
      },
    )
