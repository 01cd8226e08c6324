-- ===== src/Library/Tests.antt =====
-- lib/: a connection of two messages, and the theorems on it.
use mathlib.Core.List.{Perm}
use libpccc.Common.{Option, set, inr, ◌≡◌, refl, true, some, none, [], ◌∷◌, arith}
use libpccc.ByteOrder.{little_endian, ltohs}
use libpccc.Buf.{Buf, buf_append_byte, buf_append_word, buf_append_buf}
use libpccc.Df1.State.{Platform}
use libpccc.Codec.Arrays.{int}
use libpccc.Library.State.{Pccc, mode_idle, no_text, no_cells, no_msg, raw, values, to_ptl_read}
use libpccc.Library.Sending.{HasSent, msg_send_next-HasSent}
use libpccc.Library.Message.{
  msg_is_reply, msg_find_cmd, msg_get_len, msg_get_sts, msg_send_next, free_from,
}
use libpccc.Library.Delivery.{Delivered, parse_msg-Delivered}
use libpccc.Library.Reading.{HasRead, parse_link-HasRead}
use libpccc.Library.Link.{parse_msg, parse_link, link_loop}
use libpccc.Library.Opening.{given, NewIfMade, pccc_new-IsNew}
use libpccc.Library.Manage.{Blocks, pccc_new, pccc_tick, pccc_close}
use libpccc.Library.Send.{Host}
use libpccc.Library.Pool.{IsPool, no_msg-IsSound}
use libpccc.Library.Request.{Area, ask_read_2, ask_disable_forces, typed, unsized, Wire, run}
use libpccc.Library.Commands0f.{pccc_cmd_disable_forces}
use libpccc.Library.Assembly.{little}
use libpccc.Library.Assembly.Handles.{Ready, Sends}
use libpccc.Library.Assembly.Requests.{run-Sends}
use libpccc.Library.Ledger.{told}
use libpccc.Library.Trace.{Trace, start, next, asks, ticks, Balances, Trace-Balances, close-Perm}

abbrev plat : Platform
plat = record {
  endian = little_endian;
  msg_soh = 1;
  msg_ack = 6;
  msg_nak = 21;
  beyond = λ q i byte c. c;
}

abbrev no_bytes : Buf
no_bytes = record { cells = no_cells; max = 300; len = 0; index = 0 }

-- A connection to node 1 of the service, with two messages.
abbrev con : Pccc
con = record {
  src_addr = 1;
  timeout = 3;
  tns = 0x1234;
  sock_in = no_bytes;
  sock_out = no_bytes;
  msg_in = no_bytes;
  read_mode = mode_idle;
  msg_in_len = 0;
  cur_msg = 0;
  msgs = no_msg ∷ no_msg ∷ [];
  connected = true;
  errstr = no_text;
  mem = λ q. raw [];
  calls = [];
}

abbrev host : Host
host = record { junk = 0; sizeof = λ t. 2; writes = []; turns = [] }

con-IsPool : IsPool con
con-IsPool = record { sound = (no_msg-IsSound, (no_msg-IsSound, tt)); in_pool = omega arith }

con-Ready : Ready con 0
unfolding free_from
con-Ready = record { pool = con-IsPool; up = refl; small = omega arith; free = refl }

-- Two integers, from element 3 of file 7 on.
abbrev words : Area
words = record { udata = some 9; type = int; file = 7; element = 3; count = 2 }

-- What it takes to read them: four bytes of file 7, which are integers, from element 3.
abbrev words_wire : Wire
words_wire = record {
  cmd = 0x0f;
  func = 0xa1;
  reply = some to_ptl_read;
  udata = some 9;
  body = 4 ∷ 7 ∷ 0x89 ∷ 3 ∷ [];
  shape = typed int 2 4;
}

run-Sends_example :
    Sends plat host
      (some 8)
      5
      con
      0
      words_wire
      (run (little plat) host (some 8) 5 (ask_read_2 words))
run-Sends_example =
    run-Sends plat host (some 8) 5 con-Ready (ask_read_2 words)
      (omega arith, omega arith, omega arith) words_wire refl (omega arith)

abbrev asked : Pccc
asked = (run (little plat) host (some 8) 5 (ask_read_2 words) con).0

-- The integers are asked for, and time passes.
waits : Trace plat ((8, some 9) ∷ []) con (pccc_tick (λ i. some 0) asked).0
waits =
    next
      (next start (
        asks host 8 5 (ask_read_2 words) words_wire con-Ready
          (omega arith, omega arith, omega arith) refl (omega arith)))
      (ticks (λ i. some 0))

Trace-Balances_example : Balances ((8, some 9) ∷ []) con (pccc_tick (λ i. some 0) asked).0
Trace-Balances_example = Trace-Balances plat con-IsPool waits

abbrev forced : Pccc
forced = (run (little plat) host (some 8) 5 ask_disable_forces con).0

forces : Trace plat ((8, none) ∷ []) con forced
forces = next start (
    asks host 8 5 ask_disable_forces
      (record { cmd = 0x0f; func = 0x41; reply = none; udata = none; body = []; shape = unsized })
      con-Ready tt refl (omega arith))

still_up : forced.connected ≡ true
unfolding pccc_cmd_disable_forces no_cells buf_append_byte buf_append_word buf_append_buf
still_up = refl

close-Perm_example : Perm ((8, none) ∷ []) (told (pccc_close true forced).0.calls)
close-Perm_example = close-Perm plat true con-IsPool refl refl forces still_up

-- The second message of a connection waits, and holds three bytes.
abbrev three_bytes : Buf
three_bytes = record { cells = set (set (set no_cells 0 5) 1 6) 2 7; max = 300; len = 3; index = 0 }

abbrev pending : Pccc
pending = record con {
  msgs = no_msg ∷ record no_msg { state = 1; is_cmd = true; buf = three_bytes } ∷ [];
}

msg_send_next-HasSent_example : HasSent plat pending 1 (msg_send_next plat pending)
unfolding no_cells
msg_send_next-HasSent_example =
    msg_send_next-HasSent plat pending 0
      (record {
        sound = (
          no_msg-IsSound,
          (
            record {
              small = omega arith;
              phase = inr (refl, refl);
              valid = record {
                storage = refl;
                small = omega arith;
                filled = omega arith;
                read = omega arith;
              };
              sized = refl;
            },
            tt,
          ),
        );
        in_pool = omega arith;
      })
      (record { storage = refl; small = omega arith; filled = omega arith; read = omega arith })
      refl (omega arith) refl (λ i b. absurd (omega (arith, b))) (omega arith) (omega arith)

-- The reply to a read of two integers, and the command that waits for it.
abbrev answered : Pccc
answered = record con {
  msg_in = record {
    cells = 1 ∷ 5 ∷ 0x4f ∷ 0 ∷ 0x34 ∷ 0x12 ∷ 1 ∷ 0 ∷ 3 ∷ 2 ∷ no_cells;
    max = 310;
    len = 10;
    index = 0;
  };
  msgs =
      record no_msg {
        state = 6;
        is_cmd = true;
        tns = 0x1234;
        notify = some 8;
        udata = some 9;
        reply = some to_ptl_read;
        file_type = int;
        elements = 2;
        bytes = 4;
      }
      ∷ no_msg
      ∷ [];
  mem = λ q. values int (0 ∷ 0 ∷ 7 ∷ []);
}

parse_msg-Delivered_example :
    Delivered plat 0 int 2 9 (1 ∷ 515 ∷ []) 8 0 answered (parse_msg (little plat) 0 answered)
unfolding msg_is_reply msg_find_cmd no_cells msg_get_len msg_get_sts ltohs
parse_msg-Delivered_example =
    parse_msg-Delivered plat 0 int 2 9 (1 ∷ 515 ∷ []) answered 0 8 refl refl refl refl refl refl
      refl refl refl refl
      (record {
        known = refl;
        ranged = (omega arith, (omega arith, tt));
        as_many = refl;
        slots = (tt, (tt, tt));
        valid = record {
          storage = refl;
          small = omega arith;
          filled = omega arith;
          read = omega arith;
        };
        bytes = refl;
      })

-- Three bytes that have come in.
abbrev heard : Pccc
heard = record con { sock_in = three_bytes }

parse_link-HasRead_example :
    (parse_link plat 0 (λ i. some 0) heard ≡ link_loop 9 plat 0 (λ i. some 0) heard)
    × HasRead (parse_link plat 0 (λ i. some 0) heard)
unfolding no_cells
parse_link-HasRead_example =
    parse_link-HasRead plat 0 (λ i. some 0) heard 9
      (record { storage = refl; small = omega arith; filled = omega arith; read = omega arith })
      (omega arith)

-- One message, and all that malloc is asked for.
abbrev blocks : Blocks
blocks = record {
  con = true;
  priv = true;
  sock_in = some no_cells;
  sock_out = some no_cells;
  msg_in = some no_cells;
  msgs = some (no_msg ∷ []);
  bufs = some no_cells ∷ [];
}

abbrev opened : Option Pccc
opened = pccc_new blocks (λ q. raw []) 77 1000 1 3 1

pccc_new-IsNew_example : (given opened ≡ true) × NewIfMade 1 3 1 opened
unfolding no_cells
pccc_new-IsNew_example =
    pccc_new-IsNew blocks (λ q. raw []) 77 1000 1 3 1 refl refl refl refl (refl, tt)
