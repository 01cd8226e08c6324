-- ===== src/Lib.antt =====
-- libpccc: the DF1 link layer service (df1d) and the PCCC client library (lib), in C.
--
-- The program. Applications talk to programmable controllers through two parts. The library
-- (lib/) encodes commands and data table elements into messages and hands them to the service over
-- a socket. The service (df1d/) puts the messages of its clients into DF1 frames, sends them over a
-- serial line, repeats them when they are not acknowledged, and gives the messages that come in to
-- the client whose address they carry. Both stand on byte buffers (buf.c) and on the conversions
-- between link and host byte order (byteorder.c).
--
-- Which file models what.
--   Common      shared names, Boolean tests, lists over the native numbers, machine words
--   ByteOrder   byteorder.c, ltohs, htols, ltohl, htoll; the host's order is an argument
--   Buf         buf.c, one function each; BUF is its cells, size, length and read index. The struct
--               is declared in a header that the repository does not hold, so that its fields are
--               those that buf.c uses. Results of malloc, read and write are arguments.
--   Ret         lib/pccc.h, PCCC_RET_T
--   Addr        lib/addr.c, addr_encode, addr_decode, addr_enc_plc and their helpers
--   Codec       lib/data.c: the elements (Elements, Text), arrays of them (Arrays)
--               and the type/data descriptors (Descriptors)
--   Df1.State   df1d/df1.h, the structures CONN, TX, RX and CLIENT. A pointer to a client is the
--               client's number; the list of clients is a list
--   Df1.Checksum  CRC_ADD of df1d/df1.h, cs_clear, cs_add and cs_ok of df1d/rx.c
--   Df1.Transmit  df1d/tx.c: Frames has the frame of tx_msg, Next has find_next_tx,
--               client_msg_tx_ok and client_msg_tx_fail of df1d/client.c, which tx_msg and
--               send_msg call and which call them
--   Df1.Receive df1d/rx.c; Deliver has client_msg_rx and find_addr of df1d/client.c
--   Df1.Link    df1d/conn.c, parse_tty_data and conn_tick
--   Df1.Sockets df1d/client.c, client_accept, parse_sock_data, close_client and their helpers
--   Library.State  lib/private.h and lib/pccc.h: the message DF1MSG and the connection, PCCC and
--               PCCC_PRIV in one record. A pointer to a message is its index in the pool, a user's
--               function or pointer a number, and the users' memory a function from pointers
--   Library.Message  lib/msg.c
--   Library.Reply, Library.Status  lib/reply.c and lib/sts.c
--   Library.Link  lib/pccc.c, parse_link, parse_msg, rcv_ack and rcv_nak
--   Library.Manage  the rest of lib/pccc.c, with pccc_errstr in Library.Errors
--   Library.Command, Library.Send  lib/cmd_init.c, cmd_init, cmd_send, send_oaat, oaat_timeout;
--               Library.Action has the steps that all commands share
--   Library.Commands06  lib/cmd_init_06.c
--   Library.Typed, Library.Commands0f  lib/cmd_init_0f.c
--   Library.Request, Library.Codes  not code: what each command has to put on the wire
-- The other files hold proofs: Library.Pool and Library.Ledger say what every operation of the
-- library leaves of the pool and of the calls that it owes its users, Library.Trace says it of
-- sequences of operations, Library.Assembly compares commands with Library.Request, Library.Input
-- and Library.Reading are about the loop over the bytes of the socket, Library.Sending about the
-- order of messages, Library.Delivery about a reply on its way to the user, Library.Opening about
-- pccc_new. Buf.Encode says what a chain of appends writes, Df1.Stream relates
-- the two loops that read the TTY's bytes to one function on the list of the bytes, Df1.Frame and
-- Df1.Loopback follow a message through the transmitter and the receiver.
--
-- State is passed explicitly: an operation takes a connection and returns one. Calls that fail
-- return Option or a Boolean as in the code. Numbers are natural numbers with the wrap-around of
-- the C types written out. The bytes MSG_SOH, MSG_ACK and MSG_NAK, which a missing header defines,
-- are fields of the record Platform, as is the host's byte order. What C leaves undefined is an
-- argument: what a write beyond the array for a client's name does (Platform), what stands in front
-- of a buffer's block (Front in Codec.Descriptors), and a shift that is too wide.
--
-- Loops run on fuel where they are not structural: parse_loop, rx_loop, copy_msg and sock_loop have
-- one round more than the buffer has bytes, each round but the last taking one; append_lvls has
-- eight rounds for the eight bits of the mask; find_next_tx_on has one round more than there are
-- clients, each failure making a ready client idle (more fuel changes nothing, Df1.Fuel);
-- enc_td_loop has eight rounds for the eight bytes of a uint64_t; link_loop has one round more than
-- sock_in has bytes, each round taking one. A command that waits for its own reply runs on the list
-- of the turns of its loop, each with what the system calls return; without a turn left it does
-- not return.
--
-- Not modelled: log messages and the texts of strerror, memory management, file descriptors and
-- select sets, the serial port (df1d/tty.c), configuration (df1d/cfg.c), the daemon (df1d/main.c,
-- df1d/log.c, df1d/timer.c), and of the library pccc_free, get_addr and the bytes that pccc_errstr
-- writes. The users' functions are recorded when they are called; they do not call the library in
-- the model.
pub mod Common
pub mod ByteOrder
pub mod Buf
pub mod Ret
pub mod Addr
pub mod Codec
pub mod Df1
pub mod Library
