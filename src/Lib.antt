-- ===== src/Lib.antt =====
-- A peer of a file sharing network (peer.c and the files that it calls): it downloads the chunks of a
-- file from other peers over UDP, and uploads the chunks that it has, with its own reliable transport.
--
-- The parts, and where they are modelled:
--   Wire       peer.h, and of peer.c the clock (`my_get_time`, `init_my_timer`) and `send_packet`;
--              `bt_peer_info` of bt_parse.c. The record Env is what all parts share: the list of
--              peers, the answers of gettimeofday, the window size log, and what was sent.
--   Sender     send.c and send.h: the window of one upload. Sender.antt has the congestion control
--              and the transmission of a packet, Sender/Ack.antt `ctl_udp_ack`, Sender/Timeout.antt
--              `ctl_udp_time_out`. The proofs are in Invariant, Safety, Shift, Total (ACKs), Late
--              (the timer), Load (the first transmission), Phase (congestion control) and Clock.
--   Chunk      chunk.c, and in Chunk/Listing.antt make_chunks.c and the loop that reads a list of
--              chunks in requestor.c and responser.c; the proofs are in Hex, Count and Reread.
--   Scan       what the program uses of scanf and printf: words and decimal numbers.
--   Input      input_buffer.c and input_buffer.h. The proofs: Shift and Lines (the loop over the
--              lines), Split, Session and Pieces (what is typed in pieces).
--   Requestor  requestor.c and requestor.h: the download. Requestor.antt has the requests,
--              Requestor/Receive.antt what the timer and the packets do, Requestor/Init.antt the
--              start. The proofs: Provider (the choice of a provider), Progress (the marks of a
--              chunk), Distinct, Invariant, Requests, Repeat, Finish, Overflow, Data (a DATA packet),
--              Transfer and Delivery (all packets of a chunk), Expire (the timer), Offer (an
--              IHAVE, and all packets) and Begin (the start).
--   Responser  responser.c and responser.h: the uploads. The proofs: Blocks and Content (loading a
--              sender), Uploads (lists of senders), Serving and Start (the bookkeeping) and Answer
--              (all packets).
--   Peer       the rest of peer.c: `process_inbound_udp` hands each datagram to the requestor, the
--              responser or the senders; Peer/Round.antt has what is typed, the start of `peer_run`
--              and a round of its loop. The proofs: Headers and Inbound (a datagram), Typed (a
--              GET), Asked (the names in a line), Senders and Turns (the loops over the senders), Sound, Reach, Start and Run
--              (the whole process), and Exchange (an upload and a download).
--   Spiffy     spiffy.c and spiffy.h: the header for the network simulator; the proof is in Relay.
--   Config     bt_parse.c and bt_parse.h, and `set_debug` of debug.c. The proofs: Options (the
--              command line) and Peers (the list of peers).
--   Prelude    helpers: tests, lists by index, integers. Tests: concrete data and runs.
--
-- How the state and the operations correspond. A struct is a record with the fields of the source,
-- and a function that changes `*req`, `*sender` or a global takes that record and the Env and returns
-- both. Fields that the model drops are named where the record is declared. `none` is a fault: an
-- access outside an array, through a null pointer, or to memory that was freed. One access is not
-- modelled as a fault: the bytes that `send_packet` and `update_data` read behind the end of a
-- payload are the stray bytes of the Env, since they only end in a packet or a block. Parameters that the
-- source does not use (`peer` of `ctl_udp_send` and `ctl_udp_ack`, `req` of `send_ack`, `res` of
-- `send_ihave`), results that no caller looks at, and output by printf are dropped. A loop over an
-- array recurs on the rounds that are left. The `while` loop of `requstor_timeout` runs on fuel, one
-- more than there are chunks. `make_chunks` has one round for each byte of the file and one
-- more, and so has the loop that reads a list of chunks. The loop over the lines that are typed has
-- 8193 rounds: each line takes a byte of a buffer of 8192. The loop over the list of peers has a
-- round for each byte of the file: each line takes one.
-- `connection_closed` is called at the end of `ctl_udp_ack` and `ctl_udp_time_out`: there the model
-- returns a Boolean, and Peer.antt makes the call.
--
-- Parameters: the hash function (`shahash`, sha.c is a copied library), gettimeofday, the bytes
-- behind an allocation, fresh memory for the chunks, what `select`, `recvfrom`, `getopt`,
-- `gethostbyname` and `inet_aton` deliver, and the content of files (what fscanf reads from a list of
-- chunks is a parameter of the download and of the uploads; Chunk/Listing.antt has how it is read).
-- Whether `fopen` creates an output file and opens it again is a parameter, the record Disk of
-- Requestor/Init.antt: without the file the code uses a null pointer, which is a fault here too.
-- `last_provider` of a chunk is what `malloc` leaves there. An offset in a file is C's `int` product (`seek_offset` of Wire.antt).
-- The parts meet in Peer/Round.antt, which uses a datagram as `recvfrom` delivers it without the
-- simulator: behind it the receive buffer keeps its bytes. Spiffy and Config stand beside it: what
-- they produce, the source of a datagram and the list of peers, is in the Env and in the events.
-- Not modelled: the sockets of `peer_run`, a negative result of `spiffy_recvfrom` in
-- `process_inbound_udp`, what bt_parse.c and debug.c print, the compile-time options TERM_FIN and
-- JUNK, memory that runs out, and an overflow of a `long` or of a number that scanf reads.
pub mod Prelude
pub mod Wire
pub mod Scan
pub mod Sender
pub mod Input
pub mod Chunk
pub mod Requestor
pub mod Responser
pub mod Peer
pub mod Spiffy
pub mod Config
pub mod Tests
