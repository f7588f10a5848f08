-- ===== src/Lib.antt =====
-- A model of the RIST Simple Profile protocol of this repository, and what holds of it.
--
-- The program is two crates. rist-protocol is the protocol without I/O: packets, the receiver's reorder
-- buffer, the two halves of the retransmission (ARQ) machinery, the bonding merger and the estimators.
-- rist-transport runs them: a sender task writes RTP datagrams, keeps them in a ring, and answers the
-- NACKs that come back over RTCP; a receiver task puts what arrives into the reorder buffer, asks for
-- what is missing through the NACK scheduler, and delivers in order after a hold time.
--
-- The modules, by the file that each one models:
--   Seq            rist-protocol/src/packet/seq.rs (SeqNo)
--   Reorder        rist-protocol/src/protocol/reorder.rs (ReorderBuffer: insert, drain_ready,
--                  next_drain_time). `insert` is `insert_window` once base and highest are known; its
--                  overflow branch is `overflow`, the slot and gap part `place`, `extend`, `mark_gaps`
--   Retransmit     rist-protocol/src/protocol/nack_tracker.rs (RetransmitBuffer)
--   Scheduler      the same file (NackScheduler: on_packet_received, on_packet_recovered,
--                  get_pending_nacks)
--   Bonding        rist-protocol/src/protocol/bonding.rs (BondingMerger::process)
--   Rtt            rist-protocol/src/protocol/rtt.rs (RttEstimator)
--   ReceiverState  rist-protocol/src/protocol/rtcp_state.rs (RtcpReceiverState; not its jitter estimate)
--   SenderState    the same file (RtcpSenderState, system_time_to_ntp)
--   Rtp            rist-protocol/src/packet/rtp.rs (RtpHeader, RtpPacket)
--   Rtcp           rist-protocol/src/packet/rtcp.rs (RtcpCommonHeader)
--   Nack           rist-protocol/src/packet/rtcp_nack.rs (NackPacket, NackListBuilder)
--   App            rist-protocol/src/packet/rtcp_app.rs (RistApp)
--   Report         rist-protocol/src/packet/rtcp_sr.rs and rtcp_rr.rs (SenderReport, ReceiverReport), and
--                  below it Description for rtcp_sdes.rs (Sdes)
--   Compound       rist-protocol/src/packet/rtcp.rs (RtcpPacket, RtcpCompound::parse and serialize);
--                  `parse_packets` is its loop, with the room that is left up to 64 packets
--   Wire           rist-protocol/src/error.rs, fallible code, and the `bytes` crate as a parameter
--   Guard          rist-transport/src/guard.rs (hold-down, NACK filter, NackWorkBudget)
--   Sender         rist-transport/src/sender.rs (serve_nack_entries, write_rtp_header, ntp_to_rtp90k, and
--                  of sender_loop the media branch and the admission of the RTCP peer)
--   Dispatch       the same file (of sender_loop the whole branch for the RTCP socket: `on_rtcp`, with the
--                  loop over the packets of a compound, `handle_all`)
--   Receiver       rist-transport/src/receiver.rs. State has the variables of receiver_loop; Media, Control
--                  and Pump its branches (`on_rtp`, `on_rtcp`, `on_pump`, `on_report`), which Steps puts
--                  together into a machine (below it Inert, on strangers, and Asked, with Waiting, on
--                  a run from a loss to its request); Delivery a turn of run_drain_thread
--   SenderLoop     rist-transport/src/sender.rs: the variables of sender_loop and its three branches, put
--                  together into a machine
--   Arq            the sender and the receiver together: a request, and the retransmit that answers it
--                  (Served, Resent), up to the gap that it fills (Recovered, Exchange)
--   Ring           the index arithmetic that the rings share
--   Prelude        numbers, words, bits, lists and arrays
--
-- Conventions. A number of `w` bits is a native number, with its wrap-around written out. Instants and
-- durations are nanoseconds; a `Vec` or array of fixed length is a function of the index, whose
-- arguments are masked as in the code (`Ring.slot_index`). State is passed explicitly. A
-- read past the end of a buffer is the result `panic`. Plain sums of counters wrap, as in a release build.
-- The sockets are parameters: a state of the network and a function that sends. A datagram that comes in
-- is read into a buffer of `max_udp_recv` = 2048 bytes, so a longer one is cut there (`Wire.received`).
--
-- Fuel. `drain_ready` runs on 2 ^ 15 + 2 rounds: a window has at most `capacity` numbers, the model's
-- capacities are at most 2 ^ 14, and each round releases one number, so a round that releases nothing
-- comes first. `next_power_of_two` doubles at most 64 times. The loop over a compound stops after
-- `max_rtcp_sub_packets` packets, on which it recurs. Every other loop is a recursion on what is left to
-- do.
--
-- Time. A handler is given the instants at which the code reads the clock, one by one, as a list of
-- arguments or a function of the packet's index; nothing is assumed of them but what a theorem says.
--
-- Outside. The `bytes` crate is `Wire.Buf`, with its documented big-endian behaviour as the hypothesis
-- `Wire.BigEndian.IsBigEndian`, which `big_endian` satisfies. `String::from_utf8_lossy` is a parameter, and
-- so are the channel to the application and the wall clock.
--
-- Not modelled: tokio and its sockets, the condition variable, logging; the jitter estimate, which is
-- floating point (a report takes its value as an argument); the set-up of sockets and tasks; the
-- placeholders for GRE, tunnels, DTLS and PSK, which have no behaviour that is used.
pub mod Prelude
pub mod Wire
pub mod Ring
pub mod Seq
pub mod Reorder
pub mod Retransmit
pub mod Scheduler
pub mod Bonding
pub mod Rtt
pub mod ReceiverState
pub mod Rtp
pub mod Rtcp
pub mod Nack
pub mod App
pub mod Guard
pub mod Sender
pub mod Report
pub mod SenderState
pub mod Compound
pub mod Dispatch
pub mod Receiver
pub mod SenderLoop
pub mod Arq
