-- ===== src/Lib.antt =====
-- DeeLip, a SIP softphone: its SIP messages and calls, its ZRTP key agreement and its RTP packets.
--
-- The program. Signalling (crates/sip-core) exchanges SIP messages over UDP, TCP or TLS and agrees on
-- the media of a call; the media engine (crates/media-engine) sends and receives RTP; ZRTP
-- (crates/sip-core/src/zrtp) agrees on the media keys over the RTP socket itself, driven by the runtime
-- in crates/media-engine/src/zrtp_session.rs; crates/config keeps the settings; crates/ui shows it all.
--
-- The files.
-- Zrtp/Wire: crates/sip-core/src/zrtp/wire.rs. `encode` and `decode` are `Message::encode` and
--   `Message::decode`, `encode_packet` and `decode_packet` those of `Packet`; each body has its pair.
--   A slice out of range is the outcome `panic`. The checksum is the parameter `crc32`.
-- Zrtp/Crypto: crates/sip-core/src/zrtp/crypto.rs. The record `Primitives` stands for SHA-256, HMAC, the
--   curve and the cipher of the crates ring and cfb_mode; the derivations are written out over it.
-- Zrtp/Cache: crates/sip-core/src/zrtp/cache.rs. The trait of a secret store is a record, and the
--   in-memory store an association list.
-- Zrtp/Engine: crates/sip-core/src/zrtp/engine.rs. `ZrtpEngine` is the struct, field by field; a handler
--   takes the engine and gives a result beside the engine it leaves, also when it fails or aborts. The
--   random bytes of a call are its argument. Handshake runs two engines against each other; Safety has the
--   invariant of the engine's fields and the engines that can be reached.
-- Media/ZrtpSession: crates/media-engine/src/zrtp_session.rs. Instants are milliseconds.
-- Media/Rtp: crates/media-engine/src/rtp.rs, the codec and the sender.
-- Media/VideoRtp: crates/media-engine/src/video_rtp.rs, NAL units in RTP payloads.
-- Media/Dtmf: crates/media-engine/src/dtmf.rs, telephone events.
-- Media/Vad: crates/media-engine/src/vad.rs, the voice activity detector.
-- Media/G711: G.711 and linear PCM of crates/media-engine/src/codec.rs.
-- Sip/Framing: crates/sip-core/src/wire/framing.rs, and `StreamHalves::recv` of
--   crates/sip-core/src/transport.rs over the list of chunks that the reads return.
-- Sip/Util: crates/sip-core/src/wire/util.rs, the parsers of header values.
-- Sip/Message: crates/sip-core/src/wire/message.rs. `parse` is `SipMessage::parse`; a text is the list of its
--   characters.
-- Sip/Builders: crates/sip-core/src/client/builders.rs, the texts of responses and ACK requests; the record
--   `SipStack` has what they read of the struct and its account.
-- Sip/Auth: crates/sip-core/src/wire/auth.rs. MD5 is the parameter `md5_hex`.
-- Sip/Dns: crates/sip-core/src/wire/dns.rs, the encoding of names and the parser of responses.
-- Sip/Registration: crates/sip-core/src/registration.rs, the two rounds of REGISTER over the datagrams that
--   arrive before each timeout, with `extract_expires` and `parse_via_received` of wire/util.rs.
-- Sip/Hosts: `uri_host_port` of crates/sip-core/src/wire/util.rs.
-- Sip/Dialog: crates/sip-core/src/call/dialog.rs, field by field; media resources are handles.
-- Sip/Calls: the handlers of crates/sip-core/src/call/lifecycle (outgoing.rs from the finished offer on,
--   incoming.rs but for the background task of `accept_call`, response with its four files, teardown.rs and
--   reinvite.rs), of crates/sip-core/src/call/transfer.rs and of crates/sip-core/src/message_method.rs. A
--   handler takes the `State` and gives the state it leaves with the list of its effects: texts sent, events,
--   work handed on. What it draws or asks of outside (time, branches, the resolver, the transport's errors,
--   whether an answer has a codec) is the record `World`, for a call that is taken also the record `Local`,
--   and for a hold the function that makes an offer of the call's media. `Act` is the enum of
--   response/mod.rs; `classify` and `perform` are its two halves. Sip/Calls/Runs puts the handlers that reach
--   the dialogs in sequence.
-- Config/DialPlan: crates/config/src/dialplan.rs. Regular expressions are the record `Engine`.
-- Config/Account: the methods of crates/config/src/account/sip_account.rs, over the fields that they read.
-- Config/Enums: crates/config/src/account/enums.rs.
-- Prelude: tests on numbers, lists, slices, words, texts, decimal numbers, maps, and results with an abort.
--
-- Bounds and fuel. Bytes and words are natural numbers; where the code narrows or wraps, the remainder is
-- written out, and the theorems ask of a field that it fits its type. `chunks_of` has the length of the
-- payload as fuel, of which each chunk uses at least one; `decimal` has a number above the one that
-- it prints, which loses a digit at each step, and `trim_start_matches` the length of its text, of which each
-- step takes one character at least; `skip_name` has one more than the length of its buffer, in which each step
-- goes forward, `decode_name` the 128 hops of the code, and `highest_bit` the 12 bits of a clipped sample; all other recursion is structural. A subtraction
-- below zero aborts in Media/VideoRtp, as with overflow checks; the addition of lengths in Sip/Framing
-- wraps at 2 ^ 64, as in a release build.
--
-- Not modelled. Sockets, timers, threads and devices; the SQL of the stores; the codecs of audio and video but for G.711 and linear PCM; the queries of the DNS client;
-- floating-point arithmetic, with the synthesis of tones and of noise; DTLS, ICE, STUN and TURN, which are
-- libraries; the user interface; subscriptions and SDP. The background tasks
-- that resolve media are not either: a handler starts one, and another takes what it hands back.
pub mod Prelude
pub mod Zrtp
pub mod Media
pub mod Sip
pub mod Config
