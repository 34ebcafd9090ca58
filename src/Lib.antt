-- ===== src/Lib.antt =====
-- neolink: a proxy between Reolink cameras, which speak the Baichuan protocol, and RTSP or MPEG-TS
-- readers. The packets of a camera come over TCP or over a reliable layer on UDP
-- (crates/core/src/bc_protocol/connection), are decoded (crates/core/src/bcudp, bc, bcmedia), and
-- the media is timed (src/common/timestamps.rs), muxed (src/mpegts) and shared out to the readers
-- (src/stream/fanout.rs).
--
-- Base holds shared helpers: lists over the native numbers, machine words with the wrap-around
-- written out, and the laws of the bit operations. Wire is the interface to the parser and printer
-- combinators of the crates nom and cookie_factory, with a concrete instance.
-- Timestamps models src/common/timestamps.rs: `TimestampTracker` with `next_video_us` and
-- `next_audio_us`, each returning the new tracker with its result.
-- Fanout models src/stream/fanout.rs: `Fanout`, `Queue`, `Gop` and their methods. The shared
-- queues stand in a store under the number of their consumer, so that a weak handle can dangle.
-- Udp models crates/core/src/bcudp: the packet model, the XOR cipher, the writer, the
-- parser and the codec. XML and the checksum of crc32fast are parameters.
-- Transport models crates/core/src/bc_protocol/connection/udpsource.rs: `UdpPayloadInner` with a
-- turn of `run` given the branch that is ready, `build_send_ack`, `handle_ack`, `AckLatency`, and
-- the loop of `UdpPayloadSource::new` that runs the turns. Its loops run on fuel: a turn for each
-- packet held, which the theorems show to be enough.
-- Mpegts models src/mpegts/mod.rs: `TsMuxer` and the functions below it, each returning the bytes
-- that the source appends to `out`. The loop of `emit_packets` runs on fuel: a turn for each byte,
-- as every packet carries at least one.
-- Bc models crates/core/src/bc: the messages (Model), the records of their XML (Xml), the modes of
-- `EncryptionProtocol` (Crypto), the key of a login (Credentials), the writer, the parser, and the
-- codec, which carries `BcContext` from message to message. AES in CFB mode, MD5 and the text of
-- the XML are parameters.
-- Media models crates/core/src/bcmedia: the packets, their writer, parser and codec, and how long
-- the audio packets play. The loop of the codec runs twice at most, since what it drops is all.
-- UseCounter models src/common/usecounter.rs: the permits, the notices on their way and the count
-- in one state, with a function for each action; none stands for taking 1 from 0.
-- Adpcm models src/audio/adpcm.rs, where a sample is a number with a sign, and a table that is
-- left is a panic. Alaw models src/audio/alaw.rs; `>> 3` rounds down.
-- Pump models src/stream/pump.rs: `learn` as a loop over what the channel answers and when, with the
-- timer of the probe, and `Packer` (Packer), which puts together the clock of Timestamps, the muxer
-- of Mpegts, Adpcm and Alaw. Pump/Session models `stream_once` of src/pipe/mod.rs, which pushes what
-- the packer gives into Fanout, turn by turn with the steps of the readers.
-- Routing models the poller of crates/core/src/bc_protocol/connection/bcconn.rs, a command at a
-- time, with the receivers that go before and during it, and `BcSubscription::recv` of bcsub.rs.
-- Presets models `allocate_preset_id` of src/onvif/services/ptz.rs; what the camera lists is given.
--
-- Left out: the asynchronous runtime, sockets and channels, logging, GStreamer, and the text of
-- the XML.
pub mod Base
pub mod Timestamps
pub mod Fanout
pub mod Wire
pub mod Udp
pub mod Transport
pub mod Mpegts
pub mod Presets
pub mod Pump
pub mod Routing
pub mod Bc
pub mod Media
pub mod UseCounter
pub mod Alaw
pub mod Adpcm
