-- ===== src/Lib.antt =====
-- A model of roxy, a tunnel proxy in Rust, with the theorems that make its parts correct.
--
-- The program relays TCP connections through shadowsocks servers. `src/relay/thp` sniffs the
-- destination of a connection, `src/upstream` chooses a server, and `lib/shadowsocks` speaks the
-- protocol: it writes the destination as an address in front of the payload and encrypts the stream.
-- Beside it, `src/dns` answers DNS requests from a cache, from rules or from an upstream resolver.
--
-- Which file models what (paths from the repository's root):
-- - Base: shared names, lists over native numbers, `Result`, bytes and integers.
-- - Socks5: lib/shadowsocks/src/socks5.rs, reply codes and errors.
-- - Address: lib/shadowsocks/src/addr.rs. `write_to_buf` and `read_from` over byte lists; a stream is
--   the bytes that it delivers before it ends. Address/Utf8 is the check of `String::from_utf8`.
-- - Crypto: lib/shadowsocks/src/crypto, the cipher kinds, the stateful cipher and its nonce. HKDF and
--   AES-GCM are the parameter `Primitives`, with the laws `IsAead` of an authenticated cipher.
-- - Aead: lib/shadowsocks/src/tcp/aead.rs, the encrypted stream. `Frames` is its wire form, `Writer` and
--   `Reader` are the two state machines; a poll takes the answers that the stream gives it. The loop
--   of the reader runs on fuel, two rounds for each answer and two more, and `Reader/Polls` shows that
--   this is enough where the stream holds what a writer sent. `Stream` joins the two.
-- - Copy: lib/shadowsocks/src/tcp/utils.rs, the loop between a plain and an encrypted stream. It runs on
--   fuel, a round for each answer of the reader and two more; Copy/Turns shows that this is enough.
-- - Udp: lib/shadowsocks/src/udp/aead.rs, the encrypted datagram. Udp/Socket is proxy_socket.rs and the
--   dispatch of crypto.rs beside it.
-- - Replay: lib/shadowsocks/src/security/replay/ppbloom.rs, two Bloom filters that take turns; the
--   filter of the crate `bloomfilter` is a parameter.
-- - Rule: src/dns/rule/trie/set.rs, the rules of the DNS server and their lookup; Rule/Bloom is
--   bloom.rs beside it, over the filter of the crate `bloom`, a parameter.
-- - Dns: src/dns/handle, the cache and the chain of handlers. The map of the crate `lru_cache`, the
--   equality of queries, by which it finds its keys, the parts of a message and the resolver's answer
--   are parameters.
-- - Config: lib/shadowsocks/src/config.rs, a server's configuration, its key and its URL, and
--   `Address::from_str`. The parsers of URLs, socket addresses and base64, and MD5, are parameters. A
--   URL in a URL takes one unit of fuel for each turn; Config/Holds shows that its length is enough.
-- - Duration: src/serde/duration.rs, the parser of durations; `f64` is a parameter. Its loop runs on
--   fuel, one unit for each byte of the text; Duration/Total shows that this is enough.
--   Duration/Print is the printer, where twenty digits are enough for 64 bits.
-- - Cron: lib/cron/src/parse.rs, the fields of a cron expression. A loop over a range runs on fuel, one
--   unit for each number of the range. Cron/Expression is `from_str`.
-- - Sniff: src/relay/thp/sniffing.rs, the Host header of a request and the server name of a TLS
--   handshake. `memchr` and `Buf::advance` of their crates are parameters with what their
--   documentation says. A loop has one unit of fuel more than there are bytes in front of it, and
--   Sniff/Ends shows that this is enough.
-- - Relay: src/relay/thp/server.rs, the attempts of one connection, between the sniffer and the
--   upstream, while other tasks change the upstream. How an attempt goes is an argument, and that it
--   panics is one way.
-- - Proxy: lib/shadowsocks/src/tcp/proxy.rs. Proxy/Channel is crypto.rs beside it, for the AEAD kinds,
--   since `from_stream` panics for the others; Proxy/Socket is the socket and its options of
--   lib/shadowsocks/src/option.rs. Proxy/Session joins the first packet to the encrypted stream and to
--   the address codec.
-- - Upstream/Server: src/upstream/server.rs, one server and its latency history.
-- - Upstream/Hash: src/upstream/hash.rs. The operations on `f64` are a parameter with the laws of
--   IEEE 754 that the loop needs. The loop runs on fuel, one unit for each bucket and one more.
-- - Upstream/Peers: `Peers` of src/upstream/mod.rs and the score of src/upstream/checker.rs. A server
--   is shared by `Arc`, so a choice is an index; a panic is `none`.
-- - Upstream/Service: `Upstream` of src/upstream/mod.rs, its tasks as a step relation.
--
-- A machine word is a native number with its wrap-around written out, as a build without overflow
-- checks has it, which is what the release profile asks for. Input, clocks and the outcome
-- of network requests are arguments. Not modelled: sockets, the HTTP client and server,
-- logging, the start of the program, and AEAD-2022, whose lengths are `todo!()` in the source.
pub mod Base
pub mod Socks5
pub mod Address
pub mod Crypto
pub mod Aead
pub mod Copy
pub mod Udp
pub mod Proxy
pub mod Replay
pub mod Rule
pub mod Dns
pub mod Upstream
pub mod Sniff
pub mod Relay
pub mod Config
pub mod Duration
pub mod Cron
