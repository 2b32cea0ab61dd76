-- ===== src/Proxy/Tests.antt =====
-- A connection to a named host, over the toy algorithm, and one socket.
use roxy.Base.{
  ◌↔◌, ◌<◌, none, length-replicate, ℕ, ◌≡◌, refl, ◌⊎◌, true, false, none, some, List, [], ◌∷◌, ◌++◌,
  length, take, replicate, arith, Result, ok, err,
}
use roxy.Base.Bytes.{Bytes, codes}
use roxy.Socks5.{ErrorKind}
use roxy.Address.Utf8.{is_utf8}
use roxy.Address.{
  serialized_len, get_addr_len, Address, SocketAddr, v4, domain_name_address, socket_address,
  write_to_buf, read_from,
}
use roxy.Address.Wire.{IsValid, on_wire}
use roxy.Crypto.Kind.{CipherKind, salt_len, tag_len, is_aead2022}
use roxy.Crypto
use roxy.Crypto.{Cipher, nonce_size, encrypt, increase_nonce}
use roxy.Crypto.Seal.{sealed}
use roxy.Crypto.Tests.{toy, toy-IsAead, key, salt, cipher}
use roxy.Aead.Frames.{max_packet_size, ready, frames, concat}
use roxy.Aead.Writer
use roxy.Aead.Writer.{EncryptWriteState, EncryptedWriter, Answer, takes}
use roxy.Aead.Writer.Wire.{unsent}
use roxy.Aead.Writer.Session.{chunks}
use roxy.Aead.Reader
use roxy.Aead.Reader.{World, Arrival}
use roxy.Aead.Reader.Owes.{Owes}
use roxy.Aead.Reader.Polls.{read_all, start}
use roxy.Proxy.{WriteState, ReadState, Endpoint, ProxyStream, Sent, connect_to, poll_write}
use roxy.Proxy.Session.{send_all, offered}
use roxy.Proxy.Session.Reaches.{send_all_safe, send_all_reaches}
use roxy.Proxy.Session.Cut.{poll_write_cuts}
use roxy.Proxy.Socket.{ConnectOpts, IpAddr, Operation, connect_server_with_opts}
use roxy.Proxy.Socket.Plan.{plan, AllWell, connect_server_with_opts-plan}

abbrev dial : SocketAddr → Result {0} ErrorKind Unit
dial addr = ok tt

abbrev resolve : Bytes → ℕ → Result ErrorKind SocketAddr
resolve domain port = err ErrorKind.other

abbrev random : ℕ → Bytes
random n = replicate n 9

abbrev conf : Endpoint
conf = record { addr = socket_address (v4 10 0 0 1 8388); kind = CipherKind.aes_128_gcm; key = key }

abbrev target : Address
target = domain_name_address (codes "a.io") 443

abbrev head : Bytes
head = 3 ∷ 4 ∷ 97 ∷ 46 ∷ 105 ∷ 111 ∷ 1 ∷ 187 ∷ []

head-target : write_to_buf target [] ≡ some head
unfolding write_to_buf
head-target = refl

target-IsValid : IsValid target
unfolding is_utf8
target-IsValid = (refl, omega arith)

abbrev writer : EncryptedWriter
writer = record {
  cipher = cipher;
  buffer = salt;
  state = EncryptWriteState.assemble_packet;
  salt = salt;
}

abbrev opened : ProxyStream
opened = record {
  stream = record {
    dec = (unfold Reader.new in Reader.new CipherKind.aes_128_gcm key);
    enc = writer;
    kind = CipherKind.aes_128_gcm;
    handshaked = false;
  };
  read_state = ReadState.established;
  write_state = WriteState.connect target;
}

opens : connect_to toy dial resolve random conf target ≡ some (ok opened)
unfolding connect_to Writer.new Crypto.new nonce_size salt_len is_aead2022 Reader.new
opens = refl

-- The packet has 25 bytes sealed in 59; the socket takes 40 bytes, then the rest with the salt.
abbrev calls : List (Bytes × List Answer)
calls = (1 ∷ 2 ∷ [], takes 900 ∷ []) ∷ (7 ∷ [], takes 900 ∷ []) ∷ []

send_all_safe_example :
    (send_all toy true 0 (λ n. []) opened ((1 ∷ 2 ∷ [], takes 40 ∷ []) ∷ calls) ≡ none)
    ↔ (259 < serialized_len target)
send_all_safe_example =
    send_all_safe toy toy-IsAead true 0 (λ n. []) dial resolve random conf target opened
      (1 ∷ 2 ∷ []) (takes 40 ∷ []) calls opens (unfold serialized_len get_addr_len in omega arith)

abbrev sent : Bytes
sent = salt ++ frames toy cipher ((head ++ (1 ∷ 2 ∷ [])) ∷ (7 ∷ []) ∷ [])

abbrev finished : ProxyStream
finished = record opened {
  stream = record opened.stream {
    enc = record writer {
      cipher =
          Crypto.increase_nonce
            (Crypto.increase_nonce (Crypto.increase_nonce (Crypto.increase_nonce cipher)));
      buffer = [];
    };
  };
  write_state = WriteState.connected;
}

sends :
    send_all toy true 0 (λ n. []) opened ((1 ∷ 2 ∷ [], takes 40 ∷ []) ∷ calls)
    ≡ some (finished, sent)
unfolding send_all poll_write Writer.poll_write_encrypted Writer.assemble encrypt tag_len
    increase_nonce frames sealed is_aead2022
sends = refl

send_all_reaches_example :
    (out : Bytes) × (w : World) × (rest : Bytes) × (r : Sent) × (read_all toy
        (start CipherKind.aes_128_gcm key sent)
        ((4, Arrival.arrived 20 ∷ []) ∷ [])
      ≡ some (out, w))
    × Owes toy w rest
    × (poll_write toy true 0 (λ n. []) opened (1 ∷ 2 ∷ []) (takes 40 ∷ []) ≡ some r)
    × (read_from (out ++ rest)
        ≡ ok (
          on_wire target,
          (1 ∷ 2 ∷ [])
              ++ concat
                  (chunks toy r.proxy.stream.enc (offered toy true 0 (λ n. []) r.proxy calls)),
        ))
send_all_reaches_example =
    send_all_reaches toy toy-IsAead true 0 (λ n. []) dial resolve random conf target head opened
      (1 ∷ 2 ∷ []) (takes 40 ∷ []) calls finished sent ((4, Arrival.arrived 20 ∷ []) ∷ []) opens
      (λ n. length-replicate n 9) target-IsValid head-target (omega arith) sends refl

abbrev long : Bytes
long = replicate 16383 0

poll_write_cuts_example :
    (n : ℕ) × (c : Cipher) × (r : Sent) × (poll_write toy false 0
        (λ n. [])
        opened
        long
        (takes 20000 ∷ [])
      ≡ some r)
    × (r.poll ≡ ready (length long))
    × (unsent r.proxy.stream.enc ≡ [])
    × (r.sent ≡ random n ++ frames toy c (take max_packet_size (head ++ long) ∷ []))
poll_write_cuts_example =
    poll_write_cuts toy toy-IsAead false 0 (λ n. []) dial resolve random conf target head opened
      long 20000 opens (λ n. length-replicate n 9) head-target
      (omega (arith, length-replicate {A = ℕ} 16383 0)) (omega arith)

-- An IPv4 address is bound towards an IPv6 server, and not towards an IPv4 one.
abbrev options : ConnectOpts
options = record {
  fwmark = some 255;
  bind_local_addr = some (IpAddr.ipv4 192 168 0 2);
  bind_interface = none;
  tcp = record {
    send_buffer_size = none;
    recv_buffer_size = none;
    nodelay = true;
    fastopen = false;
    keepalive = none;
  };
}

abbrev allows : Operation → Result {0} ErrorKind Unit
allows op = ok tt

v4_unbound :
    (connect_server_with_opts allows (v4 10 0 0 1 8388) options).log
    ≡ Operation.new_v4
      ∷ Operation.set_mark 255
      ∷ Operation.connect (v4 10 0 0 1 8388)
      ∷ Operation.set_nodelay
      ∷ []
unfolding connect_server_with_opts
v4_unbound = refl

connect_server_with_opts-plan_example :
    (AllWell allows (plan (v4 10 0 0 1 8388) options)
      × (connect_server_with_opts allows (v4 10 0 0 1 8388) options
          ≡ record { result = ok tt; log = plan (v4 10 0 0 1 8388) options }))
    ⊎ ((before : List Operation) × (op : Operation) × (after : List Operation) × (e : ErrorKind)
        × (plan (v4 10 0 0 1 8388) options ≡ before ++ (op ∷ after))
        × AllWell allows before
        × (allows op ≡ err e)
        × (connect_server_with_opts allows (v4 10 0 0 1 8388) options
            ≡ record { result = err e; log = before ++ (op ∷ []) }))
connect_server_with_opts-plan_example =
    connect_server_with_opts-plan allows (v4 10 0 0 1 8388) options
