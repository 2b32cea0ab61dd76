-- ===== src/Proxy/Socket.antt =====
-- `connect_server_with_opts` of lib/shadowsocks/src/tcp/proxy.rs and the options of
-- lib/shadowsocks/src/option.rs: the operations on the socket, one after the other until one fails.
-- What the operating system answers to an operation is a parameter.
pub mod Plan
use roxy.Base.{
  ℕ, ◌≡◌, refl, sym, ap, Bool, true, false, Option, none, some, List, [], ◌∷◌, ◌++◌, append_assoc,
  append-nil, Result, ok, err, ◌⊎◌, inl, inr, if◌then◌else◌,
}
use roxy.Base.Bytes.{Bytes}
use roxy.Socks5.{ErrorKind}
use roxy.Address.{SocketAddr, Segments, v4, v6}

-- `IpAddr`: four octets, or eight segments.
pub data IpAddr : Type 0 where
  ipv4 : ℕ → ℕ → ℕ → ℕ → IpAddr
  ipv6 : Segments → IpAddr

pub record TcpSocketOpts : Type 0 where
  pub send_buffer_size : Option ℕ
  pub recv_buffer_size : Option ℕ
  pub nodelay : Bool
  pub fastopen : Bool
  pub keepalive : Option ℕ

pub record ConnectOpts : Type 0 where
  pub fwmark : Option ℕ
  pub bind_local_addr : Option IpAddr
  pub bind_interface : Option Bytes
  pub tcp : TcpSocketOpts

pub data Operation : Type 0 where
  new_v4 new_v6 : Operation
  set_mark : ℕ → Operation
  bind_device : Bytes → Operation
  bind : IpAddr → Operation
  set_send_buffer_size set_recv_buffer_size : ℕ → Operation
  connect : SocketAddr → Operation
  set_nodelay : Operation
  set_keepalive : ℕ → Operation

-- Whether all went well so far, and what was done.
pub record Done : Type 0 where
  pub result : Result {0} ErrorKind Unit
  pub log : List Operation

abbrev pub new_socket : SocketAddr → Operation
new_socket (v4 _ _ _ _ _) = new_v4
new_socket (v6 _ _ _ _) = new_v6

module _ (answer : Operation → Result {0} ErrorKind Unit) where
  -- An operation, unless one has failed before: `?`.
  unfoldable pub perform : Operation → Done → Done
  perform op d = elim d.result [
    | err e ↦ d
    | ok _ ↦ record { result = answer op; log = d.log ++ (op ∷ []) }
  ]

  abbrev pub perform_if : Bool → Operation → Done → Done
  perform_if b op d = if b then perform op d else d

  abbrev pub perform_some : {A : Type 0} → Option A → (A → Operation) → Done → Done
  perform_some none op d = d
  perform_some (some a) op d = perform (op a) d

  abbrev pub bind_local : Option IpAddr → SocketAddr → Done → Done
  bind_local (some (ipv4 a b c e)) (v6 _ _ _ _) d = perform (bind (ipv4 a b c e)) d
  bind_local (some (ipv6 s)) (v6 _ _ _ _) d = perform (bind (ipv6 s)) d
  bind_local _ _ d = d

  unfoldable pub set_common_sockopt_for_connect : SocketAddr → ConnectOpts → Done → Done
  unfolding perform
  set_common_sockopt_for_connect addr opts d =
      perform_some opts.tcp.recv_buffer_size set_recv_buffer_size (
        perform_some opts.tcp.send_buffer_size set_send_buffer_size
          (bind_local opts.bind_local_addr addr d))

  unfoldable pub set_common_sockopt_after_connect : ConnectOpts → Done → Done
  unfolding perform
  set_common_sockopt_after_connect opts d =
      perform_some opts.tcp.keepalive set_keepalive (perform_if opts.tcp.nodelay set_nodelay d)

  unfoldable pub connect_server_with_opts : SocketAddr → ConnectOpts → Done
  unfolding set_common_sockopt_for_connect set_common_sockopt_after_connect
  connect_server_with_opts addr opts =
      let opened = perform (new_socket addr) (record { result = ok tt; log = [] }) in
      let marked = perform_some opts.fwmark set_mark opened in
      let device = perform_some opts.bind_interface bind_device marked in
      let prepared = set_common_sockopt_for_connect addr opts device in
      set_common_sockopt_after_connect opts (perform (connect addr) prepared)
