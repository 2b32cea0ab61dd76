-- ===== src/Proxy/Socket/Plan.antt =====
-- The operations of a connection against a plan of them.
use roxy.Base.{
  ◌≡◌, refl, sym, ap, Bool, true, false, Option, none, some, List, [], ◌∷◌, ◌++◌, append_assoc,
  append-nil, Result, ok, err, ◌⊎◌, inl, inr,
}
use roxy.Socks5.{ErrorKind}
use roxy.Address.{SocketAddr, v4, v6}
use roxy.Proxy.Socket.{
  IpAddr, ipv4, ipv6, ConnectOpts, Operation, set_mark, bind_device, bind, set_send_buffer_size,
  set_recv_buffer_size, connect, set_nodelay, set_keepalive, Done, perform, perform_if,
  perform_some, bind_local, new_socket, connect_server_with_opts,
}

-- The operations that the options ask for.
abbrev pub asked : {A : Type 0} → Option A → (A → Operation) → List Operation
asked none op = []
asked (some a) op = op a ∷ []

abbrev pub asked_local : Option IpAddr → SocketAddr → List Operation
asked_local (some ip) (v6 _ _ _ _) = bind ip ∷ []
asked_local _ _ = []

abbrev pub asked_if : Bool → Operation → List Operation
asked_if true op = op ∷ []
asked_if false op = []

unfoldable pub plan : SocketAddr → ConnectOpts → List Operation
plan addr opts =
    (new_socket addr ∷ [])
    ++ (asked opts.fwmark set_mark
        ++ (asked opts.bind_interface bind_device
            ++ (asked_local opts.bind_local_addr addr
                ++ (asked opts.tcp.send_buffer_size set_send_buffer_size
                    ++ (asked opts.tcp.recv_buffer_size set_recv_buffer_size
                        ++ ((connect addr ∷ [])
                            ++ (asked_if opts.tcp.nodelay set_nodelay
                                ++ asked opts.tcp.keepalive set_keepalive)))))))

-- The operations of a plan up to the first that fails, and its error.
unfoldable pub carry_out : (Operation → Result {0} ErrorKind Unit) → List Operation → Done → Done
unfolding perform
carry_out answer [] d = d
carry_out answer (op ∷ ops) d = carry_out answer ops (perform answer op d)

carry_out-append :
    (answer : Operation → Result {0} ErrorKind Unit) (xs ys : List Operation) (d : Done)
    → carry_out answer (xs ++ ys) d ≡ carry_out answer ys (carry_out answer xs d)
unfolding carry_out
carry_out-append answer [] ys d = refl
carry_out-append answer (x ∷ xs) ys d = carry_out-append answer xs ys (perform answer x d)

-- All operations of the plan are done well, or those up to one that fails.
abbrev pub AllWell : (Operation → Result {0} ErrorKind Unit) → List Operation → Type 0
AllWell answer [] = Unit
AllWell answer (op ∷ ops) = (answer op ≡ ok tt) × AllWell answer ops

-- How a plan ends from `d`.
Ends : (Operation → Result {0} ErrorKind Unit) → List Operation → List Operation → Done → Type 0
Ends answer log ops d =
    (AllWell answer ops × (d ≡ record { result = ok tt; log = log ++ ops }))
    ⊎ ((before : List Operation) × (op : Operation) × (after : List Operation) × (e : ErrorKind)
        × (ops ≡ before ++ (op ∷ after))
        × AllWell answer before
        × (answer op ≡ err e)
        × (d ≡ record { result = err e; log = log ++ (before ++ (op ∷ [])) }))

carry_out_failed :
    (answer : Operation → Result {0} ErrorKind Unit) (ops : List Operation) (e : ErrorKind)
    (log : List Operation)
    → carry_out answer ops (record { result = err e; log = log })
      ≡ record { result = err e; log = log }
unfolding carry_out
carry_out_failed answer [] e log = refl
carry_out_failed answer (op ∷ ops) e log = carry_out_failed answer ops e log

Result-cases : (r : Result {0} ErrorKind Unit) → (r ≡ ok tt) ⊎ ((e : ErrorKind) × (r ≡ err e))
Result-cases (ok u) = inl refl
Result-cases (err e) = inr (e, refl)

carry_out-Ends :
    (answer : Operation → Result {0} ErrorKind Unit) (ops log : List Operation)
    → Ends answer log ops (carry_out answer ops (record { result = ok tt; log = log }))
unfolding Ends carry_out
carry_out-Ends answer [] log =
    inl (tt, ap (λ l. record { result = ok tt; log = l }) (sym (append-nil log)))
carry_out-Ends answer (op ∷ ops) log = elim (Result-cases (answer op)) [
  | inr (e, q) ↦
      inr ([], op, ops, e, refl, tt, q, rw q (carry_out_failed answer ops e (log ++ (op ∷ []))))
  | inl q ↦ elim (carry_out-Ends answer ops (log ++ (op ∷ []))) [
    | inl (well, d) ↦ inl (
      (q, well),
      rw (q, d) (ap (λ l. record { result = ok tt; log = l }) (append_assoc log (op ∷ []) ops)),
    )
    | inr found ↦
        let (before, bad, after, e, cut, well, fails, d) = found in
        inr (
          op ∷ before,
          bad,
          after,
          e,
          ap (λ l. op ∷ l) cut,
          (q, well),
          fails,
          rw (q, d)
              (ap (λ l. record { result = err e; log = l })
                (append_assoc log (op ∷ []) (before ++ (bad ∷ [])))),
        )
  ]
]

module _ (answer : Operation → Result {0} ErrorKind Unit) where
  carry_out-asked :
      {A : Type 0} (o : Option A) (op : A → Operation) (d : Done)
      → carry_out answer (asked o op) d ≡ perform_some answer o op d
  unfolding carry_out
  carry_out-asked none op d = refl
  carry_out-asked (some a) op d = refl

  carry_out-asked_if :
      (b : Bool) (op : Operation) (d : Done)
      → carry_out answer (asked_if b op) d ≡ perform_if answer b op d
  unfolding carry_out
  carry_out-asked_if true op d = refl
  carry_out-asked_if false op d = refl

  carry_out-asked_local :
      (o : Option IpAddr) (addr : SocketAddr) (d : Done)
      → carry_out answer (asked_local o addr) d ≡ bind_local answer o addr d
  unfolding carry_out
  carry_out-asked_local none addr d = refl
  carry_out-asked_local (some (ipv4 a b c e)) (v6 _ _ _ _) d = refl
  carry_out-asked_local (some (ipv6 s)) (v6 _ _ _ _) d = refl
  carry_out-asked_local (some (ipv4 a b c e)) (v4 _ _ _ _ _) d = refl
  carry_out-asked_local (some (ipv6 s)) (v4 _ _ _ _ _) d = refl

  carry_out_one : (op : Operation) (d : Done) → carry_out answer (op ∷ []) d ≡ perform answer op d
  unfolding carry_out
  carry_out_one op d = refl

  connect-carry_out :
      (addr : SocketAddr) (opts : ConnectOpts)
      → connect_server_with_opts answer addr opts
        ≡ carry_out answer (plan addr opts) (record { result = ok tt; log = [] })
  unfolding connect_server_with_opts plan
  connect-carry_out addr opts = simp (
    carry_out-append answer,
    carry_out-asked,
    carry_out-asked_if,
    carry_out-asked_local,
    carry_out_one,
  )

  -- The socket is opened, marked, bound to its device and to its address (this one only towards an
  -- IPv6 server), given its buffers, connected and given its last options, in this order, as far as
  -- the options ask for it: either all of it is done and goes well, or the first operation that fails
  -- is the last one done and its error the result.
  pub connect_server_with_opts-plan :
      (addr : SocketAddr) (opts : ConnectOpts)
      → (AllWell answer (plan addr opts)
          × (connect_server_with_opts answer addr opts
              ≡ record { result = ok tt; log = plan addr opts }))
        ⊎ ((before : List Operation) × (op : Operation) × (after : List Operation) × (e : ErrorKind)
            × (plan addr opts ≡ before ++ (op ∷ after))
            × AllWell answer before
            × (answer op ≡ err e)
            × (connect_server_with_opts answer addr opts
                ≡ record { result = err e; log = before ++ (op ∷ []) }))
  unfolding Ends
  connect_server_with_opts-plan addr opts =
      rw (connect-carry_out addr opts) (carry_out-Ends answer (plan addr opts) [])
