-- ===== src/Config/Holds.antt =====
-- What the parser of URLs gives: it does not starve, and its keys fit.
use roxy.Base.{
  ℕ, zero, suc, ◌+◌, ◌*◌, ◌≤◌, ◌<◌, ◌≡◌, refl, inl, inr, true, false, Bool-cases, Option, none,
  some, Option-cases, [], ◌∷◌, ◌++◌, length, length-append, take, ◌==◌, arith,
}
use roxy.Base.Bytes.{Bytes, codes, until, behind}
use roxy.Base.Digits.{decimal}
use roxy.Address.{Address}
use roxy.Address.Utf8.{is_utf8}
use roxy.Rule.{same}
use roxy.Crypto.Kind.{CipherKind, key_len, is_aead2022}
use roxy.Config.{
  F32, ServerConfig, Run, starved, panic, fail, done, ◌>>=◌, or_fail, or_panic, UrlParseError,
  Libraries, Url, key_from, make_derived_key, password_to_keys, new, utf8_or, credentials,
  legacy_body, configured, from_url, address_from, kind_from, colon, port_or,
}
use roxy.Config.Key.{digests, bytes_to_key-digests}

-- A run does not starve, and what it gives has the property.
abbrev pub Holds : {A : Type 0} → (A → Type 0) → Run A → Type 0
Holds P starved = true ≡ false
Holds P panic = Unit
Holds P (fail e) = Unit
Holds P (done a) = P a

module _ {A B : Type 0} where
  bind-Holds :
      (P : A → Type 0) (Q : B → Type 0) (r : Run A) (next : A → Run B)
      → Holds P r
      → ((a : A) → P a → Holds Q (next a))
      → Holds Q (r >>= next)
  bind-Holds P Q starved next h k = cc
  bind-Holds P Q panic next h k = tt
  bind-Holds P Q (fail e) next h k = tt
  bind-Holds P Q (done a) next h k = k a h

or_fail-Holds :
    {A : Type 0} (e : UrlParseError) (o : Option A) → Holds (λ a. o ≡ some a) (or_fail e o)
or_fail-Holds e none = tt
or_fail-Holds e (some a) = refl

or_panic-Holds : {A : Type 0} (o : Option A) → Holds (λ a. o ≡ some a) (or_panic o)
or_panic-Holds none = tt
or_panic-Holds (some a) = refl

utf8_or-Holds : (l : Libraries) (e : UrlParseError) (b : Bytes) → Holds (λ a. a ≡ b) (utf8_or l e b)
utf8_or-Holds l e b = elim (Bool-cases (is_utf8 b)) [ inl h ↦ rw h refl | inr h ↦ rw h tt ]

pub Holds-map :
    {A : Type 0} (P Q : A → Type 0) (r : Run A) → ((a : A) → P a → Q a) → Holds P r → Holds Q r
Holds-map P Q starved f h = h
Holds-map P Q panic f h = tt
Holds-map P Q (fail e) f h = tt
Holds-map P Q (done a) f h = f a h

-- The key has the length that the kind asks for.
abbrev pub KeyFits : (f : F32) → ServerConfig f → Type 0
KeyFits f c = (n : ℕ) × (key_len c.method ≡ some n) × (length c.enc_key ≡ n)

-- The libraries: digests have 16 bytes, base64 has four characters for three bytes, and in a URL of
-- the scheme `ss` a host that is base64 is not empty and stands as it is, behind `ss://`.
pub record AreLibraries (l : Libraries) (parse : Bytes → Option Url) : Type 0 where
  pub sixteen : (s : Bytes) → length (l.md5 s) ≡ 16
  pub shrinks : (t body : Bytes) → l.decode_url t ≡ some body → 4 * length body ≤ 3 * length t
  pub stands :
      (s host body : Bytes) (u : Url)
      → parse s ≡ some u
      → same u.scheme (codes "ss") ≡ true
      → u.host ≡ some host
      → l.decode_url host ≡ some body
      → (0 < length host) × (5 + length host ≤ length s)

module _ (l : Libraries) (f : F32) (parse : Bytes → Option Url) (law : AreLibraries l parse) where
  make_derived_key-Holds :
      (kind : CipherKind) (password : Bytes) (size : ℕ)
      → Holds (λ key. length key ≡ size) (make_derived_key l kind password size)
  unfolding make_derived_key
  make_derived_key-Holds kind password size = elim (Bool-cases (is_aead2022 kind)) [
    | inl e ↦
        rw (e, make_derived_key)
          (elim (Option-cases (l.decode_standard password)) [
            | inl gone ↦ rw (gone, make_derived_key) tt
            | inr (v, there) ↦
                rw (there, make_derived_key)
                  (elim (Bool-cases (length v == size)) [
                    | inl fits ↦ rw fits (ground (arith, fits))
                    | inr off ↦ rw off tt
                  ])
          ])
    | inr e ↦
        let (made, long) = bytes_to_key-digests l.md5 law.sixteen password size in
        let made' : key_from l.md5 password size size [] []
            ≡ some (take size (digests l.md5 password size [])) =
          made in
        rw (e, make_derived_key, made') long
  ]

  new-Holds :
      (addr : Address) (password : Bytes) (kind : CipherKind)
      → Holds (KeyFits f) (new l f addr password kind)
  unfolding new password_to_keys
  new-Holds addr password kind =
      bind-Holds (λ x. (n : ℕ) × (key_len kind ≡ some n) × (length x.1 ≡ n)) (KeyFits f)
        (password_to_keys l kind password) _
        (bind-Holds (λ n. key_len kind ≡ some n) _ (or_panic (key_len kind)) _
          (or_panic-Holds (key_len kind))
          λ n e.
            bind-Holds (λ key. length key ≡ n) _ (make_derived_key l kind password n) _
              (make_derived_key-Holds kind password n) λ key h. (n, e, h))
        (λ x h. h)

  credentials-Holds : (u : Url) → Holds (λ _. Unit) (credentials l u)
  unfolding credentials
  credentials-Holds u = by_password u.password
    where
      by_password :
          (o : Option Bytes)
          → Holds
              (λ _. Unit)
              (elim o as (λ _. Run (Bytes × Bytes)) [
                | some password ↦
                    (utf8_or l UrlParseError.invalid_auth_info (l.percent_decode u.username)
                      >>= λ m.
                          utf8_or l UrlParseError.invalid_auth_info (l.percent_decode password)
                          >>= λ q. done (m, q))
                | none ↦
                    (or_fail UrlParseError.invalid_user_info (l.decode_url u.username)
                      >>= λ decoded.
                          utf8_or l UrlParseError.invalid_auth_info decoded >>= λ account.
                          or_fail UrlParseError.invalid_user_info (behind colon account) >>= λ q.
                          done (until colon account, q))
              ])
      by_password (some password) =
          bind-Holds _ _ (utf8_or l UrlParseError.invalid_auth_info (l.percent_decode u.username)) _
            (utf8_or-Holds l _ _)
            λ m _.
              bind-Holds _ _ (utf8_or l UrlParseError.invalid_auth_info (l.percent_decode password))
                _ (utf8_or-Holds l _ _) λ q _. tt
      by_password none =
          bind-Holds _ _ (or_fail UrlParseError.invalid_user_info (l.decode_url u.username)) _
            (or_fail-Holds _ _)
            λ decoded _.
              bind-Holds _ _ (utf8_or l UrlParseError.invalid_auth_info decoded) _
                (utf8_or-Holds l _ _)
                λ account _.
                  bind-Holds _ _ (or_fail UrlParseError.invalid_user_info (behind colon account)) _
                    (or_fail-Holds _ _) λ q _. tt

  configured-Holds : (u : Url) → Holds (KeyFits f) (configured l f u)
  unfolding configured
  configured-Holds u =
      bind-Holds (λ _. Unit) (KeyFits f) (credentials l u) _ (credentials-Holds u)
        λ x _.
          bind-Holds _ (KeyFits f) (or_fail UrlParseError.missing_host u.host) _
            (or_fail-Holds _ u.host)
            λ host _.
              bind-Holds _ (KeyFits f)
                (or_fail UrlParseError.invalid_server_addr
                  (address_from l.parse_socket (host ++ (colon ∷ decimal (port_or l u.port)))))
                _ (or_fail-Holds _ _)
                λ addr _.
                  bind-Holds _ (KeyFits f) (or_panic (kind_from x.0)) _ (or_panic-Holds _) λ kind _.
                    bind-Holds (KeyFits f) (KeyFits f) (new l f addr x.1 kind) _
                      (new-Holds addr x.1 kind) λ c h. h

  legacy_body-Holds :
      (encoded : Bytes) (u : Url)
      → parse encoded ≡ some u
      → same u.scheme (codes "ss") ≡ true
      → Holds (λ body. 5 + length body < length encoded) (legacy_body l u)
  unfolding legacy_body
  legacy_body-Holds encoded u e ss =
      bind-Holds (λ host. u.host ≡ some host) _ (or_fail UrlParseError.missing_host u.host) _
        (or_fail-Holds _ _)
        λ host g.
          bind-Holds (λ body. l.decode_url host ≡ some body) _
            (or_fail UrlParseError.invalid_server_addr (l.decode_url host)) _ (or_fail-Holds _ _)
            λ decoded d. elim (Bool-cases (is_utf8 decoded)) [
              | inl h ↦
                  let there = law.stands encoded host decoded u e ss g d in
                  rw h (omega (arith, there.0, there.1, law.shrinks host decoded d))
              | inr h ↦ rw h tt
            ]

  pub from_url-Holds :
      (fuel : ℕ) (encoded : Bytes)
      → length encoded < fuel
      → Holds (KeyFits f) (from_url l f parse fuel encoded)
  unfolding from_url
  from_url-Holds zero encoded h = absurd (omega arith)
  from_url-Holds (suc fuel) encoded h =
      bind-Holds (λ u. parse encoded ≡ some u) (KeyFits f)
        (or_fail UrlParseError.parse_error (parse encoded)) _ (or_fail-Holds _ _)
        λ u e. elim (Bool-cases (same u.scheme (codes "ss"))) [
          | inr off ↦ rw (off, from_url) tt
          | inl ss ↦
              rw (ss, from_url)
                (elim (Bool-cases (length u.username == 0)) [
                  | inr named ↦ rw (named, from_url) (configured-Holds u)
                  | inl legacy ↦
                      rw (legacy, from_url)
                        (bind-Holds (λ body. 5 + length body < length encoded) (KeyFits f)
                          (legacy_body l u) _ (legacy_body-Holds encoded u e ss)
                          λ body less.
                            from_url-Holds fuel (codes "ss://" ++ body)
                              (omega (arith, less, h, length-append (codes "ss://") body)))
                ])
        ]
