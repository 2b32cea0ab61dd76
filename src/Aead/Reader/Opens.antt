-- ===== src/Aead/Reader/Opens.antt =====
-- The steps of the reader on a full buffer that holds what a writer sealed.
use roxy.Base.{
  ℕ, suc, ◌+◌, ◌≤◌, ◌≡◌, refl, sym, ap, ◌∙◌, true, false, some, [], ◌++◌, append-nil, length, take,
  drop, ltb, arith, take-length, take_all, drop_all,
}
use roxy.Base.Bytes.{Bytes, be16, from_be16-be16}
use roxy.Crypto.{Primitives, IsAead, Cipher, decrypt, increase_nonce}
use roxy.Crypto
use roxy.Crypto.Seal.{sealed, tag_of, decrypt-sealed, length-sealed}
use roxy.Aead.Frames.{max_packet_size, ready}
use roxy.Aead.Reader.{World, with_reader, opened_in, length_of, take_salt, take_length, take_data}

length_of-be16 :
    (n : ℕ) (rest : Bytes) → n ≤ max_packet_size → length_of true (be16 n ++ rest) ≡ ready n
unfolding length_of
length_of-be16 n rest le =
    let e = from_be16-be16 n (omega arith) in
    let fits : ltb max_packet_size n ≡ false = ground arith in rw (e, length_of, fits) refl

module _ (p : Primitives) (a : IsAead p) (w : World) (c : Cipher) where
  pub take_salt-eq :
      (key salt : Bytes) (size : ℕ)
      → size ≡ length salt
      → w.reader.buffer ≡ salt
      → Crypto.new p w.reader.kind key salt ≡ some c
      → take_salt p key size size w
        ≡ (ready tt, with_reader w (record w.reader { salt = some salt; cipher = some c }))
  unfolding take_salt
  take_salt-eq key salt size l b n =
      let not_less : ltb size size ≡ false = ground arith in
      let whole : take size w.reader.buffer ≡ salt =
        ap (take size) b ∙ take_all size salt (omega (arith, l)) in
      rw (not_less, take_salt, whole, n) (rw whole refl)

  pub take_length-eq :
      (size n : ℕ) (d : Bytes)
      → size ≡ 18
      → w.reader.cipher ≡ some c
      → w.reader.buffer ≡ sealed p c (be16 (length d))
      → length d ≤ max_packet_size
      → take_length p size (suc n) w ≡ (
        ready (some (length d)),
        opened_in w (be16 (length d) ++ tag_of p c (be16 (length d))) size (increase_nonce c),
      )
  unfolding take_length
  take_length-eq size n d s e b le =
      let len = length-sealed p a c (be16 (length d)) in
      let whole : take size w.reader.buffer ≡ sealed p c (be16 (length d)) =
        ap (take size) b ∙ take_all size (sealed p c (be16 (length d))) (omega (arith, len, s)) in
      rw
        (
          e,
          take_length,
          whole,
          decrypt-sealed p a c (be16 (length d)),
          length_of-be16 (length d) (tag_of p c (be16 (length d))) le,
        )
        refl

  pub take_data-eq :
      (size n : ℕ) (d : Bytes)
      → length d ≡ size
      → w.reader.cipher ≡ some c
      → w.reader.buffer ≡ sealed p c d
      → take_data p size (size + 16) (suc n) w ≡ (
        ready tt,
        with_reader w (record w.reader { cipher = some (increase_nonce c); buffer = d }),
      )
  unfolding take_data
  take_data-eq size n d l e b =
      let len = length-sealed p a c d in
      let whole : take (size + 16) w.reader.buffer ≡ sealed p c d =
        ap (take (size + 16)) b ∙ take_all (size + 16) (sealed p c d) (omega (arith, len, l)) in
      let none_left : drop (size + 16) w.reader.buffer ≡ [] =
        ap (drop (size + 16)) b ∙ drop_all (size + 16) (sealed p c d) (omega (arith, len, l)) in
      let cut : take size ((d ++ tag_of p c d) ++ []) ≡ d =
        ap (take size) (append-nil (d ++ tag_of p c d))
        ∙ take-length d (tag_of p c d) size (sym l) in
      rw (e, take_data, whole, decrypt-sealed p a c d, none_left, cut) refl
