-- ===== src/Dns/Tests.antt =====
-- Requests on a cache of one entry.
use mathlib.Core.Option.{some-injective}
use mathlib.Core.Path.{subst}
use roxy.Base.{
  sym, ◌∙◌, leb, ◌&&◌, inr, Bool-cases, ℕ, ◌+◌, ◌≡◌, inl, refl, Bool, true, false, Option, none,
  some, List, [], ◌∷◌, length, ◌==◌, if◌then◌else◌, ok, arith,
}
use roxy.Base.Bytes.{Bytes, codes}
use roxy.Rule.{contain, split, join}
use roxy.Rule.Segments.{insert_all}
use roxy.Dns.{
  IpAddr, RData, Message, Entry, LruCache, Hijack, Handler, no_records, hijacked, hijacking, deny,
  get, put, handle, from_entry,
}
use roxy.Dns.Chain.{KeepsKeys, Free}
use roxy.Dns.Expiry.{FindsInserted, get-put}
use roxy.Dns.Rules.{Call, serve, hijack_decides, reject_decides}

-- A query is a letter, the name. As a key it is its lower case.
abbrev message : Message ℕ ℕ Unit
message = record { name = λ q. (q ∷ []) ∷ []; no_error = λ header. 0; num_labels = length }

abbrev lower : ℕ → ℕ
lower q = if leb 65 q && leb q 90 then q + 32 else q

abbrev equal : ℕ → ℕ → Bool
equal q k = lower q == lower k

abbrev Slot : Type 0
Slot = Option (ℕ × Entry Unit)

abbrev lookup : ℕ → Slot → Option (Entry Unit)
lookup q none = none
lookup q (some (k, e)) = if equal q k then some e else none

abbrev drop_key : ℕ → Slot → Slot
drop_key q none = none
drop_key q (some (k, e)) = if equal q k then none else some (k, e)

abbrev holds : ℕ → Slot → Bool
holds q none = false
holds q (some (k, e)) = equal q k

abbrev slot : LruCache Slot ℕ (Entry Unit)
slot = record {
  get_mut = λ q l. (lookup q l, l);
  remove = drop_key;
  contains_key = holds;
  insert = λ q e l. some (q, e);
}

drop_key-holds : (q k : ℕ) (l : Slot) → holds q (drop_key k l) ≡ true → holds q l ≡ true
drop_key-holds q k none h = h
drop_key-holds q k (some (i, e)) h = elim (Bool-cases (equal k i)) [
  | inl f ↦ (let bad : false ≡ true = rw f at h in cc)
  | inr f ↦ rw f at h
]

lookup-holds : (q : ℕ) (e : Entry Unit) (l : Slot) → lookup q l ≡ some e → holds q l ≡ true
lookup-holds q e none h = cc
lookup-holds q e (some (i, f)) h = elim (Bool-cases (equal q i)) [
  | inl g ↦ g
  | inr g ↦ (let bad : none ≡ some e = rw g at h in cc)
]

abbrev Same : ℕ → ℕ → Type 0
Same q k = equal q k ≡ true

equal_trans : (a b c : ℕ) → (a == b) ≡ true → (b == c) ≡ true → (a == c) ≡ true
equal_trans a b c h k = ground (arith, h, k)

equal_refl : (a : ℕ) → (a == a) ≡ true
equal_refl a = ground arith

slot-KeepsKeys : KeepsKeys slot Same
slot-KeepsKeys = record {
  same_refl = λ q. equal_refl (lower q);
  same_trans = λ q k i h g. equal_trans (lower q) (lower k) (lower i) h g;
  insert_key = λ q k e l h. inl h;
  remove_key = drop_key-holds;
  get_key = λ q k l h. h;
  found_key = lookup-holds;
}

slot-FindsInserted : FindsInserted slot
slot-FindsInserted q e l = rw (equal_refl (lower q)) refl

abbrev hijack : Hijack
hijack = record { trie = insert_all (codes "a" ∷ []); hijack = IpAddr.v4 (10 ∷ 0 ∷ 0 ∷ 1 ∷ []) }

abbrev denied : List Bytes
denied = insert_all (codes "b" ∷ [])

abbrev handler : Handler
handler = record { cache = some 60; hijacker = some hijack; reject = some denied }

abbrev call : ℕ → ℕ → Call ℕ ℕ Unit Unit
call now q = record {
  now = now;
  later = now + 1;
  req = record { header = 7; query = q };
  found = ok (record { name = []; ttl = 5; rdata = RData.a (1 ∷ 2 ∷ 3 ∷ 4 ∷ []) } ∷ []);
}

a_is_hijacked : hijacking message slot hijack (codes "a" ∷ []) ≡ some hijack.hijack
unfolding hijacking contain insert_all split join
a_is_hijacked = refl

b_is_denied :
    (hijacking message slot hijack (codes "b" ∷ []) ≡ none)
    × (deny message slot denied (codes "b" ∷ []) ≡ true)
unfolding hijacking deny contain insert_all split join
b_is_denied = (refl, refl)

-- The rules are about the letter that was asked for before, too.
a_is_ruled : ¬ Free message slot handler 97
a_is_ruled free = let bad = free.not_hijacked hijack refl in cc (sym a_is_hijacked ∙ bad)

hijack_decides_example :
    (l1 : Slot) × (handle message slot handler 20 21
        (call 20 97).req
        (call 20 97).found
        (serve message slot handler (call 3 99 ∷ call 4 97 ∷ call 9 98 ∷ []) none)
      ≡ (ok (hijacked message slot (call 20 97).req hijack.hijack), l1))
hijack_decides_example =
    hijack_decides message slot Same slot-KeepsKeys handler none
      (call 3 99 ∷ call 4 97 ∷ call 9 98 ∷ []) (call 20 97) (λ q. refl)
      ((λ e. absurd cc), ((λ e. a_is_ruled), ((λ e. absurd cc), tt))) hijack hijack.hijack refl
      a_is_hijacked

only_hijack :
    (j : Hijack) → handler.hijacker ≡ some j → hijacking message slot j (codes "b" ∷ []) ≡ none
only_hijack j e =
    subst (λ x. hijacking message slot x (codes "b" ∷ []) ≡ none) (some-injective _ _ e)
      b_is_denied.0

reject_decides_example :
    (l1 : Slot) × (handle message slot handler 20 21
        (call 20 98).req
        (call 20 98).found
        (serve message slot handler (call 3 99 ∷ call 9 97 ∷ []) none)
      ≡ (ok (no_records 7 98), l1))
reject_decides_example =
    reject_decides message slot Same slot-KeepsKeys handler none (call 3 99 ∷ call 9 97 ∷ [])
      (call 20 98) (λ q. refl) ((λ e. absurd cc), ((λ e. absurd cc), tt)) denied only_hijack refl
      b_is_denied.1

-- A request for the name in upper case escapes the rules, and is served for the hijacked name.
case_escapes :
    (handle message slot handler 80 81
      (call 80 97).req
      (call 80 97).found
      (serve message slot handler (call 3 65 ∷ []) none)).0
    ≡ ok (record (no_records 0 97) {
      answers = record { name = []; ttl = 5; rdata = RData.a (1 ∷ 2 ∷ 3 ∷ 4 ∷ []) } ∷ [];
    })
unfolding handle serve contain insert_all split join from_entry no_records
case_escapes = refl

get-put_example :
    (get message slot 30 (call 30 99).req (put message slot 60 10 (no_records 7 99) none)).0 ≡ none
unfolding no_records
get-put_example =
    get-put message slot slot-FindsInserted 60 10 30 (no_records 7 99) (call 30 99).req none refl
      refl
