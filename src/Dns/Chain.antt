-- ===== src/Dns/Chain.antt =====
-- Which handler answers, in a cache that other requests have filled.
use mathlib.Core.Option.{some-injective}
use mathlib.Core.Path.{subst}
use roxy.Base.{
  ℕ, ◌≡◌, ◌⊎◌, inl, inr, refl, sym, ◌∙◌, true, false, Bool-cases, Option, none, some, Option-cases,
  List, ltb, Result, ok, err,
}
use roxy.Base.Bytes.{Bytes}
use roxy.Dns.{
  IpAddr, Record, Message, Request, Response, Entry, LruCache, Hijack, Handler, no_records, get,
  put, hijacking, deny, hijacked, resolve, resolved_to, from_upstream, unhijacked, uncached, handle,
}

-- What the crates give, where `Same` is the equality of `Query`, by which the map finds its keys:
-- it does not tell upper case from lower case in a name. Only `insert` adds a key, its own, and what is
-- found is there.
pub record KeepsKeys {L Query E : Type 0} (c : LruCache L Query E) (Same : Query → Query → Type 0)
    : Type 0 where
  pub same_refl : (q : Query) → Same q q
  pub same_trans : (q k i : Query) → Same q k → Same k i → Same q i
  pub insert_key :
      (q k : Query) (e : E) (l : L)
      → c.contains_key q (c.insert k e l) ≡ true
      → Same q k ⊎ (c.contains_key q l ≡ true)
  pub remove_key :
      (q k : Query) (l : L) → c.contains_key q (c.remove k l) ≡ true → c.contains_key q l ≡ true
  pub get_key :
      (q k : Query) (l : L) → c.contains_key q (c.get_mut k l).1 ≡ true → c.contains_key q l ≡ true
  pub found_key :
      (q : Query) (e : E) (l : L) → (c.get_mut q l).0 ≡ some e → c.contains_key q l ≡ true

-- No rule is about the query.
pub record Free {L Query Header Edns : Type 0} (m : Message Query Header Edns)
    (c : LruCache L Query (Entry Edns)) (h : Handler) (q : Query) : Type 0 where
  pub not_hijacked : (j : Hijack) → h.hijacker ≡ some j → hijacking m c j (m.name q) ≡ none
  pub not_denied : (trie : List Bytes) → h.reject ≡ some trie → deny m c trie (m.name q) ≡ false

module _ {L Query Header Edns : Type 0} (m : Message Query Header Edns)
    (c : LruCache L Query (Entry Edns)) (Same : Query → Query → Type 0) (keys : KeepsKeys c Same)
    (h : Handler) (P : Query → Type 0) (closed : (q k : Query) → Same q k → P k → P q) where
  -- Every query of the cache satisfies `P`.
  abbrev pub Clean : L → Type 0
  Clean l = (q : Query) → c.contains_key q l ≡ true → P q

  put-Clean :
      (ttl now : ℕ) (resp : Response Query Header Edns) (l : L)
      → P resp.query
      → Clean l
      → Clean (put m c ttl now resp l)
  unfolding put
  put-Clean ttl now resp l free clean = elim (Bool-cases (c.contains_key resp.query l)) [
    | inl there ↦ rw (there, put) clean
    | inr absent ↦
        rw (absent, put)
          (λ q k. elim (keys.insert_key q resp.query _ l k) [
            | inl e ↦ closed q resp.query e free
            | inr old ↦ clean q old
          ])
  ]

  from_upstream-Clean :
      {E : Type 0} (cache : Option ℕ) (now : ℕ) (req : Request Query Header Edns)
      (found : Result E (List Record)) (l : L)
      → P req.query
      → Clean l
      → Clean (from_upstream m c cache now (resolve m c req found) l).1
  unfolding from_upstream no_records
  from_upstream-Clean none now req (err e) l free clean = clean
  from_upstream-Clean none now req (ok records) l free clean = clean
  from_upstream-Clean (some ttl) now req (err e) l free clean = clean
  from_upstream-Clean (some ttl) now req (ok records) l free clean =
      put-Clean ttl now (resolved_to m c req records) l free clean

  unhijacked-Clean :
      {E : Type 0} (now : ℕ) (req : Request Query Header Edns) (found : Result E (List Record))
      (l : L)
      → ((j : Hijack) → h.hijacker ≡ some j → hijacking m c j (m.name req.query) ≡ none)
      → (Free m c h req.query → P req.query)
      → Clean l
      → Clean (unhijacked m c h now req found l).1
  unfolding unhijacked
  unhijacked-Clean now req found l none_hijacks allowed clean = elim (Option-cases h.reject) [
    | inl e ↦
        rw (e, unhijacked)
          (from_upstream-Clean h.cache now req found l
            (allowed (record { not_hijacked = none_hijacks; not_denied = λ t k. cc })) clean)
    | inr (trie, e) ↦ elim (Bool-cases (deny m c trie (m.name req.query))) [
      | inl denied ↦ rw (e, unhijacked, denied) clean
      | inr passed ↦
          rw (e, unhijacked, passed)
            (from_upstream-Clean h.cache now req found l
              (allowed (record {
                not_hijacked = none_hijacks;
                not_denied = λ t k.
                    subst (λ x. deny m c x (m.name req.query) ≡ false)
                      (some-injective _ _ (sym e ∙ k)) passed;
              }))
              clean)
    ]
  ]

  uncached-Clean :
      {E : Type 0} (now : ℕ) (req : Request Query Header Edns) (found : Result E (List Record))
      (l : L)
      → (Free m c h req.query → P req.query)
      → Clean l
      → Clean (uncached m c h now req found l).1
  unfolding uncached
  uncached-Clean now req found l allowed clean = elim (Option-cases h.hijacker) [
    | inl e ↦ rw (e, uncached) (unhijacked-Clean now req found l (λ j k. cc) allowed clean)
    | inr (j, e) ↦ elim (Option-cases (hijacking m c j (m.name req.query))) [
      | inr (to, k) ↦ rw (e, uncached, k) clean
      | inl k ↦
          rw (e, uncached, k)
            (unhijacked-Clean now req found l
              (λ i same.
                subst (λ x. hijacking m c x (m.name req.query) ≡ none)
                  (some-injective _ _ (sym e ∙ same)) k)
              allowed clean)
    ]
  ]

  get-Clean :
      (now : ℕ) (req : Request Query Header Edns) (l : L) → Clean l → Clean (get m c now req l).1
  unfolding get
  get-Clean now req l clean = elim (Option-cases (c.get_mut req.query l).0) [
    | inl e ↦ rw (e, get) (λ q k. clean q (keys.get_key q req.query l k))
    | inr (entry, e) ↦ elim (Bool-cases (ltb now entry.expire_at)) [
      | inl early ↦
          rw (e, get, early)
            (λ q k. clean q (keys.get_key q req.query l (keys.remove_key q req.query _ k)))
      | inr late ↦ rw (e, get, late) (λ q k. clean q (keys.get_key q req.query l k))
    ]
  ]

  pub handle-Clean :
      {E : Type 0} (now later : ℕ) (req : Request Query Header Edns)
      (found : Result E (List Record)) (l : L)
      → (Free m c h req.query → P req.query)
      → Clean l
      → Clean (handle m c h now later req found l).1
  unfolding handle
  handle-Clean now later req found l allowed clean = elim (Option-cases h.cache) [
    | inl e ↦ rw (e, handle) (uncached-Clean later req found l allowed clean)
    | inr (ttl, e) ↦ elim (Option-cases (get m c now req l).0) [
      | inl k ↦
          rw (e, handle, k) (uncached-Clean later req found _ allowed (get-Clean now req l clean))
      | inr (resp, k) ↦ rw (e, handle, k) (get-Clean now req l clean)
    ]
  ]

  -- A query that does not satisfy `P` is not found in a clean cache.
  get-missing :
      (now : ℕ) (req : Request Query Header Edns) (l : L)
      → Clean l
      → ¬ P req.query
      → (get m c now req l).0 ≡ none
  unfolding get
  get-missing now req l clean ruled = elim (Option-cases (c.get_mut req.query l).0) [
    | inl e ↦ rw (e, get) refl
    | inr (entry, e) ↦ absurd (ruled (clean req.query (keys.found_key req.query entry l e)))
  ]

  pub handle-uncached :
      {E : Type 0} (now later : ℕ) (req : Request Query Header Edns)
      (found : Result E (List Record)) (l : L)
      (answer : L → Result E (Response Query Header Edns) × L)
      → Clean l
      → ¬ P req.query
      → ((l1 : L) → uncached m c h later req found l1 ≡ answer l1)
      → (l1 : L) × (handle m c h now later req found l ≡ answer l1)
  unfolding handle
  handle-uncached now later req found l answer clean ruled is = elim (Option-cases h.cache) [
    | inl e ↦ (l, rw (e, handle) (is l))
    | inr (ttl, e) ↦
        ((get m c now req l).1, rw (e, handle, get-missing now req l clean ruled) (is _))
  ]

module _ {L Query Header Edns : Type 0} (m : Message Query Header Edns)
    (c : LruCache L Query (Entry Edns)) (h : Handler) where
  pub uncached-hijacked :
      {E : Type 0} (later : ℕ) (req : Request Query Header Edns) (found : Result E (List Record))
      (l : L) (j : Hijack) (to : IpAddr)
      → h.hijacker ≡ some j
      → hijacking m c j (m.name req.query) ≡ some to
      → uncached m c h later req found l ≡ (ok (hijacked m c req to), l)
  unfolding uncached
  uncached-hijacked later req found l j to e k = rw (e, uncached, k) refl

  pub uncached-denied :
      {E : Type 0} (later : ℕ) (req : Request Query Header Edns) (found : Result E (List Record))
      (l : L) (trie : List Bytes)
      → ((j : Hijack) → h.hijacker ≡ some j → hijacking m c j (m.name req.query) ≡ none)
      → h.reject ≡ some trie
      → deny m c trie (m.name req.query) ≡ true
      → uncached m c h later req found l ≡ (ok (no_records req.header req.query), l)
  unfolding uncached unhijacked
  uncached-denied later req found l trie none_hijacks e k = elim (Option-cases h.hijacker) [
    | inl o ↦ rw (o, uncached, e, unhijacked, k) refl
    | inr (j, o) ↦ rw (o, uncached, none_hijacks j o, e, unhijacked, k) refl
  ]
