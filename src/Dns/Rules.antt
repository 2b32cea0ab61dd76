-- ===== src/Dns/Rules.antt =====
-- The rules of hijack and reject decide, whatever was asked before.
use roxy.Base.{ℕ, ◌≡◌, true, false, none, some, List, [], ◌∷◌, Result, ok}
use roxy.Base.Bytes.{Bytes}
use roxy.Dns.{
  IpAddr, Record, Message, Request, Response, Entry, LruCache, Hijack, Handler, no_records,
  hijacking, deny, hijacked, uncached, handle,
}
use roxy.Dns.Chain.{
  KeepsKeys, Free, Clean, handle-Clean, handle-uncached, uncached-hijacked, uncached-denied,
}

-- A request, when the cache is read and when it is written for it, and what the upstream found.
pub record Call (Query Header Edns E : Type 0) : Type 0 where
  pub now : ℕ
  pub later : ℕ
  pub req : Request Query Header Edns
  pub found : Result E (List Record)

module _ {L Query Header Edns E : Type 0} (m : Message Query Header Edns)
    (c : LruCache L Query (Entry Edns)) (h : Handler) where
  -- The cache after a sequence of requests.
  unfoldable pub serve : List (Call Query Header Edns E) → L → L
  serve [] l = l
  serve (x ∷ xs) l = serve xs (handle m c h x.now x.later x.req x.found l).1

  -- Some rule is about each request that the cache takes for the same.
  abbrev pub NoneEscapes :
      (Query → Query → Type 0) → Query → List (Call Query Header Edns E) → Type 0
  NoneEscapes Same q [] = Unit
  NoneEscapes Same q (x ∷ xs) =
      (Same q x.req.query → ¬ Free m c h x.req.query) × NoneEscapes Same q xs

module _ {L Query Header Edns : Type 0} (m : Message Query Header Edns)
    (c : LruCache L Query (Entry Edns)) (Same : Query → Query → Type 0) (keys : KeepsKeys c Same)
    (h : Handler) where
  differs_closed : (q i k : Query) → Same i k → ¬ Same q k → ¬ Same q i
  differs_closed q i k e d there = d (keys.same_trans q i k there e)

  -- No key of the cache is the same query.
  abbrev Lacks : Query → L → Type 0
  Lacks q l = Clean m c Same keys h (λ k. ¬ Same q k) (differs_closed q) l

module _ {L Query Header Edns E : Type 0} (m : Message Query Header Edns)
    (c : LruCache L Query (Entry Edns)) (Same : Query → Query → Type 0) (keys : KeepsKeys c Same)
    (h : Handler) where
  serve-Lacks :
      (q : Query) (xs : List (Call Query Header Edns E)) (l : L)
      → NoneEscapes m c h Same q xs
      → Lacks m c Same keys h q l
      → Lacks m c Same keys h q (serve m c h xs l)
  unfolding serve
  serve-Lacks q [] l escapes clean = clean
  serve-Lacks q (x ∷ xs) l escapes clean =
      serve-Lacks q xs (handle m c h x.now x.later x.req x.found l).1 escapes.1 (
        handle-Clean m c Same keys h (λ k. ¬ Same q k) (differs_closed m c Same keys h q) x.now
          x.later x.req x.found l (λ free e. escapes.0 e free) clean)

  module _ (l : L) (xs : List (Call Query Header Edns E)) (x : Call Query Header Edns E)
      (empty : (q : Query) → c.contains_key q l ≡ false)
      (escapes : NoneEscapes m c h Same x.req.query xs) where
    -- The cache does not answer.
    served-uncached :
        (answer : L → Result E (Response Query Header Edns) × L)
        → ((l1 : L) → uncached m c h x.later x.req x.found l1 ≡ answer l1)
        → (l1 : L) × (handle m c h x.now x.later x.req x.found (serve m c h xs l) ≡ answer l1)
    served-uncached answer is =
        handle-uncached m c Same keys h (λ k. ¬ Same x.req.query k)
          (differs_closed m c Same keys h x.req.query) x.now x.later x.req x.found
          (serve m c h xs l) answer
          (serve-Lacks x.req.query xs l escapes (λ q k. let e = empty q in cc))
          (λ d. d (keys.same_refl x.req.query)) is

    -- After requests on an empty cache, where some rule is about each one that the cache takes for
    -- the same query, a request whose name the hijack rules contain is answered with the configured
    -- address, whatever the upstream says.
    pub hijack_decides :
        (j : Hijack) (to : IpAddr)
        → h.hijacker ≡ some j
        → hijacking m c j (m.name x.req.query) ≡ some to
        → (l1 : L) × (handle m c h x.now x.later x.req x.found (serve m c h xs l)
            ≡ (ok (hijacked m c x.req to), l1))
    hijack_decides j to e k =
        served-uncached (λ l1. (ok (hijacked m c x.req to), l1))
          (λ l1. uncached-hijacked m c h x.later x.req x.found l1 j to e k)

    -- After requests on an empty cache, where some rule is about each one that the cache takes for
    -- the same query, a request whose name the reject rules contain and that is not hijacked gets no
    -- records, whatever the upstream says.
    pub reject_decides :
        (trie : List Bytes)
        → ((j : Hijack) → h.hijacker ≡ some j → hijacking m c j (m.name x.req.query) ≡ none)
        → h.reject ≡ some trie
        → deny m c trie (m.name x.req.query) ≡ true
        → (l1 : L) × (handle m c h x.now x.later x.req x.found (serve m c h xs l)
            ≡ (ok (no_records x.req.header x.req.query), l1))
    reject_decides trie none_hijacks e k =
        served-uncached (λ l1. (ok (no_records x.req.header x.req.query), l1))
          (λ l1. uncached-denied m c h x.later x.req x.found l1 trie none_hijacks e k)
