-- ===== src/Dns.antt =====
-- src/dns/handle: the cache and the chain of handlers of a request. An instant is a number, a clock
-- reading and the resolver's answer are arguments, and so is the map of the crate `lru_cache`. The rules
-- are those of the set.
pub mod Chain
pub mod Rules
pub mod Expiry
mod Tests
use roxy.Base.{
  ℕ, ◌+◌, ◌*◌, Bool, true, false, Option, none, some, List, [], ◌∷◌, ltb, if◌then◌else◌, Result, ok,
  err,
}
use roxy.Base.Bytes.{Bytes}
use roxy.Rule.{contain}

-- `IpAddr` and its record data.
pub data IpAddr : Type 0 where
  v4 v6 : Bytes → IpAddr

pub data RData : Type 0 where
  a aaaa : Bytes → RData

-- `Record::from_rdata(name, ttl, rdata)`, or a record of the resolver.
pub record Record : Type 0 where
  pub name : List Bytes
  pub ttl : ℕ
  pub rdata : RData

-- A query and a header as the crate has them; the response code is the only part of a header that is
-- set here.
pub record Message (Query Header Edns : Type 0) : Type 0 where
  pub name : Query → List Bytes
  pub no_error : Header → Header
  pub num_labels : List Bytes → ℕ

module _ (Query Header Edns : Type 0) where
  pub record Request : Type 0 where
    pub header : Header
    pub query : Query

  pub record Response : Type 0 where
    pub header : Header
    pub query : Query
    pub answers : List Record
    pub name_servers : List Record
    pub soa : List Record
    pub additionals : List Record
    pub sig0 : List Record
    pub edns : Option Edns

-- What the cache keeps of a response.
pub record Entry (Edns : Type 0) : Type 0 where
  pub expire_at : ℕ
  pub answers : List Record
  pub name_servers : List Record
  pub soa : List Record
  pub additionals : List Record
  pub sig0 : List Record
  pub edns : Option Edns

-- `LruCache`; `get_mut` also marks the entry as used.
pub record LruCache (L Query E : Type 0) : Type 0 where
  pub get_mut : Query → L → Option E × L
  pub remove : Query → L → L
  pub contains_key : Query → L → Bool
  pub insert : Query → E → L → L

pub record Hijack : Type 0 where
  pub trie : List Bytes
  pub hijack : IpAddr

-- The cache is there if it has a `ttl`; its map is passed beside the handler.
pub record Handler : Type 0 where
  pub cache : Option ℕ
  pub hijacker : Option Hijack
  pub reject : Option (List Bytes)

module _ {Query Header Edns : Type 0} where
  -- `Response::no_records` and `Response::from_request`
  unfoldable pub no_records : Header → Query → Response Query Header Edns
  no_records header query = record {
    header = header;
    query = query;
    answers = [];
    name_servers = [];
    soa = [];
    additionals = [];
    sig0 = [];
    edns = none;
  }

  abbrev pub from_request : Request Query Header Edns → Response Query Header Edns
  from_request req = no_records req.header req.query

abbrev pub rdata_of : IpAddr → RData
rdata_of (v4 addr) = a addr
rdata_of (v6 addr) = aaaa addr

module _ {L Query Header Edns : Type 0} (m : Message Query Header Edns)
    (c : LruCache L Query (Entry Edns)) where
  unfoldable pub from_entry : Request Query Header Edns → Entry Edns → Response Query Header Edns
  from_entry req e = record {
    header = m.no_error req.header;
    query = req.query;
    answers = e.answers;
    name_servers = e.name_servers;
    soa = e.soa;
    additionals = e.additionals;
    sig0 = e.sig0;
    edns = e.edns;
  }

  -- `Cache::get`
  unfoldable pub get : ℕ → Request Query Header Edns → L → Option (Response Query Header Edns) × L
  get now req lru =
      let (found, lru1) = c.get_mut req.query lru in
      elim found [
        | none ↦ (none, lru1)
        | some e ↦
            if ltb now e.expire_at
            then (none, c.remove req.query lru1)
            else (some (from_entry req e), lru1)
      ]

  -- `Cache::put`
  unfoldable pub put : ℕ → ℕ → Response Query Header Edns → L → L
  put ttl now resp lru =
      if c.contains_key resp.query lru
      then lru
      else c.insert resp.query
          (record {
            expire_at = now + ttl;
            answers = resp.answers;
            name_servers = resp.name_servers;
            soa = resp.soa;
            additionals = resp.additionals;
            sig0 = resp.sig0;
            edns = resp.edns;
          })
          lru

  -- `Hijack::hijacking` and `Reject::deny`
  unfoldable pub hijacking : Hijack → List Bytes → Option IpAddr
  hijacking h name = if contain m.num_labels name h.trie then some h.hijack else none

  unfoldable pub deny : List Bytes → List Bytes → Bool
  deny trie name = contain m.num_labels name trie

  unfoldable pub hijacked : Request Query Header Edns → IpAddr → Response Query Header Edns
  hijacked req to = record (from_request req) {
    answers = record { name = m.name req.query; ttl = 60 * 60; rdata = rdata_of to } ∷ [];
  }

  abbrev pub resolved_to : Request Query Header Edns → List Record → Response Query Header Edns
  resolved_to req records = record (from_request req) { answers = records }

  -- `Upstream::resolve`, given what `lookup_ip` found.
  abbrev pub resolve :
      {E : Type 0}
      → Request Query Header Edns
      → Result E (List Record)
      → Result E (Response Query Header Edns)
  resolve req (err e) = err e
  resolve req (ok records) = ok (resolved_to req records)

  -- The end of `handle`: what the upstream answers is put into the cache, if there is one.
  unfoldable pub from_upstream :
      {E : Type 0}
      → Option ℕ
      → ℕ
      → Result E (Response Query Header Edns)
      → L
      → Result E (Response Query Header Edns) × L
  unfolding put
  from_upstream (some ttl) now (ok resp) lru = (ok resp, put ttl now resp lru)
  from_upstream _ now result lru = (result, lru)

  -- `Handler::handle` behind the hijacker, and behind the cache.
  unfoldable pub unhijacked :
      {E : Type 0}
      → Handler
      → ℕ
      → Request Query Header Edns
      → Result E (List Record)
      → L
      → Result E (Response Query Header Edns) × L
  unfolding deny from_upstream
  unhijacked h now req found lru = elim h.reject [
    | none ↦ from_upstream h.cache now (resolve req found) lru
    | some trie ↦
        if deny trie (m.name req.query)
        then (ok (no_records req.header req.query), lru)
        else from_upstream h.cache now (resolve req found) lru
  ]

  unfoldable pub uncached :
      {E : Type 0}
      → Handler
      → ℕ
      → Request Query Header Edns
      → Result E (List Record)
      → L
      → Result E (Response Query Header Edns) × L
  unfolding hijacking hijacked unhijacked
  uncached h now req found lru = elim h.hijacker [
    | none ↦ unhijacked h now req found lru
    | some hijacker ↦ elim (hijacking hijacker (m.name req.query)) [
      | none ↦ unhijacked h now req found lru
      | some to ↦ (ok (hijacked req to), lru)
    ]
  ]

  -- `Handler::handle`: the cache is read at `now`, and written, if it is, at `later`.
  unfoldable pub handle :
      {E : Type 0}
      → Handler
      → ℕ
      → ℕ
      → Request Query Header Edns
      → Result E (List Record)
      → L
      → Result E (Response Query Header Edns) × L
  unfolding get uncached
  handle h now later req found lru = elim h.cache [
    | none ↦ uncached h later req found lru
    | some ttl ↦
        let (cached, lru1) = get now req lru in
        elim cached [ some resp ↦ (ok resp, lru1) | none ↦ uncached h later req found lru1 ]
  ]
