-- ===== src/Dns/Expiry.antt =====
-- When an entry of the cache is served.
use mathlib.Core.Path.{subst}
use roxy.Base.{ℕ, ◌+◌, ◌≡◌, refl, sym, Bool-cases, inl, inr, false, none, some, ltb, if◌then◌else◌}
use roxy.Dns.{Message, Request, Response, Entry, LruCache, from_entry, get, put}

-- What was just inserted is found.
abbrev pub FindsInserted : {L Query E : Type 0} → LruCache L Query E → Type 0
FindsInserted {L} {Query} {E} c =
    (q : Query) (e : E) (l : L) → (c.get_mut q (c.insert q e l)).0 ≡ some e

-- The entry of a response that was put at `now`.
abbrev pub entry_of : {Query Header Edns : Type 0} → ℕ → Response Query Header Edns → Entry Edns
entry_of expire_at resp = record {
  expire_at = expire_at;
  answers = resp.answers;
  name_servers = resp.name_servers;
  soa = resp.soa;
  additionals = resp.additionals;
  sig0 = resp.sig0;
  edns = resp.edns;
}

module _ {L Query Header Edns : Type 0} (m : Message Query Header Edns)
    (c : LruCache L Query (Entry Edns)) (finds : FindsInserted c) where
  -- A response put into the cache at `now`, where its query was not there yet, is not found by a
  -- request for the same query before `now + ttl`, and it is served from then on.
  pub get-put :
      (ttl now at : ℕ) (resp : Response Query Header Edns) (req : Request Query Header Edns) (l : L)
      → c.contains_key resp.query l ≡ false
      → req.query ≡ resp.query
      → (get m c at req (put m c ttl now resp l)).0 ≡ (
          if ltb at (now + ttl)
          then none
          else some (from_entry m c req (entry_of (now + ttl) resp)))
  unfolding get put
  get-put ttl now at resp req l absent same =
      let found =
        subst
          (λ q.
            (c.get_mut q (c.insert resp.query (entry_of (now + ttl) resp) l)).0
            ≡ some (entry_of (now + ttl) resp))
          (sym same) (finds resp.query (entry_of (now + ttl) resp) l) in
      elim (Bool-cases (ltb at (now + ttl))) [
        | inl early ↦ rw (absent, put, found, get, early) refl
        | inr late ↦ rw (absent, put, found, get, late) refl
      ]
