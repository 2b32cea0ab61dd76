-- ===== src/Relay.antt =====
-- src/relay/thp/server.rs: what the relay does with one connection, once the sniffer is done. The
-- other tasks change the upstream while it waits. The sockets are not modelled: how an attempt went
-- is part of its `Turn`.
pub mod Safety
mod Tests
use roxy.Base.{ℕ, zero, suc, Bool, true, false, Option, none, some}
use roxy.Base.Options.{◌>>=◌}
use roxy.Base.Bytes.{Bytes}
use roxy.Socks5.{ErrorKind}
use roxy.Sniff.{Run, SniffError, starved, panic, fail, done}
use roxy.Upstream.Hash.{F64}
use roxy.Upstream.Service.{Upstream, pick, push_at}

-- How an attempt went: `ProxyStream::connect` fails, or `proxy` ends well or badly, or one of the two
-- panics, as the first packet does for a host of more than 255 bytes.
pub data Reply : Type 0 where
  refused : ErrorKind → Reply
  closed : Reply
  broken : ErrorKind → Reply
  panicked : Reply

-- One attempt: what the other tasks do ahead of it and while it lasts, and whether they replace the
-- peers in that time, so that nothing shared holds the picked server any more; and the clock at its
-- end.
pub record Turn (C : Type 0) : Type 0 where
  pub before : Upstream C → Upstream C
  pub reply : Reply
  pub during : Upstream C → Upstream C
  pub lost : Bool
  pub now : ℕ

-- What the task of the connection returns.
pub data Served : Type 0 where
  unsniffed : SniffError → Served
  served not_connected : Served

module _ {C : Type 0} where
  -- `report_failure` of the server picked as `k`, which may not be shared any more.
  unfoldable pub report : Turn C → ℕ → Upstream C → Option (Upstream C)
  unfolding push_at
  report t k u = elim t.lost [ true ↦ some u | false ↦ push_at k t.now 0 u ]

  module _ (f : F64) (suffix : Bytes → Option Bytes) (turns : ℕ → Turn C) where
    -- The attempts from number `i` on, `n` at most.
    unfoldable pub attempts : ℕ → ℕ → Bytes → Upstream C → Option (Served × Upstream C)
    unfolding report
    attempts zero i host u = some (not_connected, u)
    attempts (suc n) i host u = do
      k ← pick f suffix host ((turns i).before u)
      let after = (turns i).during ((turns i).before u)
      elim (turns i).reply [
        | refused e ↦ (report (turns i) k after >>= λ v. attempts n (suc i) host v)
        | closed ↦ some (served, after)
        | broken e ↦ (report (turns i) k after >>= λ v. some (served, v))
        | panicked ↦ none
      ]

    -- The task: `none` is a panic.
    unfoldable pub connection : Run (Bytes × ℕ) → Upstream C → Option (Served × Upstream C)
    unfolding attempts
    connection starved u = none
    connection panic u = none
    connection (fail e) u = some (unsniffed e, u)
    connection (done (host, port)) u = attempts 5 0 host u
