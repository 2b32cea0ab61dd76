-- ===== src/Relay/Tests.antt =====
-- A connection whose first two attempts are refused, and one that is refused every time.
use roxy.Base.{ℕ, zero, suc, ◌+◌, ◌<◌, ◌≡◌, refl, true, false, none, some, arith, ◌⊎◌}
use roxy.Base.Bytes.{codes}
use roxy.Socks5.{ErrorKind}
use roxy.Sniff.{done}
use roxy.Upstream.Peers.{best}
use roxy.Upstream.Server.{alive}
use roxy.Upstream.Peers.Check.{IsReady}
use roxy.Upstream.Service.{pick, Upstream, LoadBalanceType, Reach, here}
use roxy.Upstream.Tests.{integers, integers-IsIeee, no_suffix, two, two-HasLatencies}
use roxy.Relay.{attempts, panicked, Reply, refused, closed, Turn, not_connected, connection}
use roxy.Relay.Safety.{is_refused, after_reply, IsFair, connection_serves}

abbrev reply_at : ℕ → Reply
reply_at zero = refused ErrorKind.timed_out
reply_at (suc zero) = refused ErrorKind.timed_out
reply_at (suc (suc n)) = closed

abbrev turns : ℕ → Turn ℕ
turns i = record { before = λ u. u; reply = reply_at i; during = λ u. u; lost = false; now = i }

turns-IsFair : (i : ℕ) → IsFair (turns i)
turns-IsFair i = record {
  before_steps = λ u. here;
  during_steps = λ u. here;
  before_few = λ u h. h;
  during_few = λ u h. h;
  kept = λ u h. refl;
}

abbrev up : Upstream ℕ
up = record { peers = two; lb_type = LoadBalanceType.best }

two-IsReady : IsReady two
two-IsReady = record { nonempty = omega arith; results = two-HasLatencies; inside = omega arith }

connection_serves_example :
    (v : Upstream ℕ) × Reach up v
    × (((connection integers no_suffix turns (done (codes "a.io", 80)) up ≡ some (not_connected, v))
          × ((j : ℕ) → j < 5 → is_refused (turns (0 + j)).reply ≡ true))
        ⊎ ((j : ℕ) × (j < 5)
            × (connection integers no_suffix turns (done (codes "a.io", 80)) up
                ≡ after_reply (turns j).reply v)
            × (is_refused (turns j).reply ≡ false)
            × ((m : ℕ) → m < j → is_refused (turns (0 + m)).reply ≡ true)))
connection_serves_example =
    connection_serves integers integers-IsIeee no_suffix (codes "a.io") turns turns-IsFair 80 up
      two-IsReady (omega arith)

-- An attempt that panics ends the task.
abbrev panics : ℕ → Turn ℕ
panics i = record (turns i) { reply = panicked }

panics_end : connection integers no_suffix panics (done (codes "a.io", 80)) up ≡ none
unfolding connection attempts pick best alive
panics_end = refl
