-- ===== src/Pool/Reached.antt =====
-- What holds of the pool (src/lenovmail/providers/imap_pool.py, `ImapPool`) under every interleaving of
-- its coroutines.
use lenovmail.Prelude.{ℕ, ◌+◌, ◌≤◌, arith, length}
use lenovmail.Pool.{PoolState, IsReached, at_start, after_step}
use lenovmail.Pool.Counting.{times}
use lenovmail.Pool.Sound.{IsSound, new_pool-IsSound}
use lenovmail.Pool.Steps.{step-IsSound}

IsReached-IsSound : (n : ℕ) (s : PoolState) → IsReached n s → IsSound n s
IsReached-IsSound n _ at_start = new_pool-IsSound n
IsReached-IsSound n s (after_step r e h) = step-IsSound n _ (IsReached-IsSound n _ r) e s h

-- Whatever the order in which the coroutines of a pool proceed, fail and are cancelled, at most
-- `max_connections` of them probe, make or have a connection, at most so many connections are idle, and
-- no connection is lent twice, or lent while it is idle, probed or still being made.
pub connection_exclusive :
    (n : ℕ) (s : PoolState)
    → IsReached n s
    → (length s.lent + length s.probing + length s.preparing + s.connecting ≤ n)
      × (length s.idle ≤ n)
      × ((c : ℕ) → times c s.lent + times c s.idle + times c s.probing + times c s.preparing ≤ 1)
connection_exclusive n s r =
    let sound : _ = IsReached-IsSound n s r in
    (
      omega (arith, sound.permits_add),
      sound.idle_fits,
      λ c. omega (arith, sound.owned c, sound.opened_once c),
    )
