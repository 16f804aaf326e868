-- ===== src/Pool.antt =====
-- The pool of IMAP connections of an account (src/lenovmail/providers/imap_pool.py, `ImapPool`). Its
-- coroutines interleave at their awaits, and at each of them one can be cancelled. A connection is a
-- number. The connections that exist are listed, because a socket stays open until its connection is
-- closed. `_connect_sync` runs in a thread, which goes on when its coroutine is cancelled. A logout
-- counts from its start.
pub mod Counting
pub mod Sound
pub mod Dropped
pub mod Steps
pub mod Reached
use lenovmail.Prelude.{
  ℕ, ◌+◌, ◌-◌, ◌≡◌, Bool, true, false, not, ◌&&◌, Option, none, some, List, [], ◌∷◌, ltb, ◌==◌,
  if◌then◌else◌, length, elem,
}
use lenovmail.Table.{delete_where}

pub record PoolState : Type 0 where
  pub max_connections : ℕ
  -- `_sem`
  pub permits : ℕ
  -- `_idle`, the last one first
  pub idle : List ℕ
  -- `_closed`
  pub closed : Bool
  -- The coroutines that are about to look for an idle connection, those that found none and wait for
  -- a login, and the logins whose coroutine was cancelled.
  pub entering : ℕ
  pub connecting : ℕ
  pub abandoned : ℕ
  -- The connections that `_new_connection` has and has not returned yet.
  pub preparing : List ℕ
  -- The connections that are probed, and those that a caller has.
  pub probing : List ℕ
  pub lent : List ℕ
  -- Those that nothing refers to any more, and yet nobody closed.
  pub dropped : List ℕ
  pub opened : List ℕ
  pub next_id : ℕ

unfoldable pub new_pool : ℕ → PoolState
new_pool max_connections = record {
  max_connections = max_connections;
  permits = max_connections;
  idle = [];
  closed = false;
  entering = 0;
  connecting = 0;
  abandoned = 0;
  preparing = [];
  probing = [];
  lent = [];
  dropped = [];
  opened = [];
  next_id = 0;
}

unfoldable pub remove : ℕ → List ℕ → List ℕ
remove c [] = []
remove c (d ∷ ds) = if d == c then ds else d ∷ remove c ds

pub data Event : Type 0 where
  -- `connection` gets a permit; `_acquire` looks at the idle connections.
  enter look : Event
  -- It is cancelled before it has a connection.
  gave_up : Event
  -- The login succeeds or fails, or its coroutine is cancelled and the thread ends later.
  connected connect_failed connect_cancelled abandoned_connected abandoned_failed : Event
  -- After the login, `_new_connection` asks for the capabilities, enables CONDSTORE and reports what it
  -- found; it returns, or is cancelled at one of these awaits.
  prepared prepare_cancelled : ℕ → Event
  -- The NOOP of the probe is answered, fails in one of the ways that `_acquire` expects, or raises
  -- something else, such as a cancellation.
  probe_answered probe_failed probe_raised : ℕ → Event
  -- The caller's block ends, or raises.
  body_ended body_raised : ℕ → Event
  -- After the block, `_release` is cancelled while it waits for the lock.
  release_cancelled : ℕ → Event
  close_pool : Event

-- `async with self._sem`
unfoldable pub enter_pool : PoolState → Option PoolState
enter_pool s =
    if s.permits == 0
    then none
    else some (record s { permits = s.permits - 1; entering = s.entering + 1 })

abbrev popped : PoolState → List ℕ → PoolState
popped s [] = record s { entering = s.entering - 1; connecting = s.connecting + 1 }
popped s (c ∷ cs) = record s { entering = s.entering - 1; idle = cs; probing = c ∷ s.probing }

-- `self._idle.pop() if self._idle else None`
unfoldable pub look_up : PoolState → Option PoolState
look_up s = if s.entering == 0 then none else some (popped s s.idle)

unfoldable pub give_up : PoolState → Option PoolState
give_up s =
    if s.entering == 0
    then none
    else some (record s { entering = s.entering - 1; permits = s.permits + 1 })

-- `_connect_sync` returns a connection to `_new_connection`.
unfoldable pub connect : PoolState → Option PoolState
connect s =
    if s.connecting == 0
    then none
    else some (record s {
      connecting = s.connecting - 1;
      preparing = s.next_id ∷ s.preparing;
      opened = s.next_id ∷ s.opened;
      next_id = s.next_id + 1;
    })

-- `_connect_sync` raises; it has shut the socket down.
unfoldable pub fail_connect : PoolState → Option PoolState
fail_connect s =
    if s.connecting == 0
    then none
    else some (record s { connecting = s.connecting - 1; permits = s.permits + 1 })

unfoldable pub cancel_connect : PoolState → Option PoolState
cancel_connect s =
    if s.connecting == 0
    then none
    else some (record s {
      connecting = s.connecting - 1;
      abandoned = s.abandoned + 1;
      permits = s.permits + 1;
    })

-- A thread without a coroutine ends: what it opened is nobody's.
unfoldable pub connect_abandoned : PoolState → Option PoolState
connect_abandoned s =
    if s.abandoned == 0
    then none
    else some (record s {
      abandoned = s.abandoned - 1;
      dropped = s.next_id ∷ s.dropped;
      opened = s.next_id ∷ s.opened;
      next_id = s.next_id + 1;
    })

unfoldable pub fail_abandoned : PoolState → Option PoolState
fail_abandoned s =
    if s.abandoned == 0 then none else some (record s { abandoned = s.abandoned - 1 })

-- `_new_connection` returns its connection, or is cancelled with it.
unfoldable pub prepare : ℕ → PoolState → PoolState
unfolding remove
prepare c s = record s { preparing = remove c s.preparing; lent = c ∷ s.lent }

unfoldable pub drop_prepared : ℕ → PoolState → PoolState
unfolding remove
drop_prepared c s = record s {
  preparing = remove c s.preparing;
  dropped = c ∷ s.dropped;
  permits = s.permits + 1;
}

-- What becomes of a connection that is probed.
unfoldable pub lend : ℕ → PoolState → PoolState
unfolding remove
lend c s = record s { probing = remove c s.probing; lent = c ∷ s.lent }

unfoldable pub retry : ℕ → PoolState → PoolState
unfolding remove
retry c s = record s {
  probing = remove c s.probing;
  opened = remove c s.opened;
  entering = s.entering + 1;
}

unfoldable pub drop_probed : ℕ → PoolState → PoolState
unfolding remove
drop_probed c s = record s {
  probing = remove c s.probing;
  dropped = c ∷ s.dropped;
  permits = s.permits + 1;
}

-- `_release`, and the end of `connection`
unfoldable pub release : ℕ → PoolState → PoolState
unfolding remove
release c s =
    if not s.closed && ltb (length s.idle) s.max_connections
    then record s { lent = remove c s.lent; idle = c ∷ s.idle; permits = s.permits + 1 }
    else record s { lent = remove c s.lent; opened = remove c s.opened; permits = s.permits + 1 }

unfoldable pub discard : ℕ → PoolState → PoolState
unfolding remove
discard c s = record s {
  lent = remove c s.lent;
  opened = remove c s.opened;
  permits = s.permits + 1;
}

unfoldable pub drop_lent : ℕ → PoolState → PoolState
unfolding remove
drop_lent c s = record s {
  lent = remove c s.lent;
  dropped = c ∷ s.dropped;
  permits = s.permits + 1;
}

-- `close`
unfoldable pub close_idle : PoolState → PoolState
close_idle s = record s {
  closed = true;
  idle = [];
  opened = delete_where (λ c. elem c s.idle) s.opened;
}

-- An event that cannot happen in a state gives none.
unfoldable pub step : Event → PoolState → Option PoolState
unfolding enter_pool look_up give_up connect fail_connect cancel_connect connect_abandoned
    fail_abandoned prepare drop_prepared lend retry drop_probed release discard drop_lent close_idle
step enter s = enter_pool s
step look s = look_up s
step connected s = connect s
step connect_failed s = fail_connect s
step gave_up s = give_up s
step connect_cancelled s = cancel_connect s
step abandoned_connected s = connect_abandoned s
step abandoned_failed s = fail_abandoned s
step (prepared c) s = if elem c s.preparing then some (prepare c s) else none
step (prepare_cancelled c) s = if elem c s.preparing then some (drop_prepared c s) else none
step (release_cancelled c) s = if elem c s.lent then some (drop_lent c s) else none
step (probe_answered c) s = if elem c s.probing then some (lend c s) else none
step (probe_failed c) s = if elem c s.probing then some (retry c s) else none
step (probe_raised c) s = if elem c s.probing then some (drop_probed c s) else none
step (body_ended c) s = if elem c s.lent then some (release c s) else none
step (body_raised c) s = if elem c s.lent then some (discard c s) else none
step close_pool s = some (close_idle s)

-- The states that a pool can reach.
pub data IsReached (max_connections : ℕ) : PoolState → Type 0 where
  at_start : IsReached max_connections (new_pool max_connections)
  after_step :
      {s after : PoolState}
      → IsReached max_connections s
      → (e : Event) → step e s ≡ some after
      → IsReached max_connections after
