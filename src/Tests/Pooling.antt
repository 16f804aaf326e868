-- ===== src/Tests/Pooling.antt =====
-- The connection pool (src/lenovmail/providers/imap_pool.py) in concrete states.
use lenovmail.Pool.{
  PoolState, new_pool, remove, enter, look, connected, prepared, body_ended, enter_pool, look_up,
  connect, prepare, release, step, IsReached, at_start, after_step,
}
use lenovmail.Prelude.{ℕ, ◌+◌, ◌≤◌, refl, true, false, [], ◌∷◌, length}
use lenovmail.Pool.Reached.{connection_exclusive}
use lenovmail.Pool.Counting.{times}

-- Two callers have come; the first one has returned its connection.
abbrev one_idle : PoolState
one_idle = record {
  max_connections = 2;
  permits = 1;
  idle = 0 ∷ [];
  closed = false;
  entering = 0;
  connecting = 0;
  abandoned = 0;
  preparing = [];
  probing = [];
  lent = 1 ∷ [];
  dropped = [];
  opened = 1 ∷ 0 ∷ [];
  next_id = 2;
}

one_idle-IsReached : IsReached 2 one_idle
unfolding step new_pool remove enter_pool look_up connect prepare release
one_idle-IsReached =
    after_step
      (after_step
        (after_step
          (after_step
            (after_step
              (after_step
                (after_step (after_step (after_step at_start enter refl) look refl) connected refl)
                (prepared 0) refl)
              enter refl)
            look refl)
          connected refl)
        (prepared 1) refl)
      (body_ended 0) refl

connection_exclusive_example :
    (length one_idle.lent
        + length one_idle.probing
        + length one_idle.preparing
        + one_idle.connecting
      ≤ 2)
    × (length one_idle.idle ≤ 2)
    × ((c : ℕ)
        → times c one_idle.lent
            + times c one_idle.idle
            + times c one_idle.probing
            + times c one_idle.preparing
          ≤ 1)
connection_exclusive_example = connection_exclusive 2 one_idle one_idle-IsReached

-- The first caller is cancelled after the login; the second one returns its connection when the pool is
-- already closed.
abbrev one_left : PoolState
one_left = record one_idle {
  permits = 2;
  idle = [];
  closed = true;
  lent = [];
  dropped = 0 ∷ [];
  opened = 0 ∷ [];
}
