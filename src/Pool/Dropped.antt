-- ===== src/Pool/Dropped.antt =====
-- The steps of the pool (src/lenovmail/providers/imap_pool.py, `ImapPool`) that a cancellation causes,
-- under its invariant.
use lenovmail.Prelude.{ℕ, ◌+◌, ◌-◌, ◌≡◌, inl, inr, true, false, ◌∷◌, arith, ◌==◌, Bool-cases, elem}
use lenovmail.Pool.{PoolState, drop_prepared, drop_probed, drop_lent}
use lenovmail.Pool.Counting.{times, times-remove, length-remove}
use lenovmail.Pool.Sound.{IsSound}

module _ (n : ℕ) (s : PoolState) (sound : IsSound n s) where
  pub drop_prepared-IsSound : (d : ℕ) → elem d s.preparing ≡ true → IsSound n (drop_prepared d s)
  unfolding drop_prepared times
  drop_prepared-IsSound d e = record {
    same_size = sound.same_size;
    permits_add = omega (arith, sound.permits_add, length-remove d s.preparing e);
    idle_fits = sound.idle_fits;
    owned = λ c. omega (arith, sound.owned c, times-remove c d s.preparing e);
    opened_once = sound.opened_once;
    opened_before = sound.opened_before;
    closed_empty = sound.closed_empty;
  }

  pub drop_probed-IsSound : (d : ℕ) → elem d s.probing ≡ true → IsSound n (drop_probed d s)
  unfolding drop_probed times
  drop_probed-IsSound d e = record {
    same_size = sound.same_size;
    permits_add = omega (arith, sound.permits_add, length-remove d s.probing e);
    idle_fits = sound.idle_fits;
    owned = λ c. omega (arith, sound.owned c, times-remove c d s.probing e);
    opened_once = sound.opened_once;
    opened_before = sound.opened_before;
    closed_empty = sound.closed_empty;
  }

  pub drop_lent-IsSound : (d : ℕ) → elem d s.lent ≡ true → IsSound n (drop_lent d s)
  unfolding drop_lent times
  drop_lent-IsSound d e = record {
    same_size = sound.same_size;
    permits_add = omega (arith, sound.permits_add, length-remove d s.lent e);
    idle_fits = sound.idle_fits;
    owned = λ c. omega (arith, sound.owned c, times-remove c d s.lent e);
    opened_once = sound.opened_once;
    opened_before = sound.opened_before;
    closed_empty = sound.closed_empty;
  }

  pub give_up-IsSound :
      (s.entering == 0) ≡ false
      → IsSound n (record s { entering = s.entering - 1; permits = s.permits + 1 })
  give_up-IsSound e = record {
    same_size = sound.same_size;
    permits_add = ground (arith, e, sound.permits_add);
    idle_fits = sound.idle_fits;
    owned = sound.owned;
    opened_once = sound.opened_once;
    opened_before = sound.opened_before;
    closed_empty = sound.closed_empty;
  }

  pub cancel_connect-IsSound :
      (s.connecting == 0) ≡ false
      → IsSound n (record s {
        connecting = s.connecting - 1;
        abandoned = s.abandoned + 1;
        permits = s.permits + 1;
      })
  cancel_connect-IsSound e = record {
    same_size = sound.same_size;
    permits_add = ground (arith, e, sound.permits_add);
    idle_fits = sound.idle_fits;
    owned = sound.owned;
    opened_once = sound.opened_once;
    opened_before = sound.opened_before;
    closed_empty = sound.closed_empty;
  }

  pub fail_abandoned-IsSound :
      (s.abandoned == 0) ≡ false → IsSound n (record s { abandoned = s.abandoned - 1 })
  fail_abandoned-IsSound e = record {
    same_size = sound.same_size;
    permits_add = sound.permits_add;
    idle_fits = sound.idle_fits;
    owned = sound.owned;
    opened_once = sound.opened_once;
    opened_before = sound.opened_before;
    closed_empty = sound.closed_empty;
  }

  pub connect_abandoned-IsSound :
      (s.abandoned == 0) ≡ false
      → IsSound n (record s {
        abandoned = s.abandoned - 1;
        dropped = s.next_id ∷ s.dropped;
        opened = s.next_id ∷ s.opened;
        next_id = s.next_id + 1;
      })
  unfolding times
  connect_abandoned-IsSound e = record {
    same_size = sound.same_size;
    permits_add = sound.permits_add;
    idle_fits = sound.idle_fits;
    owned = λ c. omega (arith, sound.owned c);
    opened_once = λ c. elim (Bool-cases (s.next_id == c)) [
      | inl m ↦ ground (arith, m, sound.opened_before c (ground (arith, m)))
      | inr m ↦ ground (arith, m, sound.opened_once c)
    ];
    opened_before = λ c h. ground (arith, h, sound.opened_before c (omega (arith, h)));
    closed_empty = sound.closed_empty;
  }
