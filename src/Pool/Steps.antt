-- ===== src/Pool/Steps.antt =====
-- The steps of the pool (src/lenovmail/providers/imap_pool.py, `ImapPool`) that take connections back or
-- close them, under its invariant.
use lenovmail.Pool.{
  PoolState, remove, Event, enter, look, gave_up, connected, connect_failed, connect_cancelled,
  abandoned_connected, abandoned_failed, prepared, prepare_cancelled, probe_answered, probe_failed,
  probe_raised, body_ended, body_raised, release_cancelled, close_pool, enter_pool, look_up,
  give_up, connect, fail_connect, cancel_connect, connect_abandoned, fail_abandoned, prepare,
  drop_prepared, lend, retry, drop_probed, release, discard, drop_lent, close_idle, step, popped,
}
use lenovmail.Pool.Sound.{
  IsSound, guarded, unguarded, enter_pool-IsSound, none_idle-IsSound, pop_idle-IsSound,
  connect-IsSound, fail_connect-IsSound, prepare-IsSound, lend-IsSound, probed_open, lent_open,
}
use lenovmail.Pool.Dropped.{
  drop_prepared-IsSound, drop_probed-IsSound, drop_lent-IsSound, give_up-IsSound,
  cancel_connect-IsSound, fail_abandoned-IsSound, connect_abandoned-IsSound,
}
use lenovmail.Prelude.{
  ℕ, ◌+◌, ◌≡◌, refl, inl, inr, true, false, not, ◌&&◌, some, List, [], ◌∷◌, arith, ltb, ◌==◌,
  Bool-cases, length, elem,
}
use lenovmail.Pool.Counting.{
  times, times-remove, length-remove, times-elem, times-absent, times-delete_where,
}

module _ (n : ℕ) (s : PoolState) (sound : IsSound n s) where
  retry-IsSound : (d : ℕ) → elem d s.probing ≡ true → IsSound n (retry d s)
  unfolding retry times
  retry-IsSound d e = record {
    same_size = sound.same_size;
    permits_add = omega (arith, sound.permits_add, length-remove d s.probing e);
    idle_fits = sound.idle_fits;
    owned = λ c. omega (
      arith,
      sound.owned c,
      times-remove c d s.probing e,
      times-remove c d s.opened ((probed_open n s sound) d e),
    );
    opened_once = λ c.
        omega (arith, sound.opened_once c, times-remove c d s.opened ((probed_open n s sound) d e));
    opened_before = λ c h.
        omega
          (arith, sound.opened_before c h, times-remove c d s.opened ((probed_open n s sound) d e));
    closed_empty = sound.closed_empty;
  }

  keep-IsSound :
      (d : ℕ)
      → elem d s.lent ≡ true
      → (not s.closed && ltb (length s.idle) s.max_connections) ≡ true
      → IsSound n (record s { lent = remove d s.lent; idle = d ∷ s.idle; permits = s.permits + 1 })
  unfolding times
  keep-IsSound d e g = record {
    same_size = sound.same_size;
    permits_add = omega (arith, sound.permits_add, length-remove d s.lent e);
    idle_fits = ground (arith, g, sound.same_size);
    owned = λ c. omega (arith, sound.owned c, times-remove c d s.lent e);
    opened_once = sound.opened_once;
    opened_before = sound.opened_before;
    closed_empty = λ k. absurd (ground (arith, g, k));
  }

  discard-IsSound : (d : ℕ) → elem d s.lent ≡ true → IsSound n (discard d s)
  unfolding discard times
  discard-IsSound d e = record {
    same_size = sound.same_size;
    permits_add = omega (arith, sound.permits_add, length-remove d s.lent e);
    idle_fits = sound.idle_fits;
    owned = λ c. omega (
      arith,
      sound.owned c,
      times-remove c d s.lent e,
      times-remove c d s.opened ((lent_open n s sound) d e),
    );
    opened_once = λ c.
        omega (arith, sound.opened_once c, times-remove c d s.opened ((lent_open n s sound) d e));
    opened_before = λ c h.
        omega
          (arith, sound.opened_before c h, times-remove c d s.opened ((lent_open n s sound) d e));
    closed_empty = sound.closed_empty;
  }

  release-IsSound : (d : ℕ) → elem d s.lent ≡ true → IsSound n (release d s)
  unfolding release discard
  release-IsSound d e = elim (Bool-cases (not s.closed && ltb (length s.idle) s.max_connections)) [
    | inl g ↦ rw g (keep-IsSound d e g)
    | inr g ↦ rw g (discard-IsSound d e)
  ]

  close_idle-IsSound : IsSound n (close_idle s)
  unfolding close_idle times
  close_idle-IsSound = record {
    same_size = sound.same_size;
    permits_add = sound.permits_add;
    idle_fits = omega arith;
    owned = λ c. elim (Bool-cases (elem c s.idle)) [
      | inl e ↦ ground (
        arith,
        sound.owned c,
        sound.opened_once c,
        times-elem c s.idle e,
        e,
        times-delete_where c s.idle s.opened,
      )
      | inr e ↦
          ground
            (arith, sound.owned c, times-absent c s.idle e, e, times-delete_where c s.idle s.opened)
    ];
    opened_once = λ c. ground (arith, sound.opened_once c, times-delete_where c s.idle s.opened);
    opened_before =
        λ c h. ground (arith, sound.opened_before c h, times-delete_where c s.idle s.opened);
    closed_empty = λ _. refl;
  }

  look_up-IsSound :
      (idle : List ℕ) → s.idle ≡ idle → (s.entering == 0) ≡ false → IsSound n (popped s idle)
  look_up-IsSound [] i e = (none_idle-IsSound n s sound) e
  look_up-IsSound (d ∷ ds) i e = (pop_idle-IsSound n s sound) d ds e i

  pub step-IsSound : (e : Event) (target : PoolState) → step e s ≡ some target → IsSound n target
  unfolding step enter_pool look_up give_up connect fail_connect cancel_connect connect_abandoned
      fail_abandoned
  step-IsSound enter target h =
      unguarded n (s.permits == 0) _ target h (enter_pool-IsSound n s sound)
  step-IsSound look target h =
      unguarded n (s.entering == 0) (popped s s.idle) target h (look_up-IsSound s.idle refl)
  step-IsSound connected target h =
      unguarded n (s.connecting == 0) _ target h (connect-IsSound n s sound)
  step-IsSound connect_failed target h =
      unguarded n (s.connecting == 0) _ target h (fail_connect-IsSound n s sound)
  step-IsSound gave_up target h =
      unguarded n (s.entering == 0) _ target h (give_up-IsSound n s sound)
  step-IsSound connect_cancelled target h =
      unguarded n (s.connecting == 0) _ target h (cancel_connect-IsSound n s sound)
  step-IsSound abandoned_connected target h =
      unguarded n (s.abandoned == 0) _ target h (connect_abandoned-IsSound n s sound)
  step-IsSound abandoned_failed target h =
      unguarded n (s.abandoned == 0) _ target h (fail_abandoned-IsSound n s sound)
  step-IsSound (prepared c) target h =
      guarded n (elem c s.preparing) (prepare c s) target h (prepare-IsSound n s sound c)
  step-IsSound (prepare_cancelled c) target h =
      guarded n (elem c s.preparing) (drop_prepared c s) target h
        (drop_prepared-IsSound n s sound c)
  step-IsSound (release_cancelled c) target h =
      guarded n (elem c s.lent) (drop_lent c s) target h (drop_lent-IsSound n s sound c)
  step-IsSound (probe_answered c) target h =
      guarded n (elem c s.probing) (lend c s) target h ((lend-IsSound n s sound) c)
  step-IsSound (probe_failed c) target h =
      guarded n (elem c s.probing) (retry c s) target h (retry-IsSound c)
  step-IsSound (probe_raised c) target h =
      guarded n (elem c s.probing) (drop_probed c s) target h (drop_probed-IsSound n s sound c)
  step-IsSound (body_ended c) target h =
      guarded n (elem c s.lent) (release c s) target h (release-IsSound c)
  step-IsSound (body_raised c) target h =
      guarded n (elem c s.lent) (discard c s) target h (discard-IsSound c)
  step-IsSound close_pool target h =
      guarded n true (close_idle s) target h (λ _. close_idle-IsSound)
