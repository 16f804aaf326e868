-- ===== src/Pool/Sound.antt =====
-- The invariant of the pool (src/lenovmail/providers/imap_pool.py, `ImapPool`), at the start and after the
-- steps that hand out connections.
use mathlib.Core.Path.{subst}
use lenovmail.Prelude.{
  ℕ, ◌+◌, ◌-◌, ◌≤◌, ◌≡◌, refl, ap, inl, inr, Bool, true, false, Option, none, some, List, ◌∷◌,
  arith, ◌==◌, if◌then◌else◌, Bool-cases, length, elem,
}
use lenovmail.Pool.{PoolState, new_pool, prepare, lend}
use lenovmail.Pool.Counting.{times, times-remove, length-remove, times-elem, times-absent}

-- The permits, the places of the idle connections, and who has which connection.
pub record IsSound (max_connections : ℕ) (s : PoolState) : Type 0 where
  pub same_size : s.max_connections ≡ max_connections
  pub permits_add :
      s.permits + s.entering + s.connecting + length s.preparing + length s.probing + length s.lent
      ≡ max_connections
  pub idle_fits : length s.idle ≤ max_connections
  pub owned :
      (c : ℕ)
      → times c s.opened
        ≡ times c s.idle
          + times c s.preparing
          + times c s.probing
          + times c s.lent
          + times c s.dropped
  pub opened_once : (c : ℕ) → times c s.opened ≤ 1
  pub opened_before : (c : ℕ) → s.next_id ≤ c → times c s.opened ≡ 0
  pub closed_empty : s.closed ≡ true → length s.idle ≡ 0

pub new_pool-IsSound : (n : ℕ) → IsSound n (new_pool n)
unfolding new_pool times
new_pool-IsSound n = record {
  same_size = refl;
  permits_add = omega arith;
  idle_fits = omega arith;
  owned = λ c. refl;
  opened_once = λ c. omega arith;
  opened_before = λ c h. refl;
  closed_empty = λ h. refl;
}

of_some : {A : Type 0} → A → Option A → A
of_some d none = d
of_some d (some a) = a

-- A step under a guard.
pub guarded :
    (n : ℕ) (c : Bool) (t target : PoolState)
    → (if c then some t else none) ≡ some target
    → (c ≡ true → IsSound n t)
    → IsSound n target
unfolding of_some
guarded n true t target h k = subst (IsSound n) (ap (of_some t) h) (k refl)
guarded n false t target h k = absurd (cc)

pub unguarded :
    (n : ℕ) (c : Bool) (t target : PoolState)
    → (if c then none else some t) ≡ some target
    → (c ≡ false → IsSound n t)
    → IsSound n target
unfolding of_some
unguarded n false t target h k = subst (IsSound n) (ap (of_some t) h) (k refl)
unguarded n true t target h k = absurd (cc)

module _ (n : ℕ) (s : PoolState) (sound : IsSound n s) where
  pub enter_pool-IsSound :
      (s.permits == 0) ≡ false
      → IsSound n (record s { permits = s.permits - 1; entering = s.entering + 1 })
  enter_pool-IsSound e = record {
    same_size = sound.same_size;
    permits_add = ground (arith, e, sound.permits_add);
    idle_fits = sound.idle_fits;
    owned = sound.owned;
    opened_once = sound.opened_once;
    opened_before = sound.opened_before;
    closed_empty = sound.closed_empty;
  }

  pub none_idle-IsSound :
      (s.entering == 0) ≡ false
      → IsSound n (record s { entering = s.entering - 1; connecting = s.connecting + 1 })
  none_idle-IsSound e = record {
    same_size = sound.same_size;
    permits_add = ground (arith, e, sound.permits_add);
    idle_fits = sound.idle_fits;
    owned = sound.owned;
    opened_once = sound.opened_once;
    opened_before = sound.opened_before;
    closed_empty = sound.closed_empty;
  }

  pub pop_idle-IsSound :
      (d : ℕ) (ds : List ℕ)
      → (s.entering == 0) ≡ false
      → s.idle ≡ d ∷ ds
      → IsSound n (record s { entering = s.entering - 1; idle = ds; probing = d ∷ s.probing })
  unfolding times
  pop_idle-IsSound d ds e i = record {
    same_size = sound.same_size;
    permits_add = ground (arith, e, sound.permits_add);
    idle_fits = omega (arith, sound.idle_fits, ap length i);
    owned = λ c. omega (arith, sound.owned c, ap (times c) i);
    opened_once = sound.opened_once;
    opened_before = sound.opened_before;
    closed_empty = λ k. absurd (omega (arith, sound.closed_empty k, ap length i));
  }

  pub connect-IsSound :
      (s.connecting == 0) ≡ false
      → IsSound n (record s {
        connecting = s.connecting - 1;
        preparing = s.next_id ∷ s.preparing;
        opened = s.next_id ∷ s.opened;
        next_id = s.next_id + 1;
      })
  unfolding times
  connect-IsSound e = record {
    same_size = sound.same_size;
    permits_add = ground (arith, e, sound.permits_add);
    idle_fits = sound.idle_fits;
    owned = λ c. omega (arith, sound.owned c);
    opened_once = λ c. elim (Bool-cases (s.next_id == c)) [
      | inl m ↦ ground (arith, m, sound.opened_before c (ground (arith, m)))
      | inr m ↦ ground (arith, m, sound.opened_once c)
    ];
    opened_before = λ c h. ground (arith, h, sound.opened_before c (omega (arith, h)));
    closed_empty = sound.closed_empty;
  }

  pub fail_connect-IsSound :
      (s.connecting == 0) ≡ false
      → IsSound n (record s { connecting = s.connecting - 1; permits = s.permits + 1 })
  fail_connect-IsSound e = record {
    same_size = sound.same_size;
    permits_add = ground (arith, e, sound.permits_add);
    idle_fits = sound.idle_fits;
    owned = sound.owned;
    opened_once = sound.opened_once;
    opened_before = sound.opened_before;
    closed_empty = sound.closed_empty;
  }

  pub prepare-IsSound : (d : ℕ) → elem d s.preparing ≡ true → IsSound n (prepare d s)
  unfolding prepare times
  prepare-IsSound d e = record {
    same_size = sound.same_size;
    permits_add = omega (arith, sound.permits_add, length-remove d s.preparing e);
    idle_fits = sound.idle_fits;
    owned = λ c. omega (arith, sound.owned c, times-remove c d s.preparing e);
    opened_once = sound.opened_once;
    opened_before = sound.opened_before;
    closed_empty = sound.closed_empty;
  }

  pub lend-IsSound : (d : ℕ) → elem d s.probing ≡ true → IsSound n (lend d s)
  unfolding lend times
  lend-IsSound d e = record {
    same_size = sound.same_size;
    permits_add = omega (arith, sound.permits_add, length-remove d s.probing e);
    idle_fits = sound.idle_fits;
    owned = λ c. omega (arith, sound.owned c, times-remove c d s.probing e);
    opened_once = sound.opened_once;
    opened_before = sound.opened_before;
    closed_empty = sound.closed_empty;
  }

  -- A connection that is used is open.
  used_open :
      (d : ℕ)
      → 1 ≤ times d s.preparing + times d s.probing + times d s.lent
      → elem d s.opened ≡ true
  used_open d h = elim (Bool-cases (elem d s.opened)) [
    | inl e ↦ e
    | inr e ↦ absurd (omega (arith, sound.owned d, times-absent d s.opened e, h))
  ]

  pub probed_open : (d : ℕ) → elem d s.probing ≡ true → elem d s.opened ≡ true
  probed_open d e = used_open d (omega (arith, times-elem d s.probing e))

  pub lent_open : (d : ℕ) → elem d s.lent ≡ true → elem d s.opened ≡ true
  lent_open d e = used_open d (omega (arith, times-elem d s.lent e))
