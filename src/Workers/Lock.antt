-- ===== src/Workers/Lock.antt =====
-- The sync lock (src/lenovmail/workers/tasks.py, `sync_account`).
use mathlib.Core.Bool.{false≢true}
use lenovmail.Prelude.{
  ℕ, ◌+◌, ◌≤◌, ◌<◌, ◌≡◌, ap, ◌∙◌, inl, inr, Bool, true, false, not, some, List, [], ◌∷◌, arith, ltb,
  ◌==◌, ==_iff, ==_refl, Bool-cases, All,
}
use lenovmail.Workers.{
  sync_lock, Redis, sync_lock_ttl_s, is_live, begin_sync, end_sync, Event, begins, ends, happen,
  happen_all,
}

-- The events before the lock runs out, without the end of a cycle of the account.
abbrev pub keeps_lock : ℕ → ℕ → Event → Bool
keeps_lock id expiry (begins k now) = ltb now expiry
keeps_lock id expiry (ends k) = not (k == id)

happen-keeps_lock :
    (id expiry : ℕ) (e : Event) (r : Redis)
    → r sync_lock id ≡ some expiry
    → keeps_lock id expiry e ≡ true
    → happen e r sync_lock id ≡ some expiry
unfolding happen begin_sync end_sync
happen-keeps_lock id expiry (begins k now) r h l = elim (Bool-cases (k == id)) [
  | inl e ↦
      let live : is_live now (r sync_lock k) ≡ true =
        ap (λ x. is_live now (r sync_lock x)) ((==_iff k id).0 e) ∙ ap (is_live now) h ∙ l in
      rw live h
  | inr e ↦
      let other : (id == k) ≡ false = ground (arith, e) in
      elim (Bool-cases (is_live now (r sync_lock k))) [
        | inl live ↦ rw live h
        | inr live ↦ rw (live, other) h
      ]
]
happen-keeps_lock id expiry (ends k) r h l =
    let other : (id == k) ≡ false = ground (arith, l) in rw other h

happen_all-keeps_lock :
    (id expiry : ℕ) (events : List Event) (r : Redis)
    → r sync_lock id ≡ some expiry
    → All (λ e. keeps_lock id expiry e ≡ true) events
    → happen_all events r sync_lock id ≡ some expiry
unfolding happen_all
happen_all-keeps_lock id expiry [] r h l = h
happen_all-keeps_lock id expiry (e ∷ events) r h l =
    happen_all-keeps_lock id expiry events (happen e r) (happen-keeps_lock id expiry e r h l.0) l.1

begin_sync-sets :
    (id now : ℕ) (r : Redis)
    → (begin_sync id now r).0 ≡ true
    → (begin_sync id now r).1 sync_lock id ≡ some (now + sync_lock_ttl_s)
unfolding begin_sync
begin_sync-sets id now r h = elim (Bool-cases (is_live now (r sync_lock id))) [
  | inl e ↦ absurd (false≢true (rw e at h))
  | inr e ↦ rw (e, ==_refl id)
]

begin_sync-refused :
    (id now expiry : ℕ) (r : Redis)
    → r sync_lock id ≡ some expiry
    → now < expiry
    → (begin_sync id now r).0 ≡ false
unfolding begin_sync
begin_sync-refused id now expiry r h l =
    let live : is_live now (r sync_lock id) ≡ true = ap (is_live now) h ∙ ground arith in rw live

begin_sync-free :
    (id now : ℕ) (r : Redis) → is_live now (r sync_lock id) ≡ false → (begin_sync id now r).0 ≡ true
unfolding begin_sync
begin_sync-free id now r e = rw e

end_sync-frees : (id now : ℕ) (r : Redis) → is_live now (end_sync id r sync_lock id) ≡ false
unfolding end_sync
end_sync-frees id now r = rw (==_refl id)

-- With Redis in the context, while a cycle of an account runs and its lock has not run out, no other cycle of the account
-- starts, whatever cycles of other accounts start and end and whatever attempts were refused.
pub begin_sync_exclusive :
    (id now later : ℕ) (events : List Event) (r : Redis)
    → (begin_sync id now r).0 ≡ true
    → All (λ e. keeps_lock id (now + sync_lock_ttl_s) e ≡ true) events
    → later < now + sync_lock_ttl_s
    → (begin_sync id later (happen_all events (begin_sync id now r).1)).0 ≡ false
begin_sync_exclusive id now later events r b k l =
    begin_sync-refused id later (now + sync_lock_ttl_s) (happen_all events (begin_sync id now r).1)
      (happen_all-keeps_lock id (now + sync_lock_ttl_s) events (begin_sync id now r).1
        (begin_sync-sets id now r b) k)
      l

-- The lock has no owner: if a cycle outlives its lock and another one starts, the end of the first
-- removes the lock of the second, and a third cycle starts while the second runs.
pub end_sync-any_owner :
    (id now second third : ℕ) (r : Redis)
    → (begin_sync id now r).0 ≡ true
    → now + sync_lock_ttl_s ≤ second
    → let after_second = (begin_sync id second (begin_sync id now r).1).1 in
      ((begin_sync id second (begin_sync id now r).1).0 ≡ true)
      × ((begin_sync id third (end_sync id after_second)).0 ≡ true)
end_sync-any_owner id now second third r b l =
    let first : _ = (begin_sync id now r).1 in
    let expired : is_live second (first sync_lock id) ≡ false =
      ap (is_live second) (begin_sync-sets id now r b) ∙ ground arith in
    (
      begin_sync-free id second first expired,
      begin_sync-free id third (end_sync id (begin_sync id second first).1)
          (end_sync-frees id third (begin_sync id second first).1),
    )
