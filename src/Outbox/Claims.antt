-- ===== src/Outbox/Claims.antt =====
-- The claims of `send_pending` (src/lenovmail/sync/outbox.py).
use mathlib.Core.Bool.{false≢true}
use lenovmail.Prelude.{
  ℕ, suc, ◌+◌, ◌≤◌, ◌≡◌, refl, sym, ap, ◌∙◌, inl, inr, true, false, some, List, [], ◌∷◌, map, arith,
  Bool-cases, length, take, drop, All, elem,
}
use lenovmail.Table.Laws.{
  select_where_sound, length-select_where, All-select_where, All-update_where, All-after_update,
  All-intro, All-map, All-map₂,
}
use lenovmail.Table.{select_where, count_where}
use lenovmail.Table.Order.{
  length-order_by, All-order_by, order_by-IsOrdered, take-before-drop, All-take, length-take_le,
}
use lenovmail.Outbox.{
  queued, sending, Outbox, claim_timeout_s, is_stale, release_stale_claims, is_claimable, claimable,
  claim,
}

-- A row with one of these identifiers is being sent, claimed at `at`.
abbrev IsHeld : List ℕ → ℕ → Outbox → Type 0
IsHeld ids at r = elem r.id ids ≡ true → (r.status ≡ sending) × (r.locked_at ≡ some at)

claim-IsHeld :
    (account limit : ℕ) (locked : List ℕ) (now : ℕ) (rows : List Outbox)
    → let (claimed, after) = claim account limit locked now rows in All (IsHeld claimed now) after
unfolding claim
claim-IsHeld account limit locked now rows =
    let claimed : List ℕ = map (λ r. r.id) (take limit (claimable account locked rows)) in
    All-after_update (IsHeld claimed now) (λ (r : Outbox). elem r.id claimed)
      (λ r. record r { status = sending; locked_at = some now }) rows (λ r e _. (refl, refl))
      (All-intro (λ (r : Outbox). elem r.id claimed ≡ false → IsHeld claimed now r)
        (λ r out held. absurd (false≢true (sym out ∙ held))) rows)

-- A claim that is not older than the timeout survives the release.
fresh-not_stale :
    (account now at : ℕ) (r : Outbox)
    → now ≤ at + claim_timeout_s
    → r.locked_at ≡ some at
    → is_stale account claim_timeout_s now r ≡ false
unfolding is_stale
fresh-not_stale account now at r h e = rw e (ground arith)

release-IsHeld :
    (ids : List ℕ) (at account now : ℕ) (rows : List Outbox)
    → now ≤ at + claim_timeout_s
    → All (IsHeld ids at) rows
    → All (IsHeld ids at) (release_stale_claims account claim_timeout_s now rows)
unfolding release_stale_claims
release-IsHeld ids at account now rows h held =
    All-update_where (IsHeld ids at) (is_stale account claim_timeout_s now) _ rows
      (λ r stale k m.
        absurd (false≢true (sym (fresh-not_stale account now at r h (k m).1) ∙ stale)))
      held

pub claimable-queued :
    (account : ℕ) (locked : List ℕ) (r : Outbox)
    → is_claimable account locked r ≡ true
    → (r.status ≡ queued) × (r.account_id ≡ account) × (elem r.id locked ≡ false)
unfolding is_claimable
claimable-queued account locked r c = (ground arith, ground arith, ground arith)

claimable-free :
    (ids : List ℕ) (at account : ℕ) (locked : List ℕ) (r : Outbox)
    → is_claimable account locked r ≡ true
    → IsHeld ids at r
    → elem r.id ids ≡ false
claimable-free ids at account locked r c h = elim (Bool-cases (elem r.id ids)) [
  | inl e ↦ absurd (cc ((h e).0, (claimable-queued account locked r c).0))
  | inr e ↦ e
]

All-ids :
    (P : ℕ → Type 0) (rows : List Outbox) → All (λ r. P r.id) rows → All P (map (λ r. r.id) rows)
All-ids P [] h = tt
All-ids P (r ∷ rows) h = (h.0, All-ids P rows h.1)

claimable-All :
    (P : Outbox → Type 0) (account : ℕ) (locked : List ℕ) (rows : List Outbox)
    → All P rows
    → All (λ r. (is_claimable account locked r ≡ true) × P r) (claimable account locked rows)
unfolding claimable
claimable-All P account locked rows h =
    All-order_by (λ r. r.created_at) (λ r. (is_claimable account locked r ≡ true) × P r) _
      (All-map₂ _ P _ (select_where (is_claimable account locked) rows) (λ r c p. (c, p))
        (select_where_sound (is_claimable account locked) rows)
        (All-select_where P (is_claimable account locked) rows h))

claimed-All :
    (P : ℕ → Type 0) (Q : Outbox → Type 0) (account limit : ℕ) (locked : List ℕ) (now : ℕ)
    (rows : List Outbox)
    → ((r : Outbox) → is_claimable account locked r ≡ true → Q r → P r.id)
    → All Q rows
    → All P (claim account limit locked now rows).0
unfolding claim
claimed-All P Q account limit locked now rows f h =
    All-ids P (take limit (claimable account locked rows)) (
      All-take (λ r. P r.id) limit (claimable account locked rows)
        (All-map _ _ (claimable account locked rows) (λ r c. f r c.0 c.1)
          (claimable-All Q account locked rows h)))

-- Two claims never take the same row while the first is within its timeout, whatever the second
-- worker's limit and locks are, and although it releases stale claims first.
pub claim_exclusive :
    (account limit limit' : ℕ) (locked locked' : List ℕ) (now now' : ℕ) (rows : List Outbox)
    → now' ≤ now + claim_timeout_s
    → let (first, after) = claim account limit locked now rows in
      let (second, _) =
        claim account limit' locked' now'
          (release_stale_claims account claim_timeout_s now' after) in
      All (λ id. elem id first ≡ false) second
claim_exclusive account limit limit' locked locked' now now' rows h =
    let (first, after) = claim account limit locked now rows in
    claimed-All (λ id. elem id first ≡ false) (IsHeld first now) account limit' locked' now' _
      (λ r c. claimable-free first now account locked' r c)
      (release-IsHeld first now account now' after h (claim-IsHeld account limit locked now rows))

ids-length : (rows : List Outbox) → length (map (λ r. r.id) rows) ≡ length rows
ids-length [] = refl
ids-length (r ∷ rows) = ap suc (ids-length rows)

-- A claim takes at most `limit` rows, all of them queued rows of the account that no other
-- transaction holds, and none of the eligible rows that it leaves is older than one that it takes.
pub claim_oldest :
    (account limit : ℕ) (locked : List ℕ) (now : ℕ) (rows : List Outbox)
    → let eligible = claimable account locked rows in
      let claimed = (claim account limit locked now rows).0 in
      (claimed ≡ map (λ r. r.id) (take limit eligible))
      × (length claimed ≤ limit)
      × All
          (λ r. (r.status ≡ queued) × (r.account_id ≡ account) × (elem r.id locked ≡ false))
          eligible
      × All
          (λ r. All (λ s. r.created_at ≤ s.created_at) (drop limit eligible))
          (take limit eligible)
      × (length eligible ≡ count_where (is_claimable account locked) rows)
unfolding claim
claim_oldest account limit locked now rows =
    let eligible : List Outbox = claimable account locked rows in
    (
      refl,
      omega (arith, ids-length (take limit eligible), length-take_le limit eligible),
      All-map _ _ eligible (λ r c. claimable-queued account locked r c.0)
          (claimable-All (λ _. Unit {0}) account locked rows (All-intro _ (λ _. tt) rows)),
      take-before-drop (λ (r : Outbox). r.created_at) limit eligible
          (unfold claimable in order_by-IsOrdered (λ (r : Outbox). r.created_at) _),
      unfold claimable in
          (length-order_by (λ (r : Outbox). r.created_at) _
            ∙ length-select_where (is_claimable account locked) rows),
    )
