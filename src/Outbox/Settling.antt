-- ===== src/Outbox/Settling.antt =====
-- How a run of `send_pending` (src/lenovmail/sync/outbox.py) ends when every failure of a provider
-- is one of those that `send_one` handles.
use lenovmail.Prelude.{
  ℕ, ◌+◌, ◌≤◌, ◌≡◌, refl, ap, ◌∙◌, inl, inr, Bool, true, false, ◌||◌, Option, none, some, List, [],
  ◌∷◌, arith, ◌==◌, Bool-cases, length, All, elem,
}
use lenovmail.Outbox.{
  sending, Outbox, Attempted, claim_timeout_s, status_is, send_one, is_stale, release_stale_claims,
  is_claimable, claimable, claim, find_row, count_sent, send_claimed, send_pending, send_found,
}
use lenovmail.Table.{count_where}
use lenovmail.Table.Keys.{HasNoRepeat, IsKeyed, update_where-IsKeyed, page-HasNoRepeat}
use lenovmail.Outbox.Counting.{is_handled, send_one-handled, is_sent_at, send_claimed-counts}
use mathlib.Core.Bool.{false≢true}
use lenovmail.Table.Laws.{All-after_update, All-intro, All-map, All-map₂}
use lenovmail.Outbox.Claims.{claim_oldest}

abbrev IsSettled : (ℕ → Bool) → Outbox → Type 0
IsSettled settled r = settled r.id ≡ true → status_is r.status sending ≡ false

only_left : (b c : Bool) → c ≡ false → (b || c) ≡ true → b ≡ true
only_left b c e h = ground arith

find_row-none :
    (id : ℕ) (rows : List Outbox) → find_row id rows ≡ none → All (λ r. (r.id == id) ≡ false) rows
find_row-none id [] e = tt
find_row-none id (r ∷ rows) e = elim (Bool-cases (r.id == id)) [
  | inl same ↦ absurd (cc (rw same at e))
  | inr out ↦ (out, find_row-none id rows (rw out at e))
]

count_where_le : (p : ℕ → Bool) (ks : List ℕ) → count_where p ks ≤ length ks
unfolding count_where
count_where_le p [] = omega arith
count_where_le p (k ∷ ks) = ground (arith, count_where_le p ks)

module _ (now : ℕ) (attempt : Outbox → Attempted)
    (handled : (s : Outbox) → is_handled (attempt s) ≡ true) where
  claimed-HasNoRepeat :
      (account limit : ℕ) (locked : List ℕ) (rows : List Outbox)
      → IsKeyed (λ r. r.id) rows
      → HasNoRepeat
          (claim account limit locked now (release_stale_claims account claim_timeout_s now rows)).0
  unfolding claim claimable release_stale_claims
  claimed-HasNoRepeat account limit locked rows keyed =
      page-HasNoRepeat (λ (r : Outbox). r.id) (is_claimable account locked) (λ r. r.created_at)
        limit (release_stale_claims account claim_timeout_s now rows)
        (update_where-IsKeyed (λ (r : Outbox). r.id) (is_stale account claim_timeout_s now) _ rows
          (λ r. refl) keyed)

  send_found-settles :
      (id : ℕ) (found : Option Outbox) (done : ℕ) (settled : ℕ → Bool) (rows : List Outbox)
      → find_row id rows ≡ found
      → All (IsSettled settled) rows
      → ((send_found now attempt id found done rows).0 ≡ none)
        × ((send_found now attempt id found done rows).1 ≤ done + 1)
        × All (IsSettled (λ i. settled i || i == id)) (send_found now attempt id found done rows).2
  unfolding send_found
  send_found-settles id none done settled rows e h = (
    refl,
    omega arith,
    All-map₂ _ _ _ rows (λ r out old s. old (only_left _ _ out s)) (find_row-none id rows e) h,
  )
  send_found-settles id (some row) done settled rows e h = (
    (send_one-handled now attempt row handled).0,
    ground arith,
    All-after_update (IsSettled (λ i. settled i || i == id)) (λ (r : Outbox). r.id == id)
        (λ r. (send_one now attempt r).0) rows (λ r _ _. (send_one-handled now attempt r handled).2)
        (All-map _ _ rows (λ r old out s. old (only_left _ _ out s)) h),
  )

  send_claimed-settles :
      (ids : List ℕ) (done : ℕ) (settled : ℕ → Bool) (rows : List Outbox)
      → All (IsSettled settled) rows
      → (n : ℕ) × ((send_claimed now attempt ids done rows).0 ≡ count_sent n)
        × (n ≤ done + length ids)
        × All (IsSettled (λ i. settled i || elem i ids)) (send_claimed now attempt ids done rows).1
  unfolding send_claimed
  send_claimed-settles [] done settled rows h =
      (done, refl, omega arith, All-map _ _ rows (λ r old s. old (ground arith)) h)
  send_claimed-settles (id ∷ ids) done settled rows h =
      let (none', bound, next) =
        send_found-settles id (find_row id rows) done settled rows refl h in
      let (n, result, le, all) =
        send_claimed-settles ids (send_found now attempt id (find_row id rows) done rows).1
          (λ i. settled i || i == id) (send_found now attempt id (find_row id rows) done rows).2
          next in
      (
        n,
        rw (none', send_claimed) result,
        omega (arith, bound, le),
        rw (none', send_claimed) (All-map _ _ _ (λ r old s. old (ground arith)) all),
      )

  -- If every failure of the provider is one that `send_one` handles and the rows have different
  -- identifiers, a run of `send_pending` ends with a count, which is that of the claimed rows whose
  -- status is `sent` when it ends and at most `limit`, and it leaves no row that it claimed in
  -- `sending`.
  pub send_pending_settles :
      (account limit : ℕ) (locked : List ℕ) (rows : List Outbox)
      → IsKeyed (λ r. r.id) rows
      → let (result, after) = send_pending account limit locked now attempt rows in
        let (claimed, _) =
          claim account limit locked now (release_stale_claims account claim_timeout_s now rows) in
        (result ≡ count_sent (count_where (is_sent_at after) claimed))
        × (count_where (is_sent_at after) claimed ≤ limit)
        × All (λ r. elem r.id claimed ≡ true → status_is r.status sending ≡ false) after
  unfolding send_pending
  send_pending_settles account limit locked rows keyed =
      let released : List Outbox = release_stale_claims account claim_timeout_s now rows in
      let (claimed, marked) = claim account limit locked now released in
      let (_, _, _, all) =
        send_claimed-settles claimed 0 (λ _. false) marked
          (All-intro (IsSettled (λ _. false)) (λ r s. absurd (false≢true s)) marked) in
      let after : List Outbox = (send_claimed now attempt claimed 0 marked).1 in
      (
        send_claimed-counts now attempt handled claimed 0 marked
              (claimed-HasNoRepeat account limit locked rows keyed)
            ∙ ap count_sent (omega arith),
        omega (
          arith,
          count_where_le (is_sent_at after) claimed,
          (claim_oldest account limit locked now released).1,
        ),
        all,
      )
