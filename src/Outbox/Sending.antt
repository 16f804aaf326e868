-- ===== src/Outbox/Sending.antt =====
-- What one run of `send_pending` (src/lenovmail/sync/outbox.py) does to the rows of the queue.
use lenovmail.Outbox.Claims.{claimable-queued}
use mathlib.Core.Bool.{false≢true}
use lenovmail.Prelude.{
  ℕ, ◌≤◌, ◌≡◌, refl, sym, ap, ◌∙◌, ◌⊎◌, inl, inr, Bool, true, false, ◌||◌, Option, none, some, List,
  [], ◌∷◌, arith, ◌==◌, ==_iff, ==_refl, Bool-cases, Option-cases, All, elem,
}
use lenovmail.Table.Laws.{All-map}
use lenovmail.Table.Order.{
  Along, Along-trans, Along-update_where, Along-update_All, Along-update_right, Along-map,
}
use lenovmail.Table.Keys.{IsKeyed, update_where-IsKeyed, Selected-key, elem-take-order_by}
use lenovmail.Outbox.{
  Status, queued, sending, Outbox, transient, auth, permanent, config, other, Attempted, delivered,
  raised, claim_timeout_s, status_is, finish, send_one, is_stale, release_stale_claims,
  is_claimable, claimable, claim, find_row, send_claimed, send_pending, send_found,
}

abbrev pub is_live : Status → Bool
is_live s = status_is s queued || status_is s sending

-- A row as it was, or a row of the account that was queued or being sent, and of which neither the
-- identity nor the message changed, nor an attempt was forgotten.
abbrev pub Moves : ℕ → Outbox → Outbox → Type 0
Moves account r r' =
    (r' ≡ r)
    ⊎ ((r.account_id ≡ account)
        × (is_live r.status ≡ true)
        × (r'.id ≡ r.id)
        × (r'.account_id ≡ r.account_id)
        × (r'.payload ≡ r.payload)
        × (r.attempts ≤ r'.attempts))

Moves-trans :
    (account : ℕ) (a b c : Outbox) → Moves account a b → Moves account b c → Moves account a c
Moves-trans account a b c (inl p) (inl q) = inl (q ∙ p)
Moves-trans account a b c (inl p) (inr q) = inr (rw p at q)
Moves-trans account a b c (inr p) (inl q) = inr (rw q p)
Moves-trans account a b c (inr p) (inr q) =
    inr (p.0, p.1, q.2 ∙ p.2, q.3 ∙ p.3, q.4 ∙ p.4, omega (arith, p.5, q.5))

send_one-fields :
    (now : ℕ) (attempt : Outbox → Attempted) (r : Outbox)
    → let r' = (send_one now attempt r).0 in
      (r'.id ≡ r.id)
      × (r'.account_id ≡ r.account_id)
      × (r'.payload ≡ r.payload)
      × (r.attempts ≤ r'.attempts)
unfolding send_one
send_one-fields now attempt r = go (attempt (record r { status = sending }))
  where
    go :
        (end : Attempted)
        → let r' = (finish now end (record r { status = sending })).0 in
          (r'.id ≡ r.id)
          × (r'.account_id ≡ r.account_id)
          × (r'.payload ≡ r.payload)
          × (r.attempts ≤ r'.attempts)
    go delivered = (refl, refl, refl, omega arith)
    go (raised (transient e)) = (refl, refl, refl, omega arith)
    go (raised (auth e)) = (refl, refl, refl, omega arith)
    go (raised (permanent e)) = (refl, refl, refl, omega arith)
    go (raised (config e)) = (refl, refl, refl, omega arith)
    go (raised (other e)) = (refl, refl, refl, omega arith)

release-Moves :
    (account timeout_s now : ℕ) (rows : List Outbox)
    → Along (Moves account) rows (release_stale_claims account timeout_s now rows)
unfolding release_stale_claims is_stale
release-Moves account timeout_s now rows =
    Along-update_where (Moves account) _ _ rows (λ r. inl refl)
      (λ r e. inr (ground arith, ground arith, refl, refl, refl, omega arith))

release-IsKeyed :
    (account timeout_s now : ℕ) (rows : List Outbox)
    → IsKeyed (λ r. r.id) rows
    → IsKeyed (λ r. r.id) (release_stale_claims account timeout_s now rows)
unfolding release_stale_claims
release-IsKeyed account timeout_s now rows keyed =
    update_where-IsKeyed (λ (r : Outbox). r.id) (is_stale account timeout_s now) _ rows (λ r. refl)
      keyed

elem_weaken : (i k : ℕ) (ks : List ℕ) → elem i ks ≡ true → elem i (k ∷ ks) ≡ true
elem_weaken i k ks h = rw h (ground arith)

elem_self : (ks : List ℕ) → All (λ i. elem i ks ≡ true) ks
elem_self [] = tt
elem_self (k ∷ ks) = (
  ground (arith, ==_refl k),
  All-map (λ i. elem i ks ≡ true) (λ i. elem i (k ∷ ks) ≡ true) ks (λ i h. elem_weaken i k ks h)
      (elem_self ks),
)

-- A row whose identifier was claimed was claimable, since identifiers are unique.
claimed-claimable :
    (account limit : ℕ) (locked : List ℕ) (now : ℕ) (rows : List Outbox)
    → IsKeyed (λ r. r.id) rows
    → All
        (λ r.
          elem r.id (claim account limit locked now rows).0 ≡ true
          → is_claimable account locked r ≡ true)
        rows
unfolding claim claimable
claimed-claimable account limit locked now rows keyed =
    All-map _ _ rows
      (λ r h e.
        h (elem-take-order_by (λ (x : Outbox). x.id) (λ (x : Outbox). x.created_at) r.id limit _ e))
      (Selected-key (λ (x : Outbox). x.id) (is_claimable account locked) rows keyed)

-- A row before the claim and the same row now.
abbrev Link : ℕ → List ℕ → Outbox → Outbox → Type 0
Link account claimed b c =
    (elem b.id claimed ≡ true → (b.account_id ≡ account) × (is_live b.status ≡ true))
    × (c.id ≡ b.id)
    × (c.account_id ≡ b.account_id)
    × (c.payload ≡ b.payload)
    × (b.attempts ≤ c.attempts)
    × (elem b.id claimed ≡ false → c ≡ b)

Link-send_one :
    (account now : ℕ) (attempt : Outbox → Attempted) (claimed : List ℕ) (b c : Outbox)
    → elem c.id claimed ≡ true
    → Link account claimed b c
    → Link account claimed b (send_one now attempt c).0
Link-send_one account now attempt claimed b c e (own, id, owner, payload, attempts, same) =
    let (id', owner', payload', attempts') = send_one-fields now attempt c in
    (
      own,
      id' ∙ id,
      owner' ∙ owner,
      payload' ∙ payload,
      omega (arith, attempts, attempts'),
      λ out. absurd (false≢true (sym out ∙ ap (λ (i : ℕ). elem i claimed) (sym id) ∙ e)),
    )

Link-Moves :
    (account : ℕ) (claimed : List ℕ) (b c : Outbox) → Link account claimed b c → Moves account b c
Link-Moves account claimed b c (own, id, owner, payload, attempts, same) =
    elim (Bool-cases (elem b.id claimed)) [
      | inl e ↦ inr ((own e).0, (own e).1, id, owner, payload, attempts)
      | inr e ↦ inl (same e)
    ]

send_found-Link :
    (account now : ℕ) (attempt : Outbox → Attempted) (claimed : List ℕ) (id : ℕ)
    (found : Option Outbox) (done : ℕ) (base rows : List Outbox)
    → elem id claimed ≡ true
    → Along (Link account claimed) base rows
    → Along (Link account claimed) base (send_found now attempt id found done rows).2
unfolding send_found
send_found-Link account now attempt claimed id none done base rows own h = h
send_found-Link account now attempt claimed id (some row) done base rows own h =
    Along-update_right (Link account claimed) (λ (r : Outbox). r.id == id)
      (λ r. (send_one now attempt r).0) base rows
      (λ b c e.
        Link-send_one account now attempt claimed b c
          (ap (λ (i : ℕ). elem i claimed) ((==_iff c.id id).0 e) ∙ own))
      h

send_claimed-Link :
    (account now : ℕ) (attempt : Outbox → Attempted) (claimed ids : List ℕ) (done : ℕ)
    (base rows : List Outbox)
    → All (λ i. elem i claimed ≡ true) ids
    → Along (Link account claimed) base rows
    → Along (Link account claimed) base (send_claimed now attempt ids done rows).1
unfolding send_claimed
send_claimed-Link account now attempt claimed [] done base rows own h = h
send_claimed-Link account now attempt claimed (id ∷ ids) done base rows own h =
    let found : Option Outbox = find_row id rows in
    let next : Along (Link account claimed) base (send_found now attempt id found done rows).2 =
      send_found-Link account now attempt claimed id found done base rows own.0 h in
    elim (Option-cases (send_found now attempt id found done rows).0) [
      | inl e ↦
          rw (e, send_claimed)
            (send_claimed-Link account now attempt claimed ids
              (send_found now attempt id found done rows).1 base
              (send_found now attempt id found done rows).2 own.1 next)
      | inr (r, e) ↦ rw (e, send_claimed) next
    ]

claim-Link :
    (account limit : ℕ) (locked : List ℕ) (now : ℕ) (rows : List Outbox)
    → IsKeyed (λ r. r.id) rows
    → let (claimed, after) = claim account limit locked now rows in
      Along (Link account claimed) rows after
unfolding claim
claim-Link account limit locked now rows keyed =
    let claimed : List ℕ = (claim account limit locked now rows).0 in
    Along-update_All (Link account claimed) (λ (r : Outbox). elem r.id claimed)
      (λ r. record r { status = sending; locked_at = some now }) rows
      (All-map (λ (r : Outbox). elem r.id claimed ≡ true → is_claimable account locked r ≡ true) _
        rows
        (λ r own.
          let owned : (elem r.id claimed ≡ true
              → (r.account_id ≡ account) × (is_live r.status ≡ true)) =
            λ e. let (q, a, _) = claimable-queued account locked r (own e) in (a, rw q) in
          (
            λ e. (owned, refl, refl, refl, omega arith, λ out. absurd (false≢true (sym out ∙ e))),
            λ _. (owned, refl, refl, refl, omega arith, λ _. refl),
          ))
        (claimed-claimable account limit locked now rows keyed))

-- A run of `send_pending`, whatever the attempts answer and however it ends, touches no row but the
-- queued and the interrupted ones of its account; it keeps the identity and the message of every row,
-- and never lowers a count of attempts. So a row that waits for approval, was sent or has failed stays
-- as it is.
pub send_pending-Moves :
    (account limit : ℕ) (locked : List ℕ) (now : ℕ) (attempt : Outbox → Attempted)
    (rows : List Outbox)
    → IsKeyed (λ r. r.id) rows
    → Along (Moves account) rows (send_pending account limit locked now attempt rows).1
unfolding send_pending
send_pending-Moves account limit locked now attempt rows keyed =
    let released : List Outbox = release_stale_claims account claim_timeout_s now rows in
    let (claimed, marked) = claim account limit locked now released in
    let keyed' : IsKeyed (λ (r : Outbox). r.id) released =
      release-IsKeyed account claim_timeout_s now rows keyed in
    Along-trans (Moves account) (Moves-trans account) rows released _
      (release-Moves account claim_timeout_s now rows)
      (Along-map (Link account claimed) (Moves account) released _ (Link-Moves account claimed) (
        send_claimed-Link account now attempt claimed claimed 0 released marked (elem_self claimed)
          (claim-Link account limit locked now released keyed')))
