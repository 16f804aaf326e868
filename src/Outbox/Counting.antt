-- ===== src/Outbox/Counting.antt =====
-- What a run of `send_pending` (src/lenovmail/sync/outbox.py) counts: the claimed rows that are sent
-- when it ends.
use mathlib.Core.Bool.{false≢true}
use mathlib.Core.Option.{some-injective}
use lenovmail.Prelude.{
  ℕ, ◌+◌, ◌≡◌, refl, sym, ap, ◌∙◌, inl, inr, Bool, true, false, Option, none, some, List, [], ◌∷◌,
  arith, ◌==◌, if◌then◌else◌, Bool-cases, elem,
}
use lenovmail.Table.{update_where, count_where}
use lenovmail.Table.Keys.{HasNoRepeat}
use mathlib.Core.Path.{subst}
use lenovmail.Outbox.{
  sending, sent, Outbox, transient, auth, permanent, config, other, Attempted, delivered, raised,
  status_is, finish, send_one, find_row, Sent, count_sent, send_claimed, send_found,
}

-- `MailTransientError`, `MailAuthError` and `MailPermanentError` are handled, others pass through.
abbrev pub is_handled : Attempted → Bool
is_handled delivered = true
is_handled (raised (transient _)) = true
is_handled (raised (auth _)) = true
is_handled (raised (permanent _)) = true
is_handled (raised (config _)) = false
is_handled (raised (other _)) = false

finish-handled :
    (now : ℕ) (end : Attempted) (r : Outbox)
    → is_handled end ≡ true
    → ((finish now end r).1 ≡ none)
      × ((finish now end r).0.id ≡ r.id)
      × (status_is (finish now end r).0.status sending ≡ false)
unfolding finish
finish-handled now delivered r h = (refl, refl, refl)
finish-handled now (raised (transient _)) r h = (refl, refl, refl)
finish-handled now (raised (auth _)) r h = (refl, refl, refl)
finish-handled now (raised (permanent _)) r h = (refl, refl, refl)
finish-handled now (raised (config _)) r h = absurd (false≢true h)
finish-handled now (raised (other _)) r h = absurd (false≢true h)

pub send_one-handled :
    (now : ℕ) (attempt : Outbox → Attempted) (r : Outbox)
    → ((s : Outbox) → is_handled (attempt s) ≡ true)
    → ((send_one now attempt r).1 ≡ none)
      × ((send_one now attempt r).0.id ≡ r.id)
      × (status_is (send_one now attempt r).0.status sending ≡ false)
unfolding send_one
send_one-handled now attempt r h = finish-handled now _ (record r { status = sending }) (h _)

abbrev is_sent : Option Outbox → Bool
is_sent none = false
is_sent (some r) = status_is r.status sent

-- The row with this identifier is sent.
abbrev pub is_sent_at : List Outbox → ℕ → Bool
is_sent_at rows id = is_sent (find_row id rows)

module _ (k : ℕ) (f : Outbox → Outbox) (same : (r : Outbox) → (f r).id ≡ r.id) where
  find_row-other :
      (id : ℕ) (rows : List Outbox)
      → (id == k) ≡ false
      → find_row id (update_where (λ r. r.id == k) f rows) ≡ find_row id rows
  unfolding update_where
  find_row-other id [] ne = refl
  find_row-other id (r ∷ rows) ne = elim (Bool-cases (r.id == k)) [
    | inl e ↦ rw e (
        let there : (r.id == id) ≡ false = ground (arith, ne, e) in
        rw (same r, there) (find_row-other id rows ne))
    | inr e ↦ rw (e, find_row-other id rows ne)
  ]

  find_row-same :
      (rows : List Outbox) (row : Outbox)
      → find_row k rows ≡ some row
      → find_row k (update_where (λ r. r.id == k) f rows) ≡ some (f row)
  unfolding update_where
  find_row-same [] row h = absurd (cc)
  find_row-same (r ∷ rows) row h = elim (Bool-cases (r.id == k)) [
    | inl e ↦ rw e (
        let here : ((f r).id == k) ≡ true = ap (λ x. x == k) (same r) ∙ e in
        rw here (ap (λ x. some (f x)) (some-injective r row (rw e at h))))
    | inr e ↦ rw e (rw e (find_row-same rows row (rw e at h)))
  ]

add_bit :
    (b : Bool) (n done : ℕ) → n + (if b then done + 1 else done) ≡ (if b then 1 else 0) + n + done
add_bit b n done = ground arith

module _ (now : ℕ) (attempt : Outbox → Attempted)
    (handled : (s : Outbox) → is_handled (attempt s) ≡ true) where
  send_found-other :
      (k id : ℕ) (found : Option Outbox) (done : ℕ) (rows : List Outbox)
      → (id == k) ≡ false
      → is_sent_at (send_found now attempt k found done rows).2 id ≡ is_sent_at rows id
  unfolding send_found
  send_found-other k id none done rows ne = refl
  send_found-other k id (some row) done rows ne = ap is_sent (
      find_row-other k (λ r. (send_one now attempt r).0)
        (λ r. (send_one-handled now attempt r handled).1) id rows ne)

  send_found-raise :
      (k : ℕ) (found : Option Outbox) (done : ℕ) (rows : List Outbox)
      → (send_found now attempt k found done rows).0 ≡ none
  unfolding send_found
  send_found-raise k none done rows = refl
  send_found-raise k (some row) done rows = (send_one-handled now attempt row handled).0

  send_found-counts :
      (k : ℕ) (found : Option Outbox) (done : ℕ) (rows : List Outbox)
      → find_row k rows ≡ found
      → (send_found now attempt k found done rows).1
        ≡ (if is_sent_at (send_found now attempt k found done rows).2 k then done + 1 else done)
  unfolding send_found
  send_found-counts k none done rows e =
      ap (λ (b : Bool). if b then done + 1 else done) (sym (ap is_sent e))
  send_found-counts k (some row) done rows e =
      ap (λ (b : Bool). if b then done + 1 else done)
        (sym (
          ap is_sent (
            find_row-same k (λ r. (send_one now attempt r).0)
              (λ r. (send_one-handled now attempt r handled).1) rows row e)))

  send_claimed-next :
      (k : ℕ) (ids : List ℕ) (done : ℕ) (rows : List Outbox)
      → let (_, done', after) = send_found now attempt k (find_row k rows) done rows in
        send_claimed now attempt (k ∷ ids) done rows ≡ send_claimed now attempt ids done' after
  unfolding send_claimed
  send_claimed-next k ids done rows =
      rw (send_found-raise k (find_row k rows) done rows, send_claimed) refl

  send_claimed-other :
      (ids : List ℕ) (id done : ℕ) (rows : List Outbox)
      → elem id ids ≡ false
      → is_sent_at (send_claimed now attempt ids done rows).1 id ≡ is_sent_at rows id
  unfolding send_claimed
  send_claimed-other [] id done rows out = refl
  send_claimed-other (k ∷ ids) id done rows out =
      ap (λ (e : Sent × List Outbox). is_sent_at e.1 id) (send_claimed-next k ids done rows)
      ∙ send_claimed-other ids id (send_found now attempt k (find_row k rows) done rows).1
          (send_found now attempt k (find_row k rows) done rows).2 (ground (arith, out))
      ∙ send_found-other k id (find_row k rows) done rows (ground (arith, out))

  -- The count of a run is that of the claimed rows which are sent when it ends.
  pub send_claimed-counts :
      (ids : List ℕ) (done : ℕ) (rows : List Outbox)
      → HasNoRepeat ids
      → (send_claimed now attempt ids done rows).0
        ≡ count_sent
            (count_where (is_sent_at (send_claimed now attempt ids done rows).1) ids + done)
  unfolding send_claimed count_where
  send_claimed-counts [] done rows h = ap count_sent (omega arith)
  send_claimed-counts (k ∷ ids) done rows h =
      let counted = send_found-counts k (find_row k rows) done rows refl in
      let after : List Outbox = (send_found now attempt k (find_row k rows) done rows).2 in
      let done' : ℕ = (send_found now attempt k (find_row k rows) done rows).1 in
      let kept = send_claimed-other ids k done' after h.0 in
      let end : List Outbox = (send_claimed now attempt ids done' after).1 in
      let n : ℕ = count_where (is_sent_at end) ids in
      subst
        (λ (e : Sent × List Outbox).
          e.0 ≡ count_sent (count_where (is_sent_at e.1) (k ∷ ids) + done))
        (sym (send_claimed-next k ids done rows))
        (send_claimed-counts ids done' after h.1
          ∙ ap (λ x. count_sent (n + x))
              (counted ∙ ap (λ (b : Bool). if b then done + 1 else done) (sym kept))
          ∙ ap count_sent (add_bit (is_sent_at end k) n done))
