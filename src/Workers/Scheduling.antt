-- ===== src/Workers/Scheduling.antt =====
-- The scheduler's marker (src/lenovmail/workers/tasks.py, `sync_all_accounts`).
use lenovmail.Maintenance.{Account}
use lenovmail.Table.Laws.{All-map}
use lenovmail.Table.{select_where}
use mathlib.Core.Bool.{false≢true}
use lenovmail.Prelude.{
  ℕ, ◌+◌, ◌≤◌, ◌<◌, ◌≡◌, refl, sym, ap, ◌∙◌, inl, inr, Bool, true, false, Option, none, some, List,
  [], ◌∷◌, map, arith, ◌==◌, ==_iff, ==_refl, Bool-cases, All, elem,
}
use lenovmail.Workers.{
  sync_queued, Redis, sync_queued_ttl_s, is_live, put, is_due, enqueue_due, sync_all_accounts,
}

-- The account's marker is live at this time.
abbrev pub IsMarked : ℕ → Redis → ℕ → Type 0
IsMarked later r id = is_live later (r sync_queued id) ≡ true

put-IsMarked :
    (now later id k : ℕ) (r : Redis)
    → later < now + sync_queued_ttl_s
    → IsMarked later r id
    → IsMarked later (put sync_queued k (some (now + sync_queued_ttl_s)) r) id
put-IsMarked now later id k r l h = elim (Bool-cases (id == k)) [
  | inl e ↦ rw e (ground arith)
  | inr e ↦ rw e h
]

earlier-IsMarked :
    (now later : ℕ) (o : Option ℕ) → now ≤ later → is_live later o ≡ true → is_live now o ≡ true
earlier-IsMarked now later none n h = h
earlier-IsMarked now later (some e) n h = ground arith

-- A refused job takes back the marker that it has just set, and no other.
clear-IsMarked :
    (now later id k : ℕ) (r : Redis)
    → now ≤ later
    → is_live now (r sync_queued k) ≡ false
    → IsMarked later r id
    → IsMarked later
        (put sync_queued k none (put sync_queued k (some (now + sync_queued_ttl_s)) r))
        id
clear-IsMarked now later id k r n dead h = elim (Bool-cases (id == k)) [
  | inl e ↦
      let live : is_live now (r sync_queued k) ≡ true =
        ap (λ x. is_live now (r sync_queued x)) (sym ((==_iff id k).0 e))
        ∙ earlier-IsMarked now later (r sync_queued id) n h in
      absurd (false≢true (sym dead ∙ live))
  | inr e ↦ rw e h
]

-- A marker that is live now is kept by the loop.
enqueue_due-keeps :
    (now later id : ℕ) (accepts : ℕ → Bool) (ids : List ℕ) (r : Redis)
    → now ≤ later
    → later < now + sync_queued_ttl_s
    → IsMarked later r id
    → IsMarked later (enqueue_due now accepts ids r).1 id
unfolding enqueue_due
enqueue_due-keeps now later id accepts [] r n l h = h
enqueue_due-keeps now later id accepts (k ∷ ids) r n l h =
    elim (Bool-cases (is_live now (r sync_queued k))) [
      | inl live ↦ rw live (enqueue_due-keeps now later id accepts ids r n l h)
      | inr dead ↦
          let marked : Redis = put sync_queued k (some (now + sync_queued_ttl_s)) r in
          elim (Bool-cases (accepts k)) [
            | inl a ↦
                rw (dead, a)
                  (enqueue_due-keeps now later id accepts ids marked n l
                    (put-IsMarked now later id k r l h))
            | inr a ↦
                rw (dead, a)
                  (enqueue_due-keeps now later id accepts ids (put sync_queued k none marked) n l
                    (clear-IsMarked now later id k r n dead h))
          ]
    ]

enqueue_due-marks :
    (now later : ℕ) (accepts : ℕ → Bool) (ids : List ℕ) (r : Redis)
    → now ≤ later
    → later < now + sync_queued_ttl_s
    → let (queued_ids, r') = enqueue_due now accepts ids r in All (IsMarked later r') queued_ids
unfolding enqueue_due
enqueue_due-marks now later accepts [] r n l = tt
enqueue_due-marks now later accepts (k ∷ ids) r n l =
    elim (Bool-cases (is_live now (r sync_queued k))) [
      | inl live ↦ rw live (enqueue_due-marks now later accepts ids r n l)
      | inr dead ↦
          let marked : Redis = put sync_queued k (some (now + sync_queued_ttl_s)) r in
          let here : IsMarked later marked k = rw (==_refl k) (ground arith) in
          elim (Bool-cases (accepts k)) [
            | inl a ↦
                rw (dead, a)
                  (
                    enqueue_due-keeps now later k accepts ids marked n l here,
                    enqueue_due-marks now later accepts ids marked n l,
                  )
            | inr a ↦
                rw (dead, a)
                  (enqueue_due-marks now later accepts ids (put sync_queued k none marked) n l)
          ]
    ]

not_marked :
    (now id k : ℕ) (r : Redis)
    → is_live now (r sync_queued k) ≡ false
    → IsMarked now r id
    → (id == k) ≡ false
not_marked now id k r dead h = elim (Bool-cases (id == k)) [
  | inl e ↦ absurd (
      false≢true (sym dead ∙ ap (λ x. is_live now (r sync_queued x)) (sym ((==_iff id k).0 e)) ∙ h))
  | inr e ↦ e
]

-- A marked account is not queued.
enqueue_due-skips :
    (now id : ℕ) (accepts : ℕ → Bool) (ids : List ℕ) (r : Redis)
    → IsMarked now r id
    → elem id (enqueue_due now accepts ids r).0 ≡ false
unfolding enqueue_due
enqueue_due-skips now id accepts [] r h = refl
enqueue_due-skips now id accepts (k ∷ ids) r h = elim (Bool-cases (is_live now (r sync_queued k))) [
  | inl live ↦ rw live (enqueue_due-skips now id accepts ids r h)
  | inr dead ↦
      let marked : Redis = put sync_queued k (some (now + sync_queued_ttl_s)) r in
      let other : (id == k) ≡ false = not_marked now id k r dead h in
      elim (Bool-cases (accepts k)) [
        | inl a ↦
            rw (dead, a)
              (rw other (
                enqueue_due-skips now id accepts ids marked
                  (put-IsMarked now now id k r (omega arith) h)))
        | inr a ↦
            rw (dead, a)
              (enqueue_due-skips now id accepts ids (put sync_queued k none marked)
                (clear-IsMarked now now id k r (omega arith) dead h))
      ]
]

-- The scheduler queues no account twice within the lifetime of the marker: until a job of the account
-- starts, a later round queues none of the accounts that a round has queued, whichever are due.
pub sync_all_accounts-once :
    (now later : ℕ) (interval : ℕ → ℕ) (accepts accepts' : ℕ → Bool)
    (accounts accounts' : List Account) (r : Redis)
    → now ≤ later
    → later < now + sync_queued_ttl_s
    → let (queued_ids, r') = sync_all_accounts now interval accepts accounts r in
      All
        (λ id. elem id (sync_all_accounts later interval accepts' accounts' r').0 ≡ false)
        queued_ids
unfolding sync_all_accounts
sync_all_accounts-once now later interval accepts accepts' accounts accounts' r n l =
    let due : _ = map (λ a. a.id) (select_where (is_due now interval) accounts) in
    let due' : _ = map (λ a. a.id) (select_where (is_due later interval) accounts') in
    let (queued_ids, r') = enqueue_due now accepts due r in
    All-map (IsMarked later r') (λ id. elem id (enqueue_due later accepts' due' r').0 ≡ false)
      queued_ids (λ id h. enqueue_due-skips later id accepts' due' r' h)
      (enqueue_due-marks now later accepts due r n l)
