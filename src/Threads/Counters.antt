-- ===== src/Threads/Counters.antt =====
-- The counters of threads under `assign_thread` (src/lenovmail/sync/threads.py).
use mathlib.Core.Bool.{false≢true}
use lenovmail.Prelude.{
  ℕ, ◌≡◌, refl, sym, ap, ◌∙◌, ◌≢◌, ◌⊎◌, inl, inr, Bool, true, false, Option, none, some, List, [],
  ◌∷◌, arith, ◌==◌, if◌then◌else◌, ==_iff, ==_refl, ==_ne, Bool-cases, All, elem, opt_eq, opt_in,
}
use lenovmail.Table.{count_where}
use lenovmail.Table.Laws.{
  All-update_where, count_where-map, count_where-ext, All-after_update, All-after_delete,
  All-append, All-map, All-map₂,
}
use lenovmail.Text.{Text}
use lenovmail.Models.{Message, Thread, MailDb}
use lenovmail.Threads.{
  threads_referenced_by, set_thread, merge_threads, refresh_thread_counters, ThreadRequest,
  candidate_refs, choose_thread, settle, assign_thread, name_thread, place_message,
}
use lenovmail.Threads.Merging.{joins, matched_threads, matched-distinct, first_or, settle-messages}

-- The messages of a thread.
abbrev pub in_thread : ℕ → Message → Bool
in_thread t m = opt_eq m.thread_id t

abbrev pub HasCount : List Message → Thread → Type 0
HasCount ms t = t.message_count ≡ count_where (in_thread t.id) ms

-- Every thread shows the number of its messages.
abbrev pub CountsExact : MailDb → Type 0
CountsExact db = All (HasCount db.messages) db.threads

refreshed-HasCount :
    (t : ℕ) (fallback : Option ℕ) (db : MailDb)
    → All (λ r. (r.id == t) ≡ false → HasCount db.messages r) db.threads
    → CountsExact (refresh_thread_counters t fallback db)
unfolding refresh_thread_counters
refreshed-HasCount t fallback db old =
    All-after_update (HasCount db.messages) (λ (r : Thread). r.id == t) _ db.threads
      (λ r e. ap (λ (k : ℕ). count_where (in_thread k) db.messages) (sym ((==_iff r.id t).0 e))) old

-- Rows that are renamed keep their identifier and their counter.
name_thread-rows {κ} :
    (P : ℕ → ℕ → Type κ) (s : Option Text) (t : ℕ) (ts : List Thread)
    → All (λ r. P r.id r.message_count) ts
    → All (λ r. P r.id r.message_count) (name_thread s t ts)
unfolding name_thread
name_thread-rows P none t ts h = h
name_thread-rows P (some []) t ts h = h
name_thread-rows P (some (c ∷ cs)) t ts h =
    All-update_where (λ (r : Thread). P r.id r.message_count) _ _ ts (λ r _ p. p) h

-- Of the threads after the choice, each is the new one or an old one that was not merged away.
chosen-rows {κ} :
    (P : ℕ → ℕ → Type κ) (n : ℕ) (q : ThreadRequest) (matched : List ℕ) (db : MailDb)
    → All (λ r. elem r.id matched ≡ true ⊎ P r.id r.message_count) db.threads
    → All
        (λ r. (r.id == first_or n matched) ≡ true ⊎ P r.id r.message_count)
        (choose_thread n q matched db).1.threads
unfolding choose_thread merge_threads
chosen-rows P n q [] db h =
    All-append _ db.threads _
      (All-map _ (λ (r : Thread). (r.id == n) ≡ true ⊎ P r.id r.message_count) db.threads
        (λ r e. elim e [ inl x ↦ absurd (false≢true x) | inr p ↦ inr p ]) h)
      (inl (==_refl n), tt)
chosen-rows P n q (t ∷ []) db h =
    name_thread-rows (λ i c. (i == t) ≡ true ⊎ P i c) q.subject_norm t db.threads
      (All-map _ _ db.threads (λ r e. ground arith) h)
chosen-rows P n q (t ∷ o ∷ others) db h =
    name_thread-rows (λ i c. (i == t) ≡ true ⊎ P i c) q.subject_norm t _
      (All-after_delete (λ (r : Thread). (r.id == t) ≡ true ⊎ P r.id r.message_count) _ db.threads
        (All-map _ _ db.threads (λ r e out. ground arith) h))

-- What the messages of the account must be for the counters to stay exact: the message was in no
-- thread, or in one that matched.
abbrev pub LeavesNoThread : ThreadRequest → List ℕ → Message → Type 0
LeavesNoThread q matched m =
    (m.id == q.message_row_id) ≡ true → (m.thread_id ≡ none) ⊎ (opt_in m.thread_id matched ≡ true)

pub opt_eq-elem :
    (o : Option ℕ) (k : ℕ) (ks : List ℕ) → opt_in o ks ≡ true → opt_eq o k ≡ true → elem k ks ≡ true
opt_eq-elem o k ks h e = ground arith

-- A thread that was not matched and is not the result has the messages that it had.
unmatched_row :
    (q : ThreadRequest) (matched : List ℕ) (t k : ℕ) (m : Message)
    → LeavesNoThread q matched m
    → elem k matched ≡ false
    → (k == t) ≡ false
    → in_thread k (if joins q matched m then set_thread (some t) m else m) ≡ in_thread k m
unmatched_row q matched t k m leaves out ne = ground (arith, opt_eq-elem m.thread_id k matched)

settle-count :
    (n : ℕ) (q : ThreadRequest) (matched : List ℕ) (db : MailDb) (k : ℕ)
    → All (LeavesNoThread q matched) db.messages
    → elem k matched ≡ false
    → (k == first_or n matched) ≡ false
    → ((t : ℕ) (others : List ℕ) → matched ≡ t ∷ others → elem t others ≡ false)
    → count_where (in_thread k) (settle n q matched db).1.messages
      ≡ count_where (in_thread k) db.messages
settle-count n q matched db k leaves out ne distinct =
    rw (settle-messages n q matched db distinct) (
      count_where-map (in_thread k) _ db.messages
      ∙ count_where-ext _ (in_thread k) db.messages (
          All-map _ _ db.messages (λ m h. unmatched_row q matched (first_or n matched) k m h out ne)
            leaves))

pub chosen-first :
    (n : ℕ) (q : ThreadRequest) (matched : List ℕ) (db : MailDb)
    → (choose_thread n q matched db).0 ≡ first_or n matched
unfolding choose_thread
chosen-first n q [] db = refl
chosen-first n q (t ∷ others) db = refl

settle-HasCount :
    (n : ℕ) (q : ThreadRequest) (matched : List ℕ) (db : MailDb)
    → All
        (λ r.
          (elem r.id matched ≡ true)
          ⊎ (r.message_count ≡ count_where (in_thread r.id) (settle n q matched db).1.messages))
        db.threads
    → CountsExact (settle n q matched db).1
unfolding settle
settle-HasCount n q matched db h =
    let (t, chosen) = choose_thread n q matched db in
    refreshed-HasCount t q.internal_date (place_message q t chosen) (
      All-map _ _ chosen.threads
        (λ r e ne. elim e [
          | inl same ↦
              absurd (
                false≢true
                  (sym ne ∙ ap (λ (k : ℕ). r.id == k) (chosen-first n q matched db) ∙ same))
          | inr p ↦ p
        ])
        (chosen-rows (λ i c. c ≡ count_where (in_thread i) (settle n q matched db).1.messages) n q
          matched db h))

pub first_or-elem :
    (n k : ℕ) (matched : List ℕ)
    → k ≢ n
    → elem k matched ≡ false
    → (k == first_or n matched) ≡ false
first_or-elem n k [] ne out = ==_ne k n ne
first_or-elem n k (t ∷ ts) ne out = ground arith

-- If every thread shows the number of its messages, the new identifier is unused, and the message was
-- in no thread or in one that its references touch, then every thread shows the number of its
-- messages after `assign_thread`, whatever threads were merged.
pub assign_thread-CountsExact :
    (n : ℕ) (q : ThreadRequest) (db : MailDb)
    → CountsExact db
    → All (λ r. r.id ≢ n) db.threads
    → All (LeavesNoThread q (threads_referenced_by q.account_id (candidate_refs q) db)) db.messages
    → CountsExact (assign_thread n q db).1
unfolding assign_thread
assign_thread-CountsExact n q db exact fresh leaves =
    let matched : List ℕ = matched_threads q db in
    settle-HasCount n q matched db (
      All-map₂ _ _ _ db.threads
        (λ r old new. elim (Bool-cases (elem r.id matched)) [
          | inl e ↦ inl e
          | inr e ↦ inr (
              old
              ∙ sym (
                  settle-count n q matched db r.id leaves e (first_or-elem n r.id matched new e)
                    (matched-distinct q db)))
        ])
        exact fresh)
