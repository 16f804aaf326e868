-- ===== src/Threads/LeftBehind.antt =====
-- What `assign_thread` (src/lenovmail/sync/threads.py) leaves behind: a thread that the references
-- of the message do not touch.
use mathlib.Core.Bool.{false≢true}
use mathlib.Core.List.{append-nil}
use lenovmail.Prelude.{
  ℕ, ◌+◌, ◌≡◌, refl, sym, ap, ◌∙◌, ◌≢◌, inl, inr, Bool, true, false, ◌&&◌, Option, none, some, List,
  [], ◌∷◌, ◌++◌, map, arith, ◌==◌, if◌then◌else◌, ==_iff, Bool-cases, elem,
}
use lenovmail.Table.{select_where, count_where}
use lenovmail.Table.Laws.{
  select-update_where_other, select-delete_where_other, select_where-append, select_where-none,
}
use lenovmail.Text.{Text}
use lenovmail.Models.{Message, Thread, MailDb}
use lenovmail.Threads.{
  threads_referenced_by, set_thread, merge_threads, refresh_thread_counters, ThreadRequest,
  candidate_refs, choose_thread, settle, assign_thread, name_thread,
}
use lenovmail.Threads.Merging.{joins, matched_threads, matched-distinct, first_or, settle-messages}
use lenovmail.Threads.Counters.{in_thread, opt_eq-elem, chosen-first, first_or-elem}

abbrev is_thread : ℕ → Thread → Bool
is_thread k r = r.id == k

eq_false : (a b k : ℕ) → (k == b) ≡ false → (a == b) ≡ true → (a == k) ≡ false
eq_false a b k h e = ground arith

elem-other : (a b : ℕ) (ks : List ℕ) → elem a ks ≡ true → elem b ks ≡ false → (a == b) ≡ false
elem-other a b ks h l = elim (Bool-cases (a == b)) [
  | inl e ↦ absurd (false≢true (sym l ∙ ap (λ (x : ℕ). elem x ks) (sym ((==_iff a b).0 e)) ∙ h))
  | inr e ↦ e
]

name_thread-select :
    (s : Option Text) (t k : ℕ) (ts : List Thread)
    → (k == t) ≡ false
    → select_where (is_thread k) (name_thread s t ts) ≡ select_where (is_thread k) ts
unfolding name_thread
name_thread-select none t k ts h = refl
name_thread-select (some []) t k ts h = refl
name_thread-select (some (c ∷ cs)) t k ts h =
    select-update_where_other _ _ _ ts (λ r e. ground arith)

chosen-select :
    (n : ℕ) (q : ThreadRequest) (matched : List ℕ) (db : MailDb) (k : ℕ)
    → elem k matched ≡ false
    → (k == first_or n matched) ≡ false
    → select_where (is_thread k) (choose_thread n q matched db).1.threads
      ≡ select_where (is_thread k) db.threads
unfolding choose_thread merge_threads
chosen-select n q [] db k out ne =
    select_where-append (is_thread k) db.threads _
    ∙ ap (λ (ts : List Thread). select_where (is_thread k) db.threads ++ ts)
        (select_where-none (is_thread k) _ (ground arith, tt))
    ∙ append-nil _
chosen-select n q (t ∷ []) db k out ne = name_thread-select q.subject_norm t k db.threads ne
chosen-select n q (t ∷ o ∷ others) db k out ne =
    name_thread-select q.subject_norm t k _ ne
    ∙ select-delete_where_other _ (is_thread k) db.threads
        (λ r e. elem-other r.id k (o ∷ others) e (ground arith))

settle-select :
    (n : ℕ) (q : ThreadRequest) (matched : List ℕ) (db : MailDb) (k : ℕ)
    → elem k matched ≡ false
    → (k == first_or n matched) ≡ false
    → select_where (is_thread k) (settle n q matched db).1.threads
      ≡ select_where (is_thread k) db.threads
unfolding settle refresh_thread_counters
settle-select n q matched db k out ne =
    select-update_where_other _ (is_thread k) _ _ (λ r e.
      let h : (r.id == k) ≡ false =
        eq_false r.id _ k (ap (λ (t : ℕ). k == t) (chosen-first n q matched db) ∙ ne) e in
      (h, h))
    ∙ chosen-select n q matched db k out ne

moved_one :
    (q : ThreadRequest) (matched : List ℕ) (t k : ℕ) (m : Message)
    → elem k matched ≡ false
    → (k == t) ≡ false
    → (if in_thread k (if joins q matched m then set_thread (some t) m else m) then 1 else 0)
        + (if m.id == q.message_row_id && in_thread k m then 1 else 0)
      ≡ (if in_thread k m then 1 else 0)
moved_one q matched t k m out ne = ground (arith, opt_eq-elem m.thread_id k matched)

moved-count :
    (q : ThreadRequest) (matched : List ℕ) (t k : ℕ) (ms : List Message)
    → elem k matched ≡ false
    → (k == t) ≡ false
    → count_where
          (in_thread k)
          (map (λ m. if joins q matched m then set_thread (some t) m else m) ms)
        + count_where (λ m. m.id == q.message_row_id && in_thread k m) ms
      ≡ count_where (in_thread k) ms
unfolding count_where
moved-count q matched t k [] out ne = refl
moved-count q matched t k (m ∷ ms) out ne =
    omega (arith, moved_one q matched t k m out ne, moved-count q matched t k ms out ne)

-- If the references of a message do not touch a thread `k` and the new thread has another identifier,
-- then one call does not write the row of `k`, and the messages in `k` lose exactly the message itself:
-- if that was in `k`, a counter that was exact before the call is too high by one after it.
pub assign_thread-left_behind :
    (n : ℕ) (q : ThreadRequest) (db : MailDb) (k : ℕ)
    → elem k (threads_referenced_by q.account_id (candidate_refs q) db) ≡ false
    → k ≢ n
    → let after = (assign_thread n q db).1 in
      (select_where (λ r. r.id == k) after.threads ≡ select_where (λ r. r.id == k) db.threads)
      × (count_where (in_thread k) after.messages
            + count_where (λ m. m.id == q.message_row_id && in_thread k m) db.messages
          ≡ count_where (in_thread k) db.messages)
unfolding assign_thread
assign_thread-left_behind n q db k out ne =
    let matched : List ℕ = matched_threads q db in
    let other : (k == first_or n matched) ≡ false = first_or-elem n k matched ne out in
    (
      settle-select n q matched db k out other,
      ap
            (λ (ms : List Message).
              count_where (in_thread k) ms
              + count_where (λ m. m.id == q.message_row_id && in_thread k m) db.messages)
            (settle-messages n q matched db (matched-distinct q db))
          ∙ moved-count q matched (first_or n matched) k db.messages out other,
    )
