-- ===== src/Threads/Merging.antt =====
-- Where `assign_thread` (src/lenovmail/sync/threads.py) leaves the messages of the account.
use lenovmail.Prelude.{
  ℕ, ◌≡◌, refl, sym, ap, ap₂, ◌∙◌, inl, inr, Bool, true, false, ◌||◌, Option, none, some, List, [],
  ◌∷◌, map, arith, ◌==◌, if◌then◌else◌, Bool-cases, elem, opt_in,
}
use lenovmail.Table.{update_where}
use lenovmail.Text.{Text}
use lenovmail.Models.{Message, MailDb}
use lenovmail.Threads.Groups.{groups-IsDistinct, head-not_in_tail}
use lenovmail.Threads.{
  is_hit, threads_referenced_by, set_thread, ThreadRequest, candidate_refs, settle, assign_thread,
}

-- The message itself, and every message of a thread that the references touch.
abbrev pub joins : ThreadRequest → List ℕ → Message → Bool
joins q matched m = m.id == q.message_row_id || opt_in m.thread_id matched

abbrev pub matched_threads : ThreadRequest → MailDb → List ℕ
matched_threads q db = threads_referenced_by q.account_id (candidate_refs q) db

abbrev merged_row : ℕ → List ℕ → Message → Message
merged_row t others m = if opt_in m.thread_id others then set_thread (some t) m else m

abbrev unlinked_row : List ℕ → Message → Message
unlinked_row others m = if opt_in m.thread_id others then set_thread none m else m

set_thread_self : (t : ℕ) (m : Message) → m.thread_id ≡ some t → set_thread (some t) m ≡ m
set_thread_self t m e = ap (λ o. set_thread o m) (sym e)

opt_in_tail : (o : Option ℕ) (t : ℕ) (ts : List ℕ) → opt_in o ts ≡ true → opt_in o (t ∷ ts) ≡ true
opt_in_tail o t ts h = ground arith

opt_in_head :
    (o : Option ℕ) (t : ℕ) (ts : List ℕ)
    → opt_in o ts ≡ false
    → opt_in o (t ∷ ts) ≡ true
    → o ≡ some t
opt_in_head o t ts h k = ground arith

-- Merging and unlinking a row is moving it to the canonical thread.
unlinked-merged :
    (t : ℕ) (others : List ℕ) (m : Message)
    → elem t others ≡ false
    → unlinked_row others (merged_row t others m)
      ≡ (if opt_in m.thread_id (t ∷ others) then set_thread (some t) m else m)
unlinked-merged t others m h = elim (Bool-cases (opt_in m.thread_id others)) [
  | inl e ↦ rw (opt_in_tail m.thread_id t others e) (rw e (rw h))
  | inr e ↦ elim (Bool-cases (opt_in m.thread_id (t ∷ others))) [
    | inl k ↦ rw k (rw e (rw e (sym (set_thread_self t m (opt_in_head m.thread_id t others e k)))))
    | inr k ↦ rw k (rw e (rw e))
  ]
]

-- The update of the message itself after the merge.
placed_row :
    (b c : Bool) (t : ℕ) (m : Message) (row : ℕ)
    → (m.id == row) ≡ b
    → let moved = if c then set_thread (some t) m else m in
      (if moved.id == row then set_thread (some t) moved else moved)
      ≡ (if b || c then set_thread (some t) m else m)
placed_row true true t m row e = rw e
placed_row true false t m row e = rw e
placed_row false true t m row e = rw e
placed_row false false t m row e = rw e

merge-rows :
    (q : ThreadRequest) (t : ℕ) (others : List ℕ) (ms : List Message)
    → elem t others ≡ false
    → update_where
        (λ m. m.id == q.message_row_id)
        (set_thread (some t))
        (update_where
          (λ m. opt_in m.thread_id others)
          (set_thread none)
          (update_where (λ m. opt_in m.thread_id others) (set_thread (some t)) ms))
      ≡ map (λ m. if joins q (t ∷ others) m then set_thread (some t) m else m) ms
unfolding update_where
merge-rows q t others [] h = refl
merge-rows q t others (m ∷ ms) h =
    ap₂ ◌∷◌
      (ap (λ (r : Message). if r.id == q.message_row_id then set_thread (some t) r else r)
          (unlinked-merged t others m h)
        ∙ placed_row _ (opt_in m.thread_id (t ∷ others)) t m q.message_row_id refl)
      (merge-rows q t others ms h)

-- No thread is matched twice.
pub matched-distinct :
    (q : ThreadRequest) (db : MailDb) (t : ℕ) (others : List ℕ)
    → matched_threads q db ≡ t ∷ others
    → elem t others ≡ false
unfolding threads_referenced_by
matched-distinct q db t others e = go (candidate_refs q) e
  where
    go :
        (refs : List Text)
        → threads_referenced_by q.account_id refs db ≡ t ∷ others
        → elem t others ≡ false
    go [] p = cc
    go (r ∷ rs) p =
        head-not_in_tail t others _
          (groups-IsDistinct (is_hit q.account_id db.refs (r ∷ rs)) db.messages) p

-- The canonical thread: the first that matched, or the new one.
abbrev pub first_or : ℕ → List ℕ → ℕ
first_or d [] = d
first_or d (t ∷ _) = t

update-new :
    (q : ThreadRequest) (t : ℕ) (ms : List Message)
    → update_where (λ m. m.id == q.message_row_id) (set_thread (some t)) ms
      ≡ map (λ m. if joins q [] m then set_thread (some t) m else m) ms
unfolding update_where
update-new q t [] = refl
update-new q t (m ∷ ms) = ap₂ ◌∷◌ (ground arith) (update-new q t ms)

update-nothing :
    (f : Message → Message) (ms : List Message)
    → update_where (λ m. opt_in m.thread_id []) f ms ≡ ms
unfolding update_where
update-nothing f [] = refl
update-nothing f (m ∷ ms) = ap₂ ◌∷◌ (ground arith) (update-nothing f ms)

pub settle-messages :
    (n : ℕ) (q : ThreadRequest) (matched : List ℕ) (db : MailDb)
    → ((t : ℕ) (others : List ℕ) → matched ≡ t ∷ others → elem t others ≡ false)
    → (settle n q matched db).1.messages
      ≡ map
          (λ m. if joins q matched m then set_thread (some (first_or n matched)) m else m)
          db.messages
unfolding settle
settle-messages n q [] db h = update-new q n db.messages
settle-messages n q (t ∷ []) db h =
    sym (
      ap
        (λ (ms : List Message).
          update_where (λ m. m.id == q.message_row_id) (set_thread (some t)) ms)
        (update-nothing (set_thread none) _ ∙ update-nothing (set_thread (some t)) db.messages))
    ∙ merge-rows q t [] db.messages refl
settle-messages n q (t ∷ o ∷ others) db h =
    merge-rows q t (o ∷ others) db.messages (h t (o ∷ others) refl)

pub settle-first :
    (n : ℕ) (q : ThreadRequest) (matched : List ℕ) (db : MailDb)
    → (settle n q matched db).0 ≡ first_or n matched
unfolding settle
settle-first n q [] db = refl
settle-first n q (t ∷ others) db = refl

-- `assign_thread` returns the first matched thread, or the new one if none matched, and moves to it
-- the message itself and exactly the messages whose thread was matched; every other message keeps
-- its thread, and no other column changes.
pub assign_thread-messages :
    (n : ℕ) (q : ThreadRequest) (db : MailDb)
    → let (t, after) = assign_thread n q db in
      let matched = threads_referenced_by q.account_id (candidate_refs q) db in
      (t ≡ first_or n matched)
      × (after.messages
          ≡ map (λ m. if joins q matched m then set_thread (some t) m else m) db.messages)
unfolding assign_thread
assign_thread-messages n q db =
    let matched : List ℕ = matched_threads q db in
    let first : (settle n q matched db).0 ≡ first_or n matched = settle-first n q matched db in
    (
      first,
      settle-messages n q matched db (matched-distinct q db)
          ∙ ap
              (λ (t : ℕ).
                map (λ m. if joins q matched m then set_thread (some t) m else m) db.messages)
              (sym first),
    )
