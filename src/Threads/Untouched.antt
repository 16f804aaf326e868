-- ===== src/Threads/Untouched.antt =====
-- What `assign_thread` (src/lenovmail/sync/threads.py) leaves alone.
use lenovmail.Prelude.{ℕ, ◌≡◌, refl, List, [], ◌∷◌}
use lenovmail.Models.{MailDb}
use lenovmail.Threads.{
  threads_referenced_by, merge_threads, refresh_thread_counters, ThreadRequest, candidate_refs,
  choose_thread, settle, assign_thread, place_message,
}

settle-placements :
    (n : ℕ) (q : ThreadRequest) (matched : List ℕ) (db : MailDb)
    → (settle n q matched db).1.placements ≡ db.placements
unfolding settle choose_thread refresh_thread_counters place_message merge_threads
settle-placements n q [] db = refl
settle-placements n q (t ∷ []) db = refl
settle-placements n q (t ∷ o ∷ others) db = refl

pub assign_thread-placements :
    (n : ℕ) (q : ThreadRequest) (db : MailDb) → (assign_thread n q db).1.placements ≡ db.placements
unfolding assign_thread
assign_thread-placements n q db =
    settle-placements n q (threads_referenced_by q.account_id (candidate_refs q) db) db
