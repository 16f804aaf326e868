-- ===== src/Threads.antt =====
-- Conversation threads (src/lenovmail/sync/threads.py): the threads that a set of header references
-- touches, merging them, and assigning a message to one. Each function takes the tables and returns
-- them changed; the caller owns the transaction. The identifier of a new thread is an argument, since
-- the database draws it. Threads whose earliest dates are equal are taken in the order of their rows.
pub mod Groups
pub mod Merging
pub mod Counters
pub mod LeftBehind
pub mod Refs
pub mod Untouched
use lenovmail.Prelude.{
  ℕ, ◌+◌, max, Bool, ◌&&◌, Option, none, some, List, [], ◌∷◌, ◌++◌, map, ◌==◌, if◌then◌else◌,
  is_some, is_none, or_else, get_or, elem, opt_eq, opt_in,
}
use lenovmail.Table.{update_where, delete_where, count_where, exists_where}
use lenovmail.Text.{Text, text_eq, strip, is_empty, text_elem, add_text, sorted_texts}
use lenovmail.Models.{Message, Thread, MessageRef, MailDb}
use lenovmail.Threads.Groups.{group_by_thread, sort_groups}

-- A message of the account that is in a thread and has one of the references.
unfoldable pub mentions : List MessageRef → List Text → ℕ → Bool
mentions rows refs id = exists_where (λ r. r.message_id == id && text_elem r.ref refs) rows

unfoldable pub is_hit : ℕ → List MessageRef → List Text → Message → Bool
is_hit account rows refs m =
    m.account_id == account && is_some m.thread_id && mentions rows refs m.id

-- `_threads_referenced_by`: GROUP BY thread_id, ORDER BY min(internal_date) ASC NULLS LAST
unfoldable pub threads_referenced_by : ℕ → List Text → MailDb → List ℕ
unfolding is_hit mentions
threads_referenced_by account [] db = []
threads_referenced_by account (r ∷ refs) db =
    map (λ g. g.0) (sort_groups (group_by_thread (is_hit account db.refs (r ∷ refs)) db.messages))

abbrev pub set_thread : Option ℕ → Message → Message
set_thread t m = record m { thread_id = t }

-- `_merge_threads`. Deleting a thread sets the foreign key of its messages to null.
pub merge_threads : ℕ → List ℕ → MailDb → MailDb
merge_threads canonical [] db = db
merge_threads canonical (o ∷ others) db = record db {
  messages =
      update_where (λ m. opt_in m.thread_id (o ∷ others)) (set_thread none)
        (update_where (λ m. opt_in m.thread_id (o ∷ others)) (set_thread (some canonical))
          db.messages);
  threads = delete_where (λ t. elem t.id (o ∷ others)) db.threads;
}

-- max(coalesce(internal_date, created_at)) over the messages of a thread
pub last_date : ℕ → List Message → Option ℕ
last_date t [] = none
last_date t (m ∷ ms) =
    let later = last_date t ms in
    if opt_eq m.thread_id t
    then some (max (get_or m.internal_date m.created_at) (get_or later 0))
    else later

-- `_refresh_thread_counters`
pub refresh_thread_counters : ℕ → Option ℕ → MailDb → MailDb
unfolding last_date
refresh_thread_counters thread_id fallback_at db = record db {
  threads =
      update_where (λ t. t.id == thread_id)
        (λ t. record t {
          message_count = count_where (λ m. opt_eq m.thread_id thread_id) db.messages;
          last_message_at = or_else (last_date thread_id db.messages) fallback_at;
        })
        db.threads;
}

-- The keyword arguments of `assign_thread`.
pub record ThreadRequest : Type 0 where
  pub account_id : ℕ
  pub message_row_id : ℕ
  pub msg_id_header : Option Text
  pub refs : List Text
  pub subject_norm : Option Text
  pub internal_date : Option ℕ

-- `text or None`
abbrev pub or_none : Text → Option Text
or_none t = if is_empty t then none else some t

unfoldable pub own_ref : ThreadRequest → Option Text
unfolding is_empty strip
own_ref q = or_none (strip (get_or q.msg_id_header []))

abbrev add_own : Option Text → List Text → List Text
add_own none us = us
add_own (some own) us = add_text own us

unfoldable pub stripped_set : List Text → List Text
unfolding is_empty strip add_text
stripped_set [] = []
stripped_set (r ∷ rs) =
    let t = strip r in let rest = stripped_set rs in if is_empty t then rest else add_text t rest

unfoldable pub candidate_refs : ThreadRequest → List Text
unfolding own_ref stripped_set
candidate_refs q = add_own (own_ref q) (stripped_set q.refs)

-- `if subject_norm:` a name is given to a thread that has none
name_thread : Option Text → ℕ → List Thread → List Thread
name_thread none t ts = ts
name_thread (some []) t ts = ts
name_thread (some (c ∷ cs)) t ts =
    update_where (λ r. r.id == t && is_none r.subject_norm)
      (λ r. record r { subject_norm = some (c ∷ cs) }) ts

-- The thread of the message: the first that matched, with the others merged into it, or a new one.
pub choose_thread : ℕ → ThreadRequest → List ℕ → MailDb → ℕ × MailDb
unfolding merge_threads name_thread
choose_thread new_id q (t ∷ others) db =
    let merged = merge_threads t others db in
    (t, record merged { threads = name_thread q.subject_norm t merged.threads })
choose_thread new_id q [] db = (
  new_id,
  record db {
    threads =
        db.threads
        ++ record {
          id = new_id;
          account_id = q.account_id;
          subject_norm = q.subject_norm;
          last_message_at = q.internal_date;
          message_count = 0;
        }
          ∷ [];
  },
)

-- The rows of `message_refs` for the remaining references, numbered from `position`.
number_refs : ℕ → ℕ → List Text → List MessageRef
number_refs id position [] = []
number_refs id position (r ∷ rs) =
    record { message_id = id; position = position; ref = r } ∷ number_refs id (position + 1) rs

-- The message's own identifier stands first and is not repeated.
own_then : ℕ → Option Text → List Text → List MessageRef
unfolding number_refs
own_then id none candidates = number_refs id 0 candidates
own_then id (some own) candidates =
    record { message_id = id; position = 0; ref = own }
    ∷ number_refs id 1 (delete_where (λ r. text_eq r own) candidates)

pub ref_rows : ThreadRequest → List MessageRef
unfolding own_ref candidate_refs own_then sorted_texts
ref_rows q = own_then q.message_row_id (own_ref q) (sorted_texts (candidate_refs q))

rewrite_refs : ThreadRequest → List MessageRef → List MessageRef
unfolding ref_rows
rewrite_refs q rows = delete_where (λ r. r.message_id == q.message_row_id) rows ++ ref_rows q

place_message : ThreadRequest → ℕ → MailDb → MailDb
unfolding rewrite_refs
place_message q t db = record db {
  messages = update_where (λ m. m.id == q.message_row_id) (set_thread (some t)) db.messages;
  refs = rewrite_refs q db.refs;
}

-- `assign_thread` from the matched threads on.
pub settle : ℕ → ThreadRequest → List ℕ → MailDb → ℕ × MailDb
unfolding choose_thread place_message refresh_thread_counters
settle new_id q matched db =
    let (t, chosen) = choose_thread new_id q matched db in
    (t, refresh_thread_counters t q.internal_date (place_message q t chosen))

pub assign_thread : ℕ → ThreadRequest → MailDb → ℕ × MailDb
unfolding threads_referenced_by candidate_refs settle
assign_thread new_id q db =
    settle new_id q (threads_referenced_by q.account_id (candidate_refs q) db) db
