-- ===== src/Store/Identity.antt =====
-- The identity of messages (src/lenovmail/sync/store.py, `ensure_dedup_hash`): when the body of a
-- message is fetched, its final hash may be that of another row, and then the two are merged.
pub mod Uniqueness
pub mod Merging
use mathlib.Core.Bool.{false≢true}
use mathlib.Core.Option
use mathlib.Core.Option.{some-injective, some-ne-none}
use lenovmail.Prelude.{
  ℕ, ◌≡◌, Bool, false, not, ◌&&◌, Option, none, some, List, [], ◌∷◌, map, ◌==◌, if◌then◌else◌, All,
  opt_eq,
}
use lenovmail.Table.{select_where, update_where}
use lenovmail.Models.{Message, MailboxMessage, MailDb}
use lenovmail.Store.Removal.{delete_messages}

-- The first row of a result.
abbrev pub first_row : List Message → Option Message
first_row [] = none
first_row (m ∷ ms) = some m

-- `Message.dedup_hash == desired, Message.id != message_row_id`
abbrev pub is_twin : ℕ → ℕ → Message → Bool
is_twin id desired m = m.dedup_hash == desired && not (m.id == id)

-- The hash of a row, if there is the row.
abbrev pub current_hash : ℕ → List Message → Option ℕ
current_hash id messages =
    Option.map (λ m. m.dedup_hash) (first_row (select_where (λ m. m.id == id) messages))

abbrev pub move_to : ℕ → ℕ → MailboxMessage → MailboxMessage
move_to id twin r = if r.message_id == id then record r { message_id = twin } else r

-- The row is merged into its twin.
merge_twin : ℕ → ℕ → MailDb → MailDb
unfolding delete_messages
merge_twin id twin db =
    delete_messages (λ m. m.id == id)
      (record db {
        placements =
            update_where (λ r. r.message_id == id) (λ r. record r { message_id = twin })
              db.placements;
      })

set_hash : ℕ → ℕ → MailDb → MailDb
set_hash id desired db = record db {
  messages = update_where (λ m. m.id == id) (λ m. record m { dedup_hash = desired }) db.messages;
}

merge_or_set : ℕ → ℕ → Option Message → MailDb → ℕ × MailDb
unfolding merge_twin set_hash
merge_or_set id desired (some twin) db = (twin.id, merge_twin id twin.id db)
merge_or_set id desired none db = (id, set_hash id desired db)

pub ensure_dedup_hash : ℕ → ℕ → MailDb → ℕ × MailDb
unfolding merge_or_set
ensure_dedup_hash id desired db =
    if opt_eq (current_hash id db.messages) desired
    then (id, db)
    else merge_or_set id desired (first_row (select_where (is_twin id desired) db.messages)) db

-- UNIQUE (account_id, dedup_hash)
abbrev pub same_identity : Message → Message → Bool
same_identity a b = a.account_id == b.account_id && a.dedup_hash == b.dedup_hash

abbrev pub IsUnique : List Message → Type 0
IsUnique [] = Unit
IsUnique (m ∷ ms) = All (λ n. same_identity m n ≡ false) ms × IsUnique ms
