-- ===== src/Imap.antt =====
-- IMAP: what the sync asks a server (src/lenovmail/providers/imap_ops.py). The connection is an
-- argument: each of its methods answers, or fails.
pub mod Chunks
pub mod Replies
pub mod Tables
pub mod Envelope
pub mod Headers
pub mod Cycle
use lenovmail.Prelude.{
  ℕ, Bool, Option, none, some, List, [], ◌∷◌, leb, ◌==◌, if◌then◌else◌, or_else,
}
use lenovmail.Table.{select_where}
use lenovmail.Table.Order.{order_by}
use lenovmail.Text.{Text}
use lenovmail.Imap.Chunks.{chunks_of}

-- `transient` is `MailTransientError`, `failed` any other exception; the text is what is recorded of it.
pub data Reply (A : Type 0) : Type 0 where
  got : A → Reply A
  transient failed : Text → Reply A

infixl 5 ◌>>=◌
abbrev pub ◌>>=◌ : {A B : Type 0} → Reply A → (A → Reply B) → Reply B
got a >>= f = f a
transient e >>= f = transient e
failed e >>= f = failed e

pub record SelectInfo : Type 0 where
  pub uidvalidity : Option ℕ
  pub uidnext : Option ℕ
  pub highestmodseq : Option ℕ

-- An entry of a FETCH response with UID and FLAGS; `key` is its key as a number, if it is one.
pub record FlagEntry : Type 0 where
  pub key : Option ℕ
  pub uid : Option ℕ
  pub flags : List Text

-- `_uid_of`
pub uid_of : FlagEntry → Option ℕ
uid_of e = or_else e.uid e.key

-- `out[uid] = ...`
pub set_entry : ℕ → List Text → List (ℕ × List Text) → List (ℕ × List Text)
set_entry uid flags [] = (uid, flags) ∷ []
set_entry uid flags (e ∷ out) =
    if e.0 == uid then (uid, flags) ∷ out else e ∷ set_entry uid flags out

abbrev enter : Option ℕ → List Text → List (ℕ × List Text) → List (ℕ × List Text)
enter none flags out = out
enter (some uid) flags out = set_entry uid flags out

pub collect_flags : List FlagEntry → List (ℕ × List Text) → List (ℕ × List Text)
unfolding uid_of set_entry
collect_flags [] out = out
collect_flags (e ∷ response) out = collect_flags response (enter (uid_of e) e.flags out)

-- The loop over the chunks, which asks `fetch` for each.
unfoldable pub collect_chunks :
    (List ℕ → Reply (List FlagEntry))
    → List (List ℕ)
    → List (ℕ × List Text)
    → Reply (List (ℕ × List Text))
unfolding collect_flags
collect_chunks fetch [] out = got out
collect_chunks fetch (c ∷ cs) out = do
  response ← fetch c
  collect_chunks fetch cs (collect_flags response out)

-- `UID_CHUNK`
abbrev pub uid_chunk : ℕ
uid_chunk = 5000

-- `fetch_all_flags`, and `fetch_flags_changed_since` with the modifier in `fetch`
pub fetch_flags : (List ℕ → Reply (List FlagEntry)) → List ℕ → Reply (List (ℕ × List Text))
unfolding collect_chunks chunks_of
fetch_flags fetch uids = collect_chunks fetch (chunks_of uid_chunk uids) []

-- `search_all_uids`
unfoldable pub search_all_uids : Reply (List ℕ) → Reply (List ℕ)
search_all_uids answer = do uids ← answer; got (order_by (λ u. u) uids)

-- `search_uids_since`; `UID n:*` names the last message also if nothing matches.
pub search_uids_since : (ℕ → Reply (List ℕ)) → ℕ → Reply (List ℕ)
search_uids_since search first_uid = do
  uids ← search first_uid
  got (select_where (λ u. leb first_uid u) (order_by (λ u. u) uids))

-- The capabilities of a server that the sync looks at.
pub record Caps : Type 0 where
  pub condstore : Bool
  pub can_move : Bool
  pub uidplus : Bool

-- The commands that `move` and `delete_message` send.
pub data Command : Type 0 where
  move_to copy_to : ℕ → Text → Command
  flag_deleted uid_expunge : ℕ → Command
  expunge : Command

-- `delete_message`
unfoldable pub delete_commands : Caps → ℕ → List Command
delete_commands caps uid =
    flag_deleted uid ∷ (if caps.uidplus then uid_expunge uid else expunge) ∷ []

-- `move`
unfoldable pub move_commands : Caps → ℕ → Text → List Command
unfolding delete_commands
move_commands caps uid destination =
    if caps.can_move
    then move_to uid destination ∷ []
    else copy_to uid destination ∷ delete_commands caps uid
