-- ===== src/Store/Flags.antt =====
-- Flags of placements (src/lenovmail/sync/store.py): one UPDATE for each combination of flags that a
-- server reported. A flag is a text of ASCII characters, an atom of the IMAP grammar.
pub mod Grouping
pub mod Rows
use mathlib.Core.Bool.{false≢true}
use lenovmail.Prelude.{
  ℕ, ◌+◌, ◌-◌, Bool, true, false, not, ◌&&◌, List, [], ◌∷◌, ◌++◌, map, leb, ◌==◌, if◌then◌else◌,
  opt_in,
}
use lenovmail.Table.{update_where, count_where}
use lenovmail.Text.{Text, codes, text_elem}
use lenovmail.Models.{Flags, MailboxMessage}

abbrev pub upper_char : ℕ → ℕ
upper_char c = if leb 97 c && leb c 122 then c - 32 else c

-- `str.upper` of an ASCII text
unfoldable pub upper : Text → Text
upper t = map upper_char t

-- `IMAP_FLAG_TO_COLUMN[name] in upper` for one name
unfoldable pub has_flag : Text → List Text → Bool
unfolding upper text_elem
has_flag name flags = text_elem name (map upper flags)

unfoldable pub flags_to_columns : List Text → Flags
unfolding has_flag
flags_to_columns flags = record {
  seen = has_flag (codes "\\SEEN") flags;
  flagged = has_flag (codes "\\FLAGGED") flags;
  answered = has_flag (codes "\\ANSWERED") flags;
  draft = has_flag (codes "\\DRAFT") flags;
  deleted = has_flag (codes "\\DELETED") flags;
}

abbrev pub bool_eq : Bool → Bool → Bool
bool_eq true b = b
bool_eq false b = not b

abbrev pub flags_eq : Flags → Flags → Bool
flags_eq f g =
    bool_eq f.seen g.seen
    && bool_eq f.flagged g.flagged
    && bool_eq f.answered g.answered
    && bool_eq f.draft g.draft
    && bool_eq f.deleted g.deleted

-- `grouped.setdefault(key, []).append(handle)`
pub add_to_group : Flags → ℕ → List (Flags × List ℕ) → List (Flags × List ℕ)
add_to_group key handle [] = (key, handle ∷ []) ∷ []
add_to_group key handle ((k, hs) ∷ groups) =
    if flags_eq k key
    then (k, hs ++ handle ∷ []) ∷ groups
    else (k, hs) ∷ add_to_group key handle groups

-- The loop of `_group_flags`, over the entries of the mapping.
pub group_flags_into : List (Flags × List ℕ) → List (ℕ × List Text) → List (Flags × List ℕ)
unfolding add_to_group flags_to_columns
group_flags_into grouped [] = grouped
group_flags_into grouped ((handle, flags) ∷ entries) =
    group_flags_into (add_to_group (flags_to_columns flags) handle grouped) entries

pub group_flags : List (ℕ × List Text) → List (Flags × List ℕ)
unfolding group_flags_into
group_flags entries = group_flags_into [] entries

-- The `filter_clause` of the IMAP path.
abbrev pub in_uids : ℕ → List ℕ → MailboxMessage → Bool
in_uids folder_id uids r = r.folder_id == folder_id && opt_in r.remote_uid uids

abbrev pub set_flags : Flags → MailboxMessage → MailboxMessage
set_flags f r = record r { flags = f }

-- `_update_flags_grouped` with the clause of the IMAP path: the rows, and the number of updates.
update_flags_grouped : ℕ → List (Flags × List ℕ) → List MailboxMessage → List MailboxMessage × ℕ
update_flags_grouped folder_id [] rows = (rows, 0)
update_flags_grouped folder_id ((key, uids) ∷ groups) rows =
    let (rest, n) =
      update_flags_grouped folder_id groups
        (update_where (in_uids folder_id uids) (set_flags key) rows) in
    (rest, count_where (in_uids folder_id uids) rows + n)

pub apply_flags_by_uid : ℕ → List (ℕ × List Text) → List MailboxMessage → List MailboxMessage × ℕ
unfolding group_flags update_flags_grouped
apply_flags_by_uid folder_id [] rows = (rows, 0)
apply_flags_by_uid folder_id (c ∷ changed) rows =
    update_flags_grouped folder_id (group_flags (c ∷ changed)) rows
