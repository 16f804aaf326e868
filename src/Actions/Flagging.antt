-- ===== src/Actions/Flagging.antt =====
-- Setting the flags of a message (src/lenovmail/sync/actions.py, `set_message_flags`): the local columns
-- first (src/lenovmail/sync/store.py, `set_flag_columns`), then the server.
use lenovmail.Prelude.{
  ℕ, ◌≡◌, refl, ◌∙◌, Bool, true, false, not, ◌&&◌, ◌||◌, Option, none, some, List, [], ◌∷◌, ◌++◌,
  arith, ◌==◌, if◌then◌else◌, is_none, get_or,
}
use lenovmail.Table.{update_where, count_where}
use lenovmail.Text.{Text, codes, text_eq, text_elem}
use lenovmail.Models.{Flags, MailboxMessage, MailDb}
use lenovmail.Store.Flags.{upper, has_flag, flags_to_columns, bool_eq}
use lenovmail.Imap.{Reply, got, transient, failed, ◌>>=◌}
use lenovmail.Actions.{
  FolderRow, Placement, placements_for_message, Call, open_client, get_connection,
  save_graph_tokens, select_folder, Provider, imap, graph,
}

-- `values(**values)`
pub with_flags : Option Bool → Option Bool → Flags → Flags
with_flags seen flagged f = record f {
  seen = get_or seen f.seen;
  flagged = get_or flagged f.flagged;
}

-- `set_flag_columns` with the columns that an action sets: the rows, and the number of updates.
pub set_flag_columns : ℕ → Option Bool → Option Bool → List MailboxMessage → List MailboxMessage × ℕ
unfolding with_flags
set_flag_columns message_id seen flagged rows =
    if is_none seen && is_none flagged then (rows, 0) else (
      update_where (λ r. r.message_id == message_id)
          (λ r. record r { flags = with_flags seen flagged r.flags }) rows,
      count_where (λ r. r.message_id == message_id) rows,
    )

-- `seen is not None and seen is wanted`
abbrev wants : Option Bool → Bool → Bool
wants none wanted = false
wants (some b) wanted = bool_eq b wanted

-- `_imap_flags`
pub imap_flags : Option Bool → Option Bool → Bool → List Text
imap_flags seen flagged wanted =
    (if wants seen wanted then codes "\\Seen" ∷ [] else [])
    ++ (if wants flagged wanted then codes "\\Flagged" ∷ [] else [])

-- The flag calls of an action: `add_flags`, `remove_flags` and `patch_message`.
pub data FlagCall : Type 0 where
  other_call : Call → FlagCall
  add_flags remove_flags : ℕ → List Text → FlagCall
  patch_message : ℕ → Option Bool → Option Bool → FlagCall

-- `ops.set_flags`
abbrev if_any : List Text → FlagCall → List FlagCall
if_any [] c = []
if_any (_ ∷ _) c = c ∷ []

pub flag_calls : Provider → Option Bool → Option Bool → Placement → List FlagCall
unfolding imap_flags
flag_calls imap seen flagged p = elim p.remote_uid [
  | none ↦ []
  | some uid ↦
      other_call get_connection
      ∷ other_call (select_folder p.folder_path)
      ∷ (if_any (imap_flags seen flagged true) (add_flags uid (imap_flags seen flagged true))
          ++ if_any (imap_flags seen flagged false)
              (remove_flags uid (imap_flags seen flagged false)))
]
flag_calls graph seen flagged p = elim p.remote_item_id [
  | none ↦ []
  | some item ↦ patch_message item seen flagged ∷ []
]

push_each :
    (FlagCall → Reply Unit) → Provider → Option Bool → Option Bool → List Placement → Reply Unit
unfolding flag_calls
push_each world provider seen flagged [] = got tt
push_each world provider seen flagged (p ∷ ps) = do
  _ ← send_flags (flag_calls provider seen flagged p)
  push_each world provider seen flagged ps
  where
    send_flags : List FlagCall → Reply Unit
    send_flags [] = got tt
    send_flags (c ∷ cs) = do _ ← world c; send_flags cs

-- The calls after the commit.
push_flags :
    (FlagCall → Reply Unit) → Provider → Option Bool → Option Bool → List Placement → Reply Unit
unfolding push_each
push_flags world imap seen flagged ps = do
  _ ← world (other_call open_client)
  push_each world imap seen flagged ps
push_flags world graph seen flagged ps = do
  _ ← world (other_call open_client)
  _ ← push_each world graph seen flagged ps
  world (other_call save_graph_tokens)

pub data FlagEnd : Type 0 where
  no_message : FlagEnd
  updated : ℕ → FlagEnd
  push_raised : Text → FlagEnd

abbrev ended_with : ℕ → Reply Unit → FlagEnd
ended_with n (got _) = updated n
ended_with n (transient e) = push_raised e
ended_with n (failed e) = push_raised e

abbrev set_on :
    (FlagCall → Reply Unit)
    → Provider
    → ℕ
    → Option Bool
    → Option Bool
    → List Placement
    → MailDb
    → FlagEnd × MailDb
set_on world provider message_id seen flagged [] db = (no_message, db)
set_on world provider message_id seen flagged (p ∷ ps) db =
    let (rows, n) = set_flag_columns message_id seen flagged db.placements in
    (
      ended_with n (push_flags world provider seen flagged (p ∷ ps)),
      record db { placements = rows },
    )

pub set_message_flags :
    (FlagCall → Reply Unit)
    → Provider
    → ℕ
    → ℕ
    → Option Bool
    → Option Bool
    → List FolderRow
    → MailDb
    → FlagEnd × MailDb
unfolding push_flags set_flag_columns placements_for_message
set_message_flags world provider account_id message_id seen flagged folders db =
    set_on world provider message_id seen flagged
      (placements_for_message account_id message_id folders db.placements) db

-- STORE +FLAGS and then STORE -FLAGS on the flags of a message, as IMAP defines them.
abbrev pub IsStoring : (List Text → List Text → List Text → List Text) → Type 0
IsStoring store =
    (name : Text) (before added removed : List Text)
    → has_flag name (store before added removed)
      ≡ ((has_flag name before || has_flag name added) && not (has_flag name removed))

-- What is sent has the effect that the local columns already have.
columns_agree :
    (seen flagged : Option Bool) (f : Flags)
    → (((f.seen || has_flag (codes "\\SEEN") (imap_flags seen flagged true))
          && not (has_flag (codes "\\SEEN") (imap_flags seen flagged false)))
        ≡ get_or seen f.seen)
      × (((f.flagged || has_flag (codes "\\FLAGGED") (imap_flags seen flagged true))
            && not (has_flag (codes "\\FLAGGED") (imap_flags seen flagged false)))
          ≡ get_or flagged f.flagged)
      × (((f.answered || has_flag (codes "\\ANSWERED") (imap_flags seen flagged true))
            && not (has_flag (codes "\\ANSWERED") (imap_flags seen flagged false)))
          ≡ f.answered)
      × (((f.draft || has_flag (codes "\\DRAFT") (imap_flags seen flagged true))
            && not (has_flag (codes "\\DRAFT") (imap_flags seen flagged false)))
          ≡ f.draft)
      × (((f.deleted || has_flag (codes "\\DELETED") (imap_flags seen flagged true))
            && not (has_flag (codes "\\DELETED") (imap_flags seen flagged false)))
          ≡ f.deleted)
unfolding imap_flags has_flag upper text_elem text_eq
columns_agree none none f = (ground arith, ground arith, ground arith, ground arith, ground arith)
columns_agree none (some true) f =
    (ground arith, ground arith, ground arith, ground arith, ground arith)
columns_agree none (some false) f =
    (ground arith, ground arith, ground arith, ground arith, ground arith)
columns_agree (some true) none f =
    (ground arith, ground arith, ground arith, ground arith, ground arith)
columns_agree (some true) (some true) f =
    (ground arith, ground arith, ground arith, ground arith, ground arith)
columns_agree (some true) (some false) f =
    (ground arith, ground arith, ground arith, ground arith, ground arith)
columns_agree (some false) none f =
    (ground arith, ground arith, ground arith, ground arith, ground arith)
columns_agree (some false) (some true) f =
    (ground arith, ground arith, ground arith, ground arith, ground arith)
columns_agree (some false) (some false) f =
    (ground arith, ground arith, ground arith, ground arith, ground arith)

-- If STORE adds and removes flags as IMAP defines it, then the columns of the flags that the message has
-- on the server after the calls are the columns that were written locally: the wanted values of the
-- two flags, and the others as before.
pub imap_flags-agree :
    (store : List Text → List Text → List Text → List Text) (seen flagged : Option Bool)
    (before : List Text)
    → IsStoring store
    → flags_to_columns (store before (imap_flags seen flagged true) (imap_flags seen flagged false))
      ≡ with_flags seen flagged (flags_to_columns before)
unfolding flags_to_columns with_flags
imap_flags-agree store seen flagged before stores =
    let add : _ = imap_flags seen flagged true in
    let cut : _ = imap_flags seen flagged false in
    let (a, b, c, d, e) = columns_agree seen flagged (flags_to_columns before) in
    rw
      (
        stores (codes "\\SEEN") before add cut ∙ a,
        stores (codes "\\FLAGGED") before add cut ∙ b,
        stores (codes "\\ANSWERED") before add cut ∙ c,
        stores (codes "\\DRAFT") before add cut ∙ d,
        stores (codes "\\DELETED") before add cut ∙ e,
      )
      refl
