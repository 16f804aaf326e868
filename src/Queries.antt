-- ===== src/Queries.antt =====
-- Reading messages (src/lenovmail/sync/queries.py): one page of the newest messages, for the web client
-- and the agents. The full-text search is Postgres' and an argument. The cursor is the pair that its
-- text encodes.
pub mod Pages
pub mod Cursor
use lenovmail.Prelude.{
  ℕ, zero, suc, ◌+◌, Bool, true, false, not, ◌&&◌, ◌||◌, Option, none, some, List, [], ◌∷◌, ◌++◌,
  ltb, leb, ◌==◌, if◌then◌else◌, length, take, is_none, or_else, get_or, elem, opt_eq,
}
use lenovmail.Table.{select_where, count_where, exists_where}
use lenovmail.Models.{Message, MailboxMessage}

-- A row of `message_values`: a value of a kind was found in the message.
pub record FoundValue : Type 0 where
  pub message_id : ℕ
  pub kind : ℕ

-- The keyword arguments of `list_messages`; `found` is the match of `q`, if it is not empty.
pub record Query : Type 0 where
  pub folder_id : Option ℕ
  pub found : Option (ℕ → Bool)
  pub unread : Option Bool
  pub flagged : Option Bool
  pub has_attachments : Option Bool
  pub thread_id : Option ℕ
  pub value_kinds : List ℕ
  pub limit : ℕ
  pub cursor : Option (ℕ × ℕ)

pub record Mailbox : Type 0 where
  pub messages : List Message
  pub placements : List MailboxMessage
  pub values : List FoundValue
  -- the account of a folder
  pub folders : ℕ → Option ℕ

pub data Page : Type 0 where
  rows_and_next : List Message → Option (ℕ × ℕ) → Page
  folder_not_found value_error : Page

-- `column IS wanted`, where the filter is given
abbrev pub flag_is : Option Bool → Bool → Bool
flag_is none b = true
flag_is (some true) b = b
flag_is (some false) b = not b

-- `flag_seen IS NOT unread`
abbrev pub seen_is : Option Bool → Bool → Bool
seen_is unread seen = flag_is unread (not seen)

-- coalesce(internal_date, created_at)
abbrev pub sort_date : Message → ℕ
sort_date m = get_or m.internal_date m.created_at

-- `encode_cursor`
abbrev pub cursor_of : Message → ℕ × ℕ
cursor_of m = (get_or (or_else m.internal_date m.sent_date) m.created_at, m.id)

abbrev pub is_after : Option (ℕ × ℕ) → Message → Bool
is_after none m = true
is_after (some (stamp, last_id)) m =
    ltb (sort_date m) stamp || (sort_date m == stamp && ltb m.id last_id)

abbrev pub of_thread : Option ℕ → Message → Bool
of_thread none m = true
of_thread (some t) m = opt_eq m.thread_id t

abbrev pub is_found : Option (ℕ → Bool) → Message → Bool
is_found none m = true
is_found (some f) m = f m.id

abbrev pub has_kind : List ℕ → List FoundValue → Message → Bool
has_kind [] values m = true
has_kind (k ∷ kinds) values m =
    exists_where (λ v. v.message_id == m.id && elem v.kind (k ∷ kinds)) values

-- The conditions that do not look at placements.
pub is_wanted : List ℕ → Query → List FoundValue → Message → Bool
is_wanted accounts q values m =
    elem m.account_id accounts
    && flag_is q.has_attachments m.display.has_attachments
    && of_thread q.thread_id m
    && is_found q.found m
    && has_kind q.value_kinds values m
    && is_after q.cursor m

-- Without a folder: EXISTS, for each flag by itself.
on_any_placement : Query → List MailboxMessage → Message → Bool
on_any_placement q placements m =
    (is_none q.unread
      || exists_where (λ r. r.message_id == m.id && seen_is q.unread r.flags.seen) placements)
    && (is_none q.flagged
        || exists_where (λ r. r.message_id == m.id && flag_is q.flagged r.flags.flagged) placements)

-- With a folder: a join, which has a row for each placement.
in_the_folder : Query → ℕ → Message → MailboxMessage → Bool
in_the_folder q folder m r =
    r.folder_id == folder
    && r.message_id == m.id
    && seen_is q.unread r.flags.seen
    && flag_is q.flagged r.flags.flagged

repeat : ℕ → Message → List Message
repeat zero m = []
repeat (suc n) m = m ∷ repeat n m

joined : Query → ℕ → List MailboxMessage → List Message → List Message
unfolding in_the_folder repeat
joined q folder placements [] = []
joined q folder placements (m ∷ ms) =
    repeat (count_where (in_the_folder q folder m) placements) m ++ joined q folder placements ms

-- ORDER BY date DESC, id DESC
abbrev pub is_newer : Message → Message → Bool
is_newer a b = ltb (sort_date b) (sort_date a) || (sort_date a == sort_date b && leb b.id a.id)

insert_newest : Message → List Message → List Message
insert_newest m [] = m ∷ []
insert_newest m (n ∷ ns) = if is_newer m n then m ∷ n ∷ ns else n ∷ insert_newest m ns

newest_first : List Message → List Message
unfolding insert_newest
newest_first [] = []
newest_first (m ∷ ms) = insert_newest m (newest_first ms)

-- `.unique()`: a row that came before is dropped.
unique_rows : List ℕ → List Message → List Message
unique_rows seen [] = []
unique_rows seen (m ∷ ms) =
    let again = unique_rows seen ms in
    let first = unique_rows (m.id ∷ seen) ms in if elem m.id seen then again else m ∷ first

last_row : List Message → Option Message
last_row [] = none
last_row (m ∷ []) = some m
last_row (m ∷ n ∷ ms) = last_row (n ∷ ms)

-- The page of the selected rows.
page_of : ℕ → List Message → Page
unfolding newest_first unique_rows last_row
page_of limit selected =
    let rows = unique_rows [] (take (limit + 1) (newest_first selected)) in
    rows_and_next (take limit rows) (
      if ltb limit (length rows)
      then elim (last_row (take limit rows)) [ none ↦ none | some m ↦ some (cursor_of m) ]
      else none)

-- The branch with a folder, which needs exactly one account, the folder's.
folder_page : List ℕ → Query → ℕ → Mailbox → Page
unfolding page_of joined is_wanted
folder_page (account ∷ []) q folder b =
    if opt_eq (b.folders folder) account
    then page_of q.limit (
        joined q folder b.placements
          (select_where (is_wanted (account ∷ []) q b.values) b.messages))
    else folder_not_found
folder_page accounts q folder b = value_error

search_page : List ℕ → Query → Option ℕ → Mailbox → Page
unfolding page_of is_wanted on_any_placement folder_page
search_page accounts q (some folder) b = folder_page accounts q folder b
search_page accounts q none b = page_of q.limit (
    select_where (on_any_placement q b.placements)
      (select_where (is_wanted accounts q b.values) b.messages))

pub list_messages : List ℕ → Query → Mailbox → Page
unfolding search_page
list_messages [] q b = rows_and_next [] none
list_messages (a ∷ accounts) q b = search_page (a ∷ accounts) q q.folder_id b
