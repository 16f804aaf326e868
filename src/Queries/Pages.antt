-- ===== src/Queries/Pages.antt =====
-- What a page holds (src/lenovmail/sync/queries.py, `list_messages`).
use lenovmail.Prelude.{
  ℕ, zero, suc, ◌+◌, ◌≤◌, ◌<◌, ◌≡◌, ◌⊎◌, inl, inr, Bool, true, false, not, ◌&&◌, ◌||◌, Option, none,
  some, List, [], ◌∷◌, arith, ltb, ◌==◌, Bool-cases, length, take, is_some, is_none, get_or, All,
  elem, opt_eq,
}
use lenovmail.Queries.{
  FoundValue, Query, Mailbox, Page, rows_and_next, folder_not_found, value_error, flag_is, seen_is,
  sort_date, cursor_of, is_after, of_thread, is_found, has_kind, is_wanted, is_newer, list_messages,
  on_any_placement, in_the_folder, repeat, joined, insert_newest, newest_first, unique_rows,
  page_of, folder_page, search_page,
}
use mathlib.Core.Bool.{false≢true}
use lenovmail.Table.{select_where, count_where, exists_where}
use lenovmail.Table.Laws.{select_where_sound, All-append}
use lenovmail.Table.Order.{All-take, length-take_le}
use lenovmail.Models.{Message, MailboxMessage}

module _ (P : Message → Type 0) where
  All-insert_newest :
      (m : Message) (ns : List Message) → P m → All P ns → All P (insert_newest m ns)
  unfolding insert_newest
  All-insert_newest m [] p h = (p, h)
  All-insert_newest m (n ∷ ns) p h = elim (Bool-cases (is_newer m n)) [
    | inl e ↦ rw e (p, h)
    | inr e ↦ rw e (h.0, All-insert_newest m ns p h.1)
  ]

  All-newest_first : (ms : List Message) → All P ms → All P (newest_first ms)
  unfolding newest_first
  All-newest_first [] h = h
  All-newest_first (m ∷ ms) h = All-insert_newest m (newest_first ms) h.0 (All-newest_first ms h.1)

  All-unique_rows : (seen : List ℕ) (ms : List Message) → All P ms → All P (unique_rows seen ms)
  unfolding unique_rows
  All-unique_rows seen [] h = h
  All-unique_rows seen (m ∷ ms) h = elim (Bool-cases (elem m.id seen)) [
    | inl e ↦ rw e (All-unique_rows seen ms h.1)
    | inr e ↦ rw e (h.0, All-unique_rows (m.id ∷ seen) ms h.1)
  ]

  -- The rows of a page, of which there are at most so many, have the property.
  abbrev pub PageOf : ℕ → Page → Type 0
  PageOf limit (rows_and_next rows next) = (length rows ≤ limit) × All P rows
  PageOf limit folder_not_found = Unit
  PageOf limit value_error = Unit

  page_of-PageOf : (limit : ℕ) (ms : List Message) → All P ms → PageOf limit (page_of limit ms)
  unfolding page_of
  page_of-PageOf limit ms h =
      let rows : _ = unique_rows [] (take (limit + 1) (newest_first ms)) in
      (
        length-take_le limit rows,
        All-take P limit rows (
            All-unique_rows [] (take (limit + 1) (newest_first ms))
              (All-take P (limit + 1) (newest_first ms) (All-newest_first ms h))),
      )

-- Some item of a list meets the predicate.
abbrev Any {ℓ} : {A : Type ℓ} → (A → Type 0) → List A → Type 0
Any P [] = ⊥
Any P (x ∷ xs) = P x ⊎ Any P xs

-- A filter that is not given asks nothing.
abbrev pub Given {ℓ} : {A : Type ℓ} → (A → Type 0) → Option A → Type 0
Given P none = Unit
Given P (some a) = P a

-- A value of one of the kinds was found in the message, where kinds are asked for.
abbrev HasKind : List ℕ → List FoundValue → ℕ → Type 0
HasKind [] values id = Unit
HasKind (k ∷ kinds) values id =
    Any (λ v. (v.message_id ≡ id) × (elem v.kind (k ∷ kinds) ≡ true)) values

-- The message comes after the cursor: it is older, or of the same date with a smaller id.
abbrev Follows : Message → ℕ × ℕ → Type 0
Follows m (stamp, last_id) =
    (get_or m.internal_date m.created_at < stamp)
    ⊎ ((get_or m.internal_date m.created_at ≡ stamp) × (m.id < last_id))

abbrev IsUnread : Bool → MailboxMessage → Type 0
IsUnread wanted r = not r.flags.seen ≡ wanted

abbrev IsFlagged : Bool → MailboxMessage → Type 0
IsFlagged wanted r = r.flags.flagged ≡ wanted

-- With a folder, one placement of the message in it meets both flag filters; without, each flag
-- filter has a placement of the message that meets it.
abbrev Placed : Query → List MailboxMessage → Option ℕ → ℕ → Type 0
Placed q placements (some folder) id =
    Any
      (λ r.
        (r.folder_id ≡ folder)
        × (r.message_id ≡ id)
        × Given (λ w. IsUnread w r) q.unread
        × Given (λ w. IsFlagged w r) q.flagged)
      placements
Placed q placements none id =
    Given (λ w. Any (λ r. (r.message_id ≡ id) × IsUnread w r) placements) q.unread
    × Given (λ w. Any (λ r. (r.message_id ≡ id) × IsFlagged w r) placements) q.flagged

-- What a caller asks of a message, filter by filter.
abbrev pub Meets : List ℕ → Query → Option ℕ → Mailbox → Message → Type 0
Meets accounts q folder b m =
    (elem m.account_id accounts ≡ true)
    × Given (λ w. m.display.has_attachments ≡ w) q.has_attachments
    × Given (λ t. m.thread_id ≡ some t) q.thread_id
    × Given (λ f. f m.id ≡ true) q.found
    × HasKind q.value_kinds b.values m.id
    × Given (Follows m) q.cursor
    × Placed q b.placements folder m.id

Any-exists_where {ℓ} :
    {A : Type ℓ} (P : A → Type 0) (p : A → Bool) (rs : List A)
    → ((r : A) → p r ≡ true → P r)
    → exists_where p rs ≡ true
    → Any P rs
unfolding exists_where
Any-exists_where P p [] sound h = false≢true h
Any-exists_where P p (r ∷ rs) sound h = elim (Bool-cases (p r)) [
  | inl e ↦ inl (sound r e)
  | inr e ↦ inr (Any-exists_where P p rs sound (rw e at h))
]

flag_is_sound :
    (wanted : Option Bool) (b : Bool) → flag_is wanted b ≡ true → Given (λ w. b ≡ w) wanted
flag_is_sound none b h = tt
flag_is_sound (some true) b h = h
flag_is_sound (some false) b h = ground arith

of_thread_sound :
    (thread : Option ℕ) (m : Message)
    → of_thread thread m ≡ true
    → Given (λ t. m.thread_id ≡ some t) thread
of_thread_sound none m h = tt
of_thread_sound (some t) m h = ground arith

is_found_sound :
    (found : Option (ℕ → Bool)) (m : Message)
    → is_found found m ≡ true
    → Given (λ f. f m.id ≡ true) found
is_found_sound none m h = tt
is_found_sound (some f) m h = h

has_kind_sound :
    (kinds : List ℕ) (values : List FoundValue) (m : Message)
    → has_kind kinds values m ≡ true
    → HasKind kinds values m.id
has_kind_sound [] values m h = tt
has_kind_sound (k ∷ kinds) values m h =
    Any-exists_where _ (λ v. v.message_id == m.id && elem v.kind (k ∷ kinds)) values
      (λ v e. (ground arith, ground arith)) h

is_after_sound :
    (cursor : Option (ℕ × ℕ)) (m : Message) → is_after cursor m ≡ true → Given (Follows m) cursor
is_after_sound none m h = tt
is_after_sound (some (stamp, last_id)) m h = elim (Bool-cases (ltb (sort_date m) stamp)) [
  | inl older ↦ inl (ground arith)
  | inr same ↦ inr (ground arith, ground arith)
]

Any-count_where {ℓ} :
    {A : Type ℓ} (P : A → Type 0) (p : A → Bool) (rs : List A)
    → ((r : A) → p r ≡ true → P r)
    → 0 < count_where p rs
    → Any P rs
unfolding count_where
Any-count_where P p [] sound h = absurd (omega (arith, h))
Any-count_where P p (r ∷ rs) sound h = elim (Bool-cases (p r)) [
  | inl e ↦ inl (sound r e)
  | inr e ↦ inr (Any-count_where P p rs sound (omega (arith, (rw e at h))))
]

placed_seen :
    (wanted : Option Bool) (id : ℕ) (rs : List MailboxMessage)
    → (is_none wanted || exists_where (λ r. r.message_id == id && seen_is wanted r.flags.seen) rs)
      ≡ true
    → Given (λ w. Any (λ r. (r.message_id ≡ id) × IsUnread w r) rs) wanted
placed_seen none id rs h = tt
placed_seen (some w) id rs h =
    Any-exists_where _ (λ r. r.message_id == id && seen_is (some w) r.flags.seen) rs
      (λ r e. (ground arith, flag_is_sound (some w) (not r.flags.seen) (ground arith))) h

placed_flagged :
    (wanted : Option Bool) (id : ℕ) (rs : List MailboxMessage)
    → (is_none wanted
        || exists_where (λ r. r.message_id == id && flag_is wanted r.flags.flagged) rs)
      ≡ true
    → Given (λ w. Any (λ r. (r.message_id ≡ id) × IsFlagged w r) rs) wanted
placed_flagged none id rs h = tt
placed_flagged (some w) id rs h =
    Any-exists_where _ (λ r. r.message_id == id && flag_is (some w) r.flags.flagged) rs
      (λ r e. (ground arith, flag_is_sound (some w) r.flags.flagged (ground arith))) h

Placed-on_any_placement :
    (q : Query) (b : Mailbox) (m : Message)
    → on_any_placement q b.placements m ≡ true
    → Placed q b.placements none m.id
unfolding on_any_placement
Placed-on_any_placement q b m h = (
  placed_seen q.unread m.id b.placements (ground arith),
  placed_flagged q.flagged m.id b.placements (ground arith),
)

placed_in_folder :
    (q : Query) (folder : ℕ) (m : Message) (r : MailboxMessage)
    → in_the_folder q folder m r ≡ true
    → (r.folder_id ≡ folder)
      × (r.message_id ≡ m.id)
      × Given (λ w. IsUnread w r) q.unread
      × Given (λ w. IsFlagged w r) q.flagged
unfolding in_the_folder
placed_in_folder q folder m r h = (
  ground arith,
  ground arith,
  flag_is_sound q.unread (not r.flags.seen) (ground arith),
  flag_is_sound q.flagged r.flags.flagged (ground arith),
)

is_wanted_sound :
    (accounts : List ℕ) (q : Query) (folder : Option ℕ) (b : Mailbox) (m : Message)
    → is_wanted accounts q b.values m ≡ true
    → Placed q b.placements folder m.id
    → Meets accounts q folder b m
unfolding is_wanted
is_wanted_sound accounts q folder b m h placed = (
  ground arith,
  flag_is_sound q.has_attachments m.display.has_attachments (ground arith),
  of_thread_sound q.thread_id m (ground arith),
  is_found_sound q.found m (ground arith),
  has_kind_sound q.value_kinds b.values m (ground arith),
  is_after_sound q.cursor m (ground arith),
  placed,
)

All-repeat : (P : Message → Type 0) (n : ℕ) (m : Message) → (0 < n → P m) → All P (repeat n m)
unfolding repeat
All-repeat P zero m p = tt
All-repeat P (suc n) m p = (p (omega arith), All-repeat P n m p')
  where
    p' : 0 < n → P m
    p' _ = p (omega arith)

-- A joined row has a placement that met the condition of the join.
joined-Meets :
    (accounts : List ℕ) (q : Query) (folder : ℕ) (b : Mailbox) (ms : List Message)
    → All (λ m. is_wanted accounts q b.values m ≡ true) ms
    → All (Meets accounts q (some folder) b) (joined q folder b.placements ms)
unfolding joined
joined-Meets accounts q folder b [] h = tt
joined-Meets accounts q folder b (m ∷ ms) h =
    All-append (Meets accounts q (some folder) b)
      (repeat (count_where (in_the_folder q folder m) b.placements) m)
      (joined q folder b.placements ms)
      (All-repeat _ (count_where (in_the_folder q folder m) b.placements) m (λ n.
        is_wanted_sound accounts q (some folder) b m h.0 (
          Any-count_where _ (in_the_folder q folder m) b.placements (placed_in_folder q folder m)
            n)))
      (joined-Meets accounts q folder b ms h.1)

searched-Meets :
    (accounts : List ℕ) (q : Query) (b : Mailbox) (ms : List Message)
    → All (λ m. is_wanted accounts q b.values m ≡ true) ms
    → All (Meets accounts q none b) (select_where (on_any_placement q b.placements) ms)
unfolding select_where
searched-Meets accounts q b [] h = tt
searched-Meets accounts q b (m ∷ ms) h = elim (Bool-cases (on_any_placement q b.placements m)) [
  | inl e ↦ rw e (
    is_wanted_sound accounts q none b m h.0 (Placed-on_any_placement q b m e),
    searched-Meets accounts q b ms h.1,
  )
  | inr e ↦ rw e (searched-Meets accounts q b ms h.1)
]

folder_page-Meets :
    (accounts : List ℕ) (q : Query) (folder : ℕ) (b : Mailbox)
    → PageOf (Meets accounts q (some folder) b) q.limit (folder_page accounts q folder b)
unfolding folder_page
folder_page-Meets [] q folder b = tt
folder_page-Meets (a ∷ c ∷ accounts) q folder b = tt
folder_page-Meets (a ∷ []) q folder b = elim (Bool-cases (opt_eq (b.folders folder) a)) [
  | inl e ↦ rw e (
      page_of-PageOf (Meets (a ∷ []) q (some folder) b) q.limit
        (joined q folder b.placements (select_where (is_wanted (a ∷ []) q b.values) b.messages))
        (joined-Meets (a ∷ []) q folder b (select_where (is_wanted (a ∷ []) q b.values) b.messages)
          (select_where_sound (is_wanted (a ∷ []) q b.values) b.messages)))
  | inr e ↦ rw e tt
]

search_page-Meets :
    (accounts : List ℕ) (q : Query) (folder : Option ℕ) (b : Mailbox)
    → PageOf (Meets accounts q folder b) q.limit (search_page accounts q folder b)
unfolding search_page
search_page-Meets accounts q (some folder) b = folder_page-Meets accounts q folder b
search_page-Meets accounts q none b =
    let wanted : _ = select_where (is_wanted accounts q b.values) b.messages in
    page_of-PageOf (Meets accounts q none b) q.limit
      (select_where (on_any_placement q b.placements) wanted)
      (searched-Meets accounts q b wanted
        (select_where_sound (is_wanted accounts q b.values) b.messages))

-- A page has at most `limit` messages. Each of them is in one of the accounts, has attachments or not
-- as asked, is in the thread asked for, among the messages found, has a value of a kind asked for
-- and is older than the cursor. With a folder, it has a placement in that folder which is read and
-- flagged as asked; without, for each of these two filters a placement that meets it.
pub list_messages_sound :
    (accounts : List ℕ) (q : Query) (b : Mailbox)
    → PageOf (Meets accounts q q.folder_id b) q.limit (list_messages accounts q b)
unfolding list_messages
list_messages_sound [] q b = (omega arith, tt)
list_messages_sound (a ∷ accounts) q b = search_page-Meets (a ∷ accounts) q q.folder_id b

-- The cursor of a message with an internal date, or without a sent date, continues the list exactly
-- behind it: a message passes the cursor if and only if it does not come before that one, nor is it.
pub cursor_of_exact :
    (m n : Message)
    → (is_some m.internal_date || is_none m.sent_date) ≡ true
    → is_after (some (cursor_of m)) n ≡ not (is_newer n m)
cursor_of_exact m n h = ground arith
