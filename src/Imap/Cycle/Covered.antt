-- ===== src/Imap/Cycle/Covered.antt =====
-- The cycle of src/lenovmail/sync/imap_sync.py (`sync_folder`) against the list of UIDs of its server,
-- and the cursor UIDNEXT, from which the next search starts.
use lenovmail.Imap.Replies.{bind-got, from_got}
use lenovmail.Imap.Tables.{Kind, full_kind, incremental_kind, SyncStats, SyncDb, Server, Job}
use lenovmail.Prelude.{
  ℕ, zero, suc, ◌≡◌, refl, sym, ap, ap₂, ◌∙◌, inl, inr, Bool, true, false, not, ◌&&◌, ◌||◌, Option,
  none, some, List, arith, leb, ◌==◌, if◌then◌else◌, ==_iff, ==_refl, Bool-cases, is_none, get_or,
  elem,
}
use lenovmail.Table.Order.{order_by}
use lenovmail.Imap.{Reply, got, transient, failed, SelectInfo, search_uids_since}
use lenovmail.Imap.Cycle.{
  is_reset, forget_folder, find_new, is_refresh, move_cursor, kind_of, try_folder, SyncEnd, synced,
  reached_kind, settle_folder, sync_folder,
}
use lenovmail.Imap.Cycle.Steps.{IsFaithful}
use lenovmail.Imap.Cycle.Uids.{elem-order_by, elem-select_where, forget_folder-uids}
use lenovmail.Imap.Cycle.Mirror.{uids_in, run_cycle-uids}

-- A search from a UID on finds what the list of all UIDs has from there on.
abbrev pub IsConsistent : Server → List ℕ → Type 0
IsConsistent server listed =
    (first : ℕ) (answered : List ℕ)
    → server.search_since first ≡ got answered
    → (uid : ℕ) → (elem uid answered && leb first uid) ≡ (elem uid listed && leb first uid)

find_since-uids :
    (server : Server) (listed : List ℕ) (first : ℕ) (new_uids : List ℕ)
    → IsConsistent server listed
    → search_uids_since server.search_since first ≡ got new_uids
    → (uid : ℕ) → elem uid new_uids ≡ (elem uid listed && leb first uid)
unfolding search_uids_since
find_since-uids server listed first new_uids consistent h uid =
    let (answered, asked, h₁) = bind-got (server.search_since first) _ new_uids h in
    ap (λ r. elem uid (from_got new_uids r)) (sym h₁)
    ∙ elem-select_where uid (λ u. leb first u) (order_by (λ u. u) answered)
    ∙ ap (λ b. b && leb first uid) (elem-order_by uid answered)
    ∙ consistent first answered asked uid

-- The new UIDs are those that are listed from the cursor on, or all.
find_new-uids :
    (server : Server) (whole : Bool) (listed : List ℕ) (uidnext : Option ℕ) (new_uids : List ℕ)
    → IsConsistent server listed
    → find_new server whole (order_by (λ u. u) listed) uidnext ≡ got new_uids
    → (uid : ℕ) → elem uid new_uids ≡ (elem uid listed && (whole || leb (get_or uidnext 0) uid))
unfolding find_new
find_new-uids server true listed uidnext new_uids consistent h uid =
    ap (λ r. elem uid (from_got new_uids r)) (sym h) ∙ elem-order_by uid listed ∙ ground arith
find_new-uids server false listed none new_uids consistent h uid =
    ap (λ r. elem uid (from_got new_uids r)) (sym h) ∙ elem-order_by uid listed ∙ ground arith
find_new-uids server false listed (some zero) new_uids consistent h uid =
    ap (λ r. elem uid (from_got new_uids r)) (sym h) ∙ elem-order_by uid listed ∙ ground arith
find_new-uids server false listed (some (suc n)) new_uids consistent h uid =
    find_since-uids server listed (suc n) new_uids consistent h uid

settle_folder-synced :
    (job : Job) (kind : Kind) (db : SyncDb) (r : Reply (SyncStats × SyncDb)) (stats : SyncStats)
    (after : SyncDb)
    → settle_folder job kind db r ≡ (synced stats, after)
    → r ≡ got (stats, after)
settle_folder-synced job kind db (got (s, a)) stats after h =
    ap₂ (λ x y. got (x, y)) (ap (λ e. of_end s e.0) h) (ap (λ e. e.1) h)
  where
    of_end : SyncStats → SyncEnd → SyncStats
    of_end d (synced t) = t
    of_end d _ = d
settle_folder-synced job kind db (transient e) stats after h = absurd (cc)
settle_folder-synced job kind db (failed e) stats after h = absurd (cc)

-- The cycle is a full one.
abbrev pub is_whole : Job → SyncDb → SelectInfo → Bool
is_whole job db info =
    job.force_full
    || is_none db.folder.uidvalidity
    || is_reset db.folder.uidvalidity info.uidvalidity

-- The tables as the passes start from them.
abbrev pub start_from : SyncDb → SelectInfo → SyncDb
start_from db info =
    if is_reset db.folder.uidvalidity info.uidvalidity then forget_folder db else db

-- The UIDs after a cycle over `start`.
abbrev cycle_uid : Job → Bool → SyncDb → List ℕ → ℕ → ℕ → Bool
cycle_uid job whole start listed g uid =
    (uids_in start g uid
      || (g == start.folder.id
          && (elem uid listed && (whole || leb (get_or start.folder.uidnext 0) uid))))
    && not (is_refresh whole job start.folder && (g == start.folder.id && not (elem uid listed)))

kind_of-full : (whole : Bool) → kind_of whole ≡ full_kind → whole ≡ true
kind_of-full true h = refl
kind_of-full false h = absurd (cc)

kind_of-incremental : (whole : Bool) → kind_of whole ≡ incremental_kind → whole ≡ false
kind_of-incremental false h = refl
kind_of-incremental true h = absurd (cc)

start_from-kept :
    (job : Job) (db : SyncDb) (info : SelectInfo)
    → is_whole job db info ≡ false
    → start_from db info ≡ db
start_from-kept job db info h =
    let kept : is_reset db.folder.uidvalidity info.uidvalidity ≡ false = ground (arith, h) in
    rw kept

-- The folder holds what the server lists below the cursor.
abbrev pub IsCaughtUp : SyncDb → List ℕ → Type 0
IsCaughtUp db listed =
    (uid : ℕ)
    → elem uid listed ≡ true
    → leb (get_or db.folder.uidnext 0) uid ≡ false
    → uids_in db db.folder.id uid ≡ true

module _ (job : Job) (server : Server) (db after : SyncDb) (stats : SyncStats) (listed : List ℕ)
    (faithful : IsFaithful server listed) (consistent : IsConsistent server listed)
    (done : sync_folder job server db ≡ (synced stats, after))
    (all_listed : server.search_all ≡ got listed) where
  -- One cycle, from what the server answered to SELECT.
  cycle_lem :
      (info : SelectInfo) × (server.select ≡ got info)
      × (stats.kind ≡ kind_of (is_whole job db info))
      × (after.folder ≡ move_cursor info job.now (start_from db info).folder)
      × ((g uid : ℕ)
          → uids_in after g uid
            ≡ cycle_uid job (is_whole job db info) (start_from db info) listed g uid)
  unfolding sync_folder try_folder
  cycle_lem =
      let tried : _ =
        settle_folder-synced job (reached_kind job server db) db (try_folder job server db) stats
          after done in
      let (info, selected, h) = bind-got server.select _ (stats, after) tried in
      let start : _ = start_from db info in
      let whole : _ = is_whole job db info in
      let (new_uids, fresh, uids, kind, folder) =
        run_cycle-uids job server listed faithful info whole
          (is_reset db.folder.uidvalidity info.uidvalidity) start (stats, after) h all_listed in
      (
        info,
        selected,
        kind,
        folder,
        λ g uid.
            uids g uid
            ∙ ap
                (λ b.
                  (uids_in start g uid || (g == start.folder.id && (b && elem uid listed)))
                  && not (
                      is_refresh whole job start.folder
                      && (g == start.folder.id && not (elem uid listed))))
                (find_new-uids server whole listed start.folder.uidnext new_uids consistent fresh
                  uid)
            ∙ ground arith,
      )

  -- The kind of a cycle is known from the answer to SELECT.
  pub sync_folder-kind :
      (info : SelectInfo) → server.select ≡ got info → stats.kind ≡ kind_of (is_whole job db info)
  sync_folder-kind info selected =
      let (said, answered, kind, _, _) = cycle_lem in
      let same : said ≡ info = ap (from_got said) (sym answered ∙ selected) in
      kind ∙ ap (λ i. kind_of (is_whole job db i)) same

  start_from-id : (info : SelectInfo) → (start_from db info).folder.id ≡ db.folder.id
  unfolding forget_folder
  start_from-id info = elim (Bool-cases (is_reset db.folder.uidvalidity info.uidvalidity)) [
    | inl e ↦ rw e
    | inr e ↦ rw e
  ]

  -- Other folders start with what they hold.
  start_from-others :
      (info : SelectInfo) (g uid : ℕ)
      → (uids_in (start_from db info) g uid && not (g == db.folder.id))
        ≡ (uids_in db g uid && not (g == db.folder.id))
  start_from-others info g uid =
      elim (Bool-cases (is_reset db.folder.uidvalidity info.uidvalidity)) [
        | inl e ↦ rw e (ground (arith, forget_folder-uids db g uid))
        | inr e ↦ rw e
      ]

  -- If the server lists these UIDs, answers searches consistently with the list and header fetches with
  -- one entry for each listed message, then after a full cycle that succeeds the folder holds exactly the
  -- listed UIDs, whatever it held before, and every other folder the UIDs that it held.
  pub sync_folder-mirrors :
      stats.kind ≡ full_kind
      → (g uid : ℕ)
      → uids_in after g uid ≡ (if g == db.folder.id then elem uid listed else uids_in db g uid)
  sync_folder-mirrors whole_kind g uid =
      let (info, selected, kind, folder, uids) = cycle_lem in
      let whole : is_whole job db info ≡ true =
        kind_of-full (is_whole job db info) (sym kind ∙ whole_kind) in
      let same : _ = start_from-id info in
      let others : _ = start_from-others info g uid in
      ground (arith, uids g uid, whole, same, others)

  -- Under the same conditions, and if the folder held what is listed below its UIDNEXT, then after an
  -- incremental cycle that succeeds the folder holds the listed UIDs, and besides, if the cycle was not
  -- one that looks for deletions, what it held; every other folder holds the UIDs that it held.
  pub sync_folder-covers :
      stats.kind ≡ incremental_kind
      → IsCaughtUp db listed
      → (g uid : ℕ)
      → uids_in after g uid ≡ (
          if g == db.folder.id
          then elem uid listed || (uids_in db g uid && not (is_refresh false job db.folder))
          else uids_in db g uid)
  sync_folder-covers inc covers g uid =
      let (info, selected, kind, folder, uids) = cycle_lem in
      let part : is_whole job db info ≡ false =
        kind_of-incremental (is_whole job db info) (sym kind ∙ inc) in
      let held : uids_in after g uid ≡ cycle_uid job false db listed g uid =
        uids g uid
        ∙ ap₂ (λ s w. cycle_uid job w s listed g uid) (start_from-kept job db info part) part in
      held ∙ elim (Bool-cases (g == db.folder.id)) [
        | inr e ↦ rw e (ground (arith, e))
        | inl e ↦ elim (Bool-cases (elem uid listed)) [
          | inr f ↦ rw (e, f) (ground (arith, e, f))
          | inl f ↦ elim (Bool-cases (leb (get_or db.folder.uidnext 0) uid)) [
            | inl k ↦ rw (e, f) (ground (arith, e, f, k))
            | inr k ↦
                let known : uids_in db g uid ≡ true =
                  ap (λ i. uids_in db i uid) ((==_iff g db.folder.id).0 e) ∙ covers uid f k in
                rw (e, f) (ground (arith, e, f, k, known))
          ]
        ]
      ]

  after-id : after.folder.id ≡ db.folder.id
  after-id =
      let (info, selected, kind, folder, uids) = cycle_lem in
      ap (λ f. f.id) folder ∙ start_from-id info

  -- A cycle leaves the folder with all that was listed.
  listed_held :
      (stats.kind ≡ incremental_kind → IsCaughtUp db listed)
      → (uid : ℕ) → elem uid listed ≡ true
      → uids_in after db.folder.id uid ≡ true
  listed_held covers uid e =
      let (info, selected, kind, folder, uids) = cycle_lem in
      elim (Bool-cases (is_whole job db info)) [
        | inl w ↦
            sync_folder-mirrors (kind ∙ ap kind_of w) db.folder.id uid ∙ rw (==_refl db.folder.id) e
        | inr w ↦
            let inc : stats.kind ≡ incremental_kind = kind ∙ ap kind_of w in
            sync_folder-covers inc (covers inc) db.folder.id uid
            ∙ rw (==_refl db.folder.id) (ground (arith, e))
      ]

  -- The cursor is the UIDNEXT that the server answered to SELECT.
  after-uidnext :
      (info : SelectInfo) → server.select ≡ got info → after.folder.uidnext ≡ info.uidnext
  after-uidnext info selected =
      let (said, answered, _, folder, _) = cycle_lem in
      ap (λ f. f.uidnext) folder ∙ ap (λ r. (from_got said r).uidnext) (sym answered ∙ selected)

  -- Under the same conditions the invariant of the cursor, that the folder holds what the server lists
  -- below its stored UIDNEXT, holds after a cycle that succeeds for any later list, if what that list
  -- has below the UIDNEXT that the server answered to SELECT was listed during the cycle. Only an
  -- incremental cycle needs the invariant before.
  pub sync_folder-IsCaughtUp :
      (info : SelectInfo)
      → server.select ≡ got info
      → (stats.kind ≡ incremental_kind → IsCaughtUp db listed)
      → (later : List ℕ)
      → ((uid : ℕ)
          → elem uid later ≡ true
          → leb (get_or info.uidnext 0) uid ≡ false
          → elem uid listed ≡ true)
      → IsCaughtUp after later
  sync_folder-IsCaughtUp info selected covers later grown uid e k =
      let below : leb (get_or info.uidnext 0) uid ≡ false =
        ap (λ n. leb (get_or n 0) uid) (sym (after-uidnext info selected)) ∙ k in
      ap (λ i. uids_in after i uid) after-id ∙ listed_held covers uid (grown uid e below)
