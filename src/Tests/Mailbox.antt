-- ===== src/Tests/Mailbox.antt =====
-- A mailbox server that lists three messages, and a folder that has seen one of them.
use lenovmail.Imap.Tables.{
  idle_state, SyncStats, SyncDb, bytes_flag, HeaderEntry, Server, decoded, Job,
}
use lenovmail.Imap.Cycle.Readable.{IsReadableEntry}
use lenovmail.Imap.Cycle.Progress.{DoesAnswer, IsReadableServer, sync_folder-succeeds}
use lenovmail.Prelude.{
  ℕ, ◌+◌, ◌*◌, ◌≡◌, refl, sym, ap, ◌∙◌, inl, inr, Bool, true, false, ◌&&◌, none, some, List, [],
  ◌∷◌, map, arith, leb, ◌==◌, ==_iff, Bool-cases, All, elem,
}
use lenovmail.Imap.Replies.{from_got}
use lenovmail.Imap.Cycle.{synced, sync_folder}
use mathlib.Core.Path.{subst}
use lenovmail.Table.{select_where, exists_where}
use lenovmail.Table.Keys.{IsKeyed}
use lenovmail.Text.{codes}
use lenovmail.Imap.{Reply, got, transient}
use lenovmail.Imap.Cycle.Steps.{IsFaithful}
use lenovmail.Imap.Cycle.Covered.{IsConsistent, IsCaughtUp}
use lenovmail.Tests.Samples.{placement, two_threads}

abbrev pub listed_uids : List ℕ
listed_uids = 9 ∷ 7 ∷ 12 ∷ []

abbrev pub entry : ℕ → HeaderEntry
entry uid = record {
  uid = uid;
  envelope = some (record {
    message_id = none;
    subject = some (codes "=?utf-8?b?aGk=?=");
    from_ =
        record { name = none; mailbox = some (codes "ann"); host = some (codes "example") } ∷ [];
    to = [];
    cc = [];
    bcc = [];
    reply_to = [];
  });
  internal_date = some 40;
  size_bytes = none;
  flags = bytes_flag (codes "\\Seen") ∷ [];
  modseq = none;
}

-- The entries of the messages of a list that were asked for.
abbrev pub entries : List ℕ → List ℕ → List HeaderEntry
entries uids present = map entry (select_where (λ u. elem u uids) present)

abbrev pub answer_headers : List ℕ → Reply (List HeaderEntry)
answer_headers uids = got (entries uids listed_uids)

abbrev pub mailbox_server : Server
mailbox_server = record {
  condstore = false;
  select = got (record { uidvalidity = some 3; uidnext = some 13; highestmodseq = none });
  search_all = got listed_uids;
  search_since = λ first. got listed_uids;
  fetch_changed = λ modseq uids. got [];
  fetch_all = λ uids. got [];
  fetch_headers = answer_headers;
}

-- UIDVALIDITY changed, and the connection is lost after SELECT.
abbrev pub broken_server : Server
broken_server = record mailbox_server {
  select = got (record { uidvalidity = some 4; uidnext = some 2; highestmodseq = none });
  search_all = transient (codes "lost");
}

abbrev pub sync_job : Bool → Job
sync_job force_full = record {
  account_id = 1;
  force_full = force_full;
  now = 80;
  flag_refresh_every = 4;
  header_fetch_chunk = 2;
  hashing = record {
    hash_message_id = λ t. 1;
    provisional_hash = λ folder_id uid. 1000 * folder_id + uid;
    normalize_subject = λ s. s;
    decode_words = λ t. decoded (codes "hi");
    lower = λ t. t;
  };
}

-- Folder 5 has seen UID 7, and will ask for UIDs from 8 on.
abbrev pub sync_db : SyncDb
sync_db = record {
  mail = record two_threads { placements = placement 1 7 ∷ [] };
  folder = record {
    id = 5;
    uidvalidity = some 3;
    uidnext = some 8;
    highestmodseq = none;
    sync_state = idle_state;
    sync_error = none;
    sync_pass = 1;
    last_synced_at = none;
  };
  runs = [];
  next_id = 20;
}

entries-named :
    (uids present : List ℕ) (uid : ℕ)
    → exists_where (λ e. e.uid == uid) (entries uids present) ≡ (elem uid uids && elem uid present)
unfolding select_where exists_where
entries-named uids [] uid = ground arith
entries-named uids (k ∷ present) uid =
    let rest : _ = entries-named uids present uid in
    elim (Bool-cases (uid == k)) [
      | inl e ↦
          let same : elem k uids ≡ elem uid uids =
            ap (λ v. elem v uids) (sym ((==_iff uid k).0 e)) in
          elim (Bool-cases (elem k uids)) [
            | inl f ↦ rw f (ground (arith, same, f, e))
            | inr f ↦ rw f (ground (arith, same, f, e, rest))
          ]
      | inr e ↦ elim (Bool-cases (elem k uids)) [
        | inl f ↦ rw f (ground (arith, e, rest))
        | inr f ↦ rw f (ground (arith, e, rest))
      ]
    ]

entries-other :
    (uids present : List ℕ) (k : ℕ)
    → All (λ u. (u == k) ≡ false) present
    → All (λ e. (e.uid == k) ≡ false) (entries uids present)
unfolding select_where
entries-other uids [] k h = tt
entries-other uids (u ∷ present) k h = elim (Bool-cases (elem u uids)) [
  | inl e ↦ rw e (h.0, entries-other uids present k h.1)
  | inr e ↦ rw e (entries-other uids present k h.1)
]

entries-IsKeyed :
    (uids present : List ℕ) → IsKeyed (λ u. u) present → IsKeyed (λ e. e.uid) (entries uids present)
unfolding select_where
entries-IsKeyed uids [] h = tt
entries-IsKeyed uids (u ∷ present) h = elim (Bool-cases (elem u uids)) [
  | inl e ↦ rw e (entries-other uids present u h.0, entries-IsKeyed uids present h.1)
  | inr e ↦ rw e (entries-IsKeyed uids present h.1)
]

pub mailbox_server-IsFaithful : IsFaithful mailbox_server listed_uids
mailbox_server-IsFaithful = record {
  headers_named = λ uids response h uid.
      ap (λ r. exists_where (λ e. e.uid == uid) (from_got response r)) (sym h)
      ∙ entries-named uids listed_uids uid;
  headers_distinct = λ uids response h.
      subst (λ r. IsKeyed (λ e. e.uid) (from_got response r)) h
        (entries-IsKeyed uids listed_uids ((refl, (refl, tt)), ((refl, tt), (tt, tt))));
}

pub mailbox_server-IsConsistent : IsConsistent mailbox_server listed_uids
mailbox_server-IsConsistent first answered h uid =
    ap (λ r. elem uid (from_got answered r) && leb first uid) (sym h)

pub mailbox_server-DoesAnswer : DoesAnswer mailbox_server
mailbox_server-DoesAnswer = record {
  selected = tt;
  all_listed = tt;
  since_listed = λ _. tt;
  changed_fetched = λ _ _. tt;
  flags_fetched = λ _. tt;
  headers_fetched = λ _. tt;
}

entries-All :
    (uids present : List ℕ)
    → All (λ e. IsReadableEntry (sync_job true).hashing e.envelope) (entries uids present)
unfolding select_where
entries-All uids [] = tt
entries-All uids (u ∷ present) = elim (Bool-cases (elem u uids)) [
  | inl e ↦ rw e (
    record {
      message_id_read = tt;
      subject_read = tt;
      from_read = ((tt, tt, tt), tt);
      to_read = tt;
      cc_read = tt;
      bcc_read = tt;
      reply_to_read = tt;
    },
    entries-All uids present,
  )
  | inr e ↦ rw e (entries-All uids present)
]

pub mailbox_server-IsReadableServer : IsReadableServer (sync_job true).hashing mailbox_server
mailbox_server-IsReadableServer uids response h =
    subst (λ r. All (λ e. IsReadableEntry (sync_job true).hashing e.envelope) (from_got response r))
      h (entries-All uids listed_uids)

pub sync_db-IsCaughtUp : IsCaughtUp sync_db listed_uids
unfolding exists_where
sync_db-IsCaughtUp uid e k = ground (arith, e, k)

-- The cycle ends with the folder synchronised.
pub mailbox_synced :
    (force_full : Bool)
    → (stats : SyncStats) × (after : SyncDb) × (sync_folder
          (sync_job force_full)
          mailbox_server
          sync_db
        ≡ (synced stats, after))
mailbox_synced force_full =
    sync_folder-succeeds (sync_job force_full) mailbox_server listed_uids mailbox_server-IsFaithful
      mailbox_server-DoesAnswer mailbox_server-IsReadableServer sync_db

abbrev pub stats_of : Bool → SyncStats
stats_of force_full = (mailbox_synced force_full).0

abbrev pub db_after : Bool → SyncDb
db_after force_full = (mailbox_synced force_full).1
