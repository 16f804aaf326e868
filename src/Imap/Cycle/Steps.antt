-- ===== src/Imap/Cycle/Steps.antt =====
-- What each pass of a cycle (src/lenovmail/sync/imap_sync.py, `sync_folder`) does to the UIDs of folders.
use lenovmail.Prelude.{
  ℕ, ◌+◌, ◌≡◌, refl, sym, ap, ◌∙◌, Bool, true, false, ◌&&◌, ◌||◌, Option, none, some, List, [], ◌∷◌,
  ◌++◌, arith, ◌==◌, length, get_or, All, elem,
}
use lenovmail.Imap.Headers.{
  no_envelope, display_of, record_of, record_from_fetch, records_of, subject_request, assign_found,
  assign_all, after_upsert, write_chunk, header_pass,
}
use lenovmail.Imap.{Reply, got}
use lenovmail.Store.Placements.Written.{
  is_imap, names_uid, ImapRecords, AreDistinct, upsert_placements_imap,
}
use lenovmail.Imap.Replies.{bind-got, from_got}
use lenovmail.Store.Placements.Rows.{has_uid}
use lenovmail.Imap.Tables.{HeaderEntry, Server, Hashing, Job}
use lenovmail.Imap.Chunks.{concat}
use mathlib.Core.Path.{subst}
use lenovmail.Table.Keys.{IsKeyed}
use lenovmail.Table.{exists_where}
use lenovmail.Models.{MailDb}
use lenovmail.Threads.Untouched.{assign_thread-placements}
use lenovmail.Store.Upsert.{Record, upsert_messages}
use lenovmail.Store.Upsert.Batch.{upsert_messages-HaveKeys}
use lenovmail.Store.Placements.{id_of, same_value}

assign_found-placements :
    (account_id new_id : ℕ) (r : Record) (o : Option ℕ) (db : MailDb)
    → (assign_found account_id new_id r o db).placements ≡ db.placements
unfolding assign_found
assign_found-placements account_id new_id r none db = refl
assign_found-placements account_id new_id r (some id) db =
    assign_thread-placements new_id (subject_request account_id id r) db

assign_all-placements :
    (account_id new_id : ℕ) (records : List Record) (ids : List (ℕ × ℕ)) (db : MailDb)
    → (assign_all account_id new_id records ids db).placements ≡ db.placements
unfolding assign_all
assign_all-placements account_id new_id [] ids db = refl
assign_all-placements account_id new_id (r ∷ records) ids db =
    let found : _ = assign_found account_id new_id r (id_of r.dedup_hash ids) db in
    assign_all-placements account_id (new_id + 1) records ids found
    ∙ assign_found-placements account_id new_id r (id_of r.dedup_hash ids) db

-- The tables with the UIDs of a batch added to a folder.
abbrev pub Adds : ℕ → (ℕ → Bool) → MailDb → MailDb → Type 0
Adds folder_id named before after =
    (g uid : ℕ)
    → has_uid g uid after.placements
      ≡ (has_uid g uid before.placements || (g == folder_id && named uid))

-- A chunk is always written, and adds the UIDs of its records.
pub write_chunk_lem :
    (job : Job) (folder_id : ℕ) (records : List Record) (mail : MailDb) (next_id : ℕ)
    → ImapRecords records
    → AreDistinct records
    → (mail' : MailDb) × (write_chunk job folder_id records mail next_id
        ≡ got (length records, mail'))
      × Adds folder_id (λ uid. names_uid uid records) mail mail'
unfolding write_chunk after_upsert exists_where
write_chunk_lem job folder_id [] mail next_id i d = (mail, refl, λ g uid. ground arith)
write_chunk_lem job folder_id (r ∷ rs) mail next_id i d =
    let records : _ = r ∷ rs in
    let upserted : _ = upsert_messages job.account_id next_id job.now records mail.messages in
    let keys : _ = upsert_messages-HaveKeys job.account_id next_id job.now records mail.messages in
    let (rows, done, uids, _) =
      upsert_placements_imap folder_id job.now records upserted.1 mail.placements i d keys in
    let start : _ = record mail { messages = upserted.0; placements = rows } in
    let mail' : _ = assign_all job.account_id (next_id + length records) records upserted.1 start in
    (
      mail',
      ap (after_upsert job records mail (next_id + length records) upserted) done,
      λ g uid.
          ap (has_uid g uid) (
            assign_all-placements job.account_id (next_id + length records) records upserted.1
              start)
          ∙ uids g uid,
    )

-- The server answers a FETCH with one entry for each message that it lists and was asked for.
pub record IsFaithful (server : Server) (listed : List ℕ) : Type 0 where
  pub headers_named :
      (uids : List ℕ) (response : List HeaderEntry)
      → server.fetch_headers uids ≡ got response
      → (uid : ℕ) → exists_where (λ e. e.uid == uid) response ≡ (elem uid uids && elem uid listed)
  pub headers_distinct :
      (uids : List ℕ) (response : List HeaderEntry)
      → server.fetch_headers uids ≡ got response
      → IsKeyed (λ e. e.uid) response

-- The records stand for the entries, one by one.
abbrev pub Fetched : List HeaderEntry → List Record → Type 0
Fetched [] [] = Unit
Fetched (e ∷ response) (r ∷ records) =
    (r.uid ≡ some e.uid) × (is_imap r ≡ true) × Fetched response records
Fetched _ _ = ⊥

module _ (h : Hashing) (folder_id : ℕ) where
  record_from_fetch-uid :
      (e : HeaderEntry) (r : Record)
      → record_from_fetch h folder_id e ≡ got r
      → (r.uid ≡ some e.uid) × (is_imap r ≡ true)
  unfolding record_from_fetch record_of
  record_from_fetch-uid e r k =
      let (display, _, made) =
        bind-got (display_of h (get_or e.envelope no_envelope))
          (λ display. got (record_of h folder_id e display)) r k in
      (
        ap (λ (x : Reply Record). (from_got r x).uid) (sym made),
        ap (λ (x : Reply Record). is_imap (from_got r x)) (sym made),
      )

  pub records_of-Fetched :
      (response : List HeaderEntry) (records : List Record)
      → records_of h folder_id response ≡ got records
      → Fetched response records
  unfolding records_of
  records_of-Fetched [] records k =
      subst (λ (x : Reply (List Record)). Fetched [] (from_got records x)) k tt
  records_of-Fetched (e ∷ response) records k =
      let (r, one, k₁) = bind-got (record_from_fetch h folder_id e) _ records k in
      let (rest, more, made) = bind-got (records_of h folder_id response) _ records k₁ in
      let (uid, imap) = record_from_fetch-uid e r one in
      subst (λ (x : Reply (List Record)). Fetched (e ∷ response) (from_got records x)) made
        (uid, imap, records_of-Fetched response rest more)

pub Fetched-ImapRecords :
    (response : List HeaderEntry) (records : List Record)
    → Fetched response records
    → ImapRecords records
Fetched-ImapRecords [] [] f = tt
Fetched-ImapRecords [] (r ∷ records) f = absurd f
Fetched-ImapRecords (e ∷ response) [] f = absurd f
Fetched-ImapRecords (e ∷ response) (r ∷ records) f = (f.1, Fetched-ImapRecords response records f.2)

not_repeated :
    (uid : Option ℕ) (k : ℕ) (response : List HeaderEntry) (records : List Record)
    → uid ≡ some k
    → Fetched response records
    → All (λ d. (d.uid == k) ≡ false) response
    → exists_where (λ s. same_value uid s.uid) records ≡ false
unfolding exists_where
not_repeated uid k [] [] u f a = refl
not_repeated uid k [] (r ∷ records) u f a = absurd f
not_repeated uid k (d ∷ response) [] u f a = absurd f
not_repeated uid k (d ∷ response) (r ∷ records) u f a =
    let rest = not_repeated uid k response records u f.2 a.1 in ground (arith, u, f.0, a.0, rest)

pub Fetched-AreDistinct :
    (response : List HeaderEntry) (records : List Record)
    → Fetched response records
    → IsKeyed (λ e. e.uid) response
    → AreDistinct records
Fetched-AreDistinct [] [] f k = tt
Fetched-AreDistinct [] (r ∷ records) f k = absurd f
Fetched-AreDistinct (e ∷ response) [] f k = absurd f
Fetched-AreDistinct (e ∷ response) (r ∷ records) f k = (
  not_repeated r.uid e.uid response records f.0 f.2 k.0,
  Fetched-AreDistinct response records f.2 k.1,
)

Fetched-names_uid :
    (uid : ℕ) (response : List HeaderEntry) (records : List Record)
    → Fetched response records
    → names_uid uid records ≡ exists_where (λ e. e.uid == uid) response
unfolding exists_where
Fetched-names_uid uid [] [] f = refl
Fetched-names_uid uid [] (r ∷ records) f = absurd f
Fetched-names_uid uid (e ∷ response) [] f = absurd f
Fetched-names_uid uid (e ∷ response) (r ∷ records) f =
    let rest = Fetched-names_uid uid response records f.2 in ground (arith, f.0, rest)

write_chunk-Adds :
    (job : Job) (folder_id : ℕ) (records : List Record) (mail : MailDb) (next_id : ℕ)
    (written : ℕ × MailDb)
    → ImapRecords records
    → AreDistinct records
    → write_chunk job folder_id records mail next_id ≡ got written
    → Adds folder_id (λ uid. names_uid uid records) mail written.1
write_chunk-Adds job folder_id records mail next_id written i d h =
    let (mail', e, adds) = write_chunk_lem job folder_id records mail next_id i d in
    let same : mail' ≡ written.1 = ap (λ r. (from_got written r).1) (sym e ∙ h) in
    subst (Adds folder_id (λ uid. names_uid uid records) mail) same adds

elem-append : (u : ℕ) (xs ys : List ℕ) → elem u (xs ++ ys) ≡ (elem u xs || elem u ys)
elem-append u [] ys = refl
elem-append u (x ∷ xs) ys = ground (arith, elem-append u xs ys)

Adds-trans :
    (folder_id : ℕ) (a b : ℕ → Bool) (first second third : MailDb)
    → Adds folder_id a first second
    → Adds folder_id b second third
    → Adds folder_id (λ u. a u || b u) first third
Adds-trans folder_id a b first second third h k g uid = ground (arith, h g uid, k g uid)

module _ (job : Job) (server : Server) (listed : List ℕ) (faithful : IsFaithful server listed) where
  -- The header pass adds exactly the UIDs that it is given and the server lists.
  pub header_pass-Adds :
      (folder_id : ℕ) (cs : List (List ℕ)) (mail : MailDb) (next_id : ℕ) (end : ℕ × MailDb × ℕ)
      → header_pass job server folder_id cs mail next_id ≡ got end
      → Adds folder_id (λ u. elem u (concat cs) && elem u listed) mail end.1
  unfolding header_pass
  header_pass-Adds folder_id [] mail next_id end h =
      subst (Adds folder_id (λ u. false) mail) (ap (λ r. (from_got end r).1) h)
        (λ g uid. ground arith)
  header_pass-Adds folder_id (c ∷ cs) mail next_id end h =
      let (response, fetched, h₁) = bind-got (server.fetch_headers c) _ end h in
      let (records, made, h₀) = bind-got (records_of job.hashing folder_id response) _ end h₁ in
      let fetched_records = records_of-Fetched job.hashing folder_id response records made in
      let (written, wrote, h₂) =
        bind-got (write_chunk job folder_id records mail next_id) _ end h₀ in
      let (rest, passed, h₃) =
        bind-got
          (header_pass job server folder_id cs written.1
            (next_id + (length records + length records)))
          _ end h₂ in
      let now : _ =
        write_chunk-Adds job folder_id records mail next_id written
          (Fetched-ImapRecords response records fetched_records)
          (Fetched-AreDistinct response records fetched_records
            (faithful.headers_distinct c response fetched))
          wrote in
      let named : (u : ℕ) → names_uid u records ≡ (elem u c && elem u listed) = λ u.
        Fetched-names_uid u response records fetched_records
        ∙ faithful.headers_named c response fetched u in
      let later : _ = header_pass-Adds folder_id cs written.1 _ rest passed in
      let all : Adds folder_id (λ u. elem u (c ++ concat cs) && elem u listed) mail rest.1 =
        λ g u. ground (arith, now g u, later g u, named u, elem-append u c (concat cs)) in
      subst (Adds folder_id (λ u. elem u (c ++ concat cs) && elem u listed) mail)
        (ap (λ r. (from_got end r).1) h₃) all
