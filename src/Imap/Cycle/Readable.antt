-- ===== src/Imap/Cycle/Readable.antt =====
-- Responses whose ENVELOPEs can be decoded (src/lenovmail/sync/imap_sync.py, `record_from_fetch`).
use lenovmail.Prelude.{
  ℕ, ◌≡◌, refl, inl, inr, Option, none, some, List, [], ◌∷◌, Bool-cases, get_or, All,
}
use lenovmail.Text.{Text}
use lenovmail.Imap.{Reply, got, transient, failed, ◌>>=◌}
use lenovmail.Imap.Tables.{
  RawAddress, Envelope, HeaderEntry, DecodedWords, decoded, undecodable, malformed, Hashing,
}
use lenovmail.Imap.Envelope.{has_encoded_word, after_words, decode, item_of, addr_list}
use lenovmail.Imap.Headers.{no_envelope, display_of, record_from_fetch, records_of}

abbrev pub Succeeds : {A : Type 0} → Reply A → Type 0
Succeeds (got a) = Unit
Succeeds _ = ⊥

pub bind-Succeeds :
    {A B : Type 0} (m : Reply A) (f : A → Reply B)
    → Succeeds m
    → ((a : A) → m ≡ got a → Succeeds (f a))
    → Succeeds (m >>= f)
bind-Succeeds (got a) f s h = h a refl
bind-Succeeds (transient e) f s h = absurd s
bind-Succeeds (failed e) f s h = absurd s

abbrev pub IsWellFormed : DecodedWords → Type 0
IsWellFormed (decoded _) = Unit
IsWellFormed undecodable = Unit
IsWellFormed (malformed _) = ⊥

-- A value without a malformed encoded word, and the values of an address, an ENVELOPE and an entry.
abbrev pub IsReadable : Hashing → Option Text → Type 0
IsReadable h none = Unit
IsReadable h (some t) = IsWellFormed (h.decode_words t)

abbrev pub IsReadableAddress : Hashing → RawAddress → Type 0
IsReadableAddress h a = IsReadable h a.mailbox × IsReadable h a.host × IsReadable h a.name

pub record IsReadableEnvelope (h : Hashing) (e : Envelope) : Type 0 where
  pub message_id_read : IsReadable h e.message_id
  pub subject_read : IsReadable h e.subject
  pub from_read : All (IsReadableAddress h) e.from_
  pub to_read : All (IsReadableAddress h) e.to
  pub cc_read : All (IsReadableAddress h) e.cc
  pub bcc_read : All (IsReadableAddress h) e.bcc
  pub reply_to_read : All (IsReadableAddress h) e.reply_to

abbrev pub IsReadableEntry : Hashing → Option Envelope → Type 0
IsReadableEntry h none = Unit
IsReadableEntry h (some e) = IsReadableEnvelope h e

after_words-Succeeds : (t : Text) (w : DecodedWords) → IsWellFormed w → Succeeds (after_words t w)
after_words-Succeeds t (decoded u) h = tt
after_words-Succeeds t undecodable h = tt
after_words-Succeeds t (malformed e) h = absurd h

module _ (h : Hashing) where
  decode-Succeeds : (value : Option Text) → IsReadable h value → Succeeds (decode h value)
  unfolding decode
  decode-Succeeds none k = tt
  decode-Succeeds (some t) k = elim (Bool-cases (has_encoded_word t)) [
    | inl e ↦ rw e (after_words-Succeeds t (h.decode_words t) k)
    | inr e ↦ rw e tt
  ]

  item_of-Succeeds :
      (a : RawAddress) (mailbox host : Option Text)
      → IsReadable h a.name
      → Succeeds (item_of h a mailbox host)
  item_of-Succeeds a none host k = tt
  item_of-Succeeds a (some mailbox) host k =
      bind-Succeeds (decode h a.name) _ (decode-Succeeds a.name k) (λ name _. tt)

  addr_list-Succeeds :
      (items : List RawAddress) → All (IsReadableAddress h) items → Succeeds (addr_list h items)
  unfolding addr_list
  addr_list-Succeeds [] k = tt
  addr_list-Succeeds (a ∷ items) k =
      bind-Succeeds (decode h a.mailbox) _ (decode-Succeeds a.mailbox k.0.0) (λ mailbox _.
        bind-Succeeds (decode h a.host) _ (decode-Succeeds a.host k.0.1) (λ host _.
          bind-Succeeds (item_of h a mailbox host) _ (item_of-Succeeds a mailbox host k.0.2)
            (λ item _.
              bind-Succeeds (addr_list h items) _ (addr_list-Succeeds items k.1) (λ rest _. tt))))

  display_of-Succeeds : (e : Envelope) → IsReadableEnvelope h e → Succeeds (display_of h e)
  unfolding display_of
  display_of-Succeeds e k =
      bind-Succeeds (decode h e.message_id) _ (decode-Succeeds e.message_id k.message_id_read)
        (λ a _.
          bind-Succeeds (decode h e.subject) _ (decode-Succeeds e.subject k.subject_read) (λ b _.
            bind-Succeeds (addr_list h e.from_) _ (addr_list-Succeeds e.from_ k.from_read) (λ c _.
              bind-Succeeds (addr_list h e.to) _ (addr_list-Succeeds e.to k.to_read) (λ d _.
                bind-Succeeds (addr_list h e.cc) _ (addr_list-Succeeds e.cc k.cc_read) (λ f _.
                  bind-Succeeds (addr_list h e.bcc) _ (addr_list-Succeeds e.bcc k.bcc_read) (λ g _.
                    bind-Succeeds (addr_list h e.reply_to) _
                      (addr_list-Succeeds e.reply_to k.reply_to_read) (λ i _. tt)))))))

  envelope-Succeeds :
      (o : Option Envelope) → IsReadableEntry h o → Succeeds (display_of h (get_or o no_envelope))
  unfolding display_of decode addr_list
  envelope-Succeeds none k = tt
  envelope-Succeeds (some e) k = display_of-Succeeds e k

  record_from_fetch-Succeeds :
      (folder_id : ℕ) (e : HeaderEntry)
      → IsReadableEntry h e.envelope
      → Succeeds (record_from_fetch h folder_id e)
  unfolding record_from_fetch
  record_from_fetch-Succeeds folder_id e k =
      bind-Succeeds (display_of h (get_or e.envelope no_envelope)) _
        (envelope-Succeeds e.envelope k) (λ display _. tt)

  pub records_of-Succeeds :
      (folder_id : ℕ) (response : List HeaderEntry)
      → All (λ e. IsReadableEntry h e.envelope) response
      → Succeeds (records_of h folder_id response)
  unfolding records_of
  records_of-Succeeds folder_id [] k = tt
  records_of-Succeeds folder_id (e ∷ response) k =
      bind-Succeeds (record_from_fetch h folder_id e) _ (record_from_fetch-Succeeds folder_id e k.0)
        (λ r _.
          bind-Succeeds (records_of h folder_id response) _
            (records_of-Succeeds folder_id response k.1) (λ records _. tt))
