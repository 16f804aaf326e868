-- ===== src/Imap/Envelope.antt =====
-- The values of an ENVELOPE (src/lenovmail/sync/imap_sync.py, `_decode` and `_addr_list`).
use lenovmail.Prelude.{
  Bool, false, ◌&&◌, ◌||◌, Option, none, some, List, [], ◌∷◌, ◌++◌, ◌==◌, if◌then◌else◌, get_or,
}
use lenovmail.Text.{Text, codes, strip}
use lenovmail.Models.{Address}
use lenovmail.Imap.{Reply, got, failed, ◌>>=◌}
use lenovmail.Imap.Tables.{
  RawAddress, RawFlag, bytes_flag, text_flag, DecodedWords, decoded, undecodable, malformed,
  Hashing,
}

-- `"=?" in value`
unfoldable pub has_encoded_word : Text → Bool
has_encoded_word [] = false
has_encoded_word (c ∷ []) = false
has_encoded_word (c ∷ d ∷ cs) = (c == 61 && d == 63) || has_encoded_word (d ∷ cs)

abbrev pub non_empty : Text → Option Text
non_empty [] = none
non_empty (c ∷ cs) = some (c ∷ cs)

-- `.strip() or None`
unfoldable pub stripped : Text → Option Text
unfolding strip
stripped t = non_empty (strip t)

-- The outcome of the library; `HeaderParseError` goes through.
abbrev pub after_words : Text → DecodedWords → Reply (Option Text)
after_words t (decoded u) = got (stripped u)
after_words t undecodable = got (stripped t)
after_words t (malformed e) = failed e

-- `_decode`
unfoldable pub decode : Hashing → Option Text → Reply (Option Text)
unfolding stripped has_encoded_word
decode h none = got none
decode h (some t) =
    if has_encoded_word t then after_words t (h.decode_words t) else got (stripped t)

abbrev pub address_of : Hashing → Text → Option Text → Text
address_of h mailbox none = h.lower mailbox
address_of h mailbox (some host) = h.lower (mailbox ++ codes "@" ++ host)

-- The item of one address, if it has a mailbox; the name is decoded only then.
abbrev pub item_of : Hashing → RawAddress → Option Text → Option Text → Reply (List Address)
item_of h a none host = got []
item_of h a (some mailbox) host = do
  name ← decode h a.name
  got (record { name = get_or name []; addr = address_of h mailbox host } ∷ [])

-- `_addr_list`
unfoldable pub addr_list : Hashing → List RawAddress → Reply (List Address)
unfolding decode
addr_list h [] = got []
addr_list h (a ∷ items) = do
  mailbox ← decode h a.mailbox
  host ← decode h a.host
  item ← item_of h a mailbox host
  rest ← addr_list h items
  got (item ++ rest)

-- The flags that are `str`, which alone can be the name of a column.
unfoldable pub text_flags : List RawFlag → List Text
text_flags [] = []
text_flags (bytes_flag _ ∷ flags) = text_flags flags
text_flags (text_flag t ∷ flags) = t ∷ text_flags flags
