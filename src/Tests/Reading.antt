-- ===== src/Tests/Reading.antt =====
-- Pages of messages (src/lenovmail/sync/queries.py) at concrete mailboxes.
use lenovmail.Queries.Cursor.{
  Formats, equals_sign, is_blank, rstrip_equals, encode_cursor, decode_cursor, IsStandard,
  decode_cursor-encode_cursor,
}
use lenovmail.Text.{Text}
use lenovmail.Prelude.{
  ℕ, ◌+◌, ◌-◌, ◌%◌, ◌≤◌, ◌≡◌, refl, ap, ◌&&◌, Option, none, some, [], ◌∷◌, arith, ◌==◌,
  if◌then◌else◌, length,
}
use lenovmail.Queries.{cursor_of, list_messages}
use lenovmail.Tests.Samples.{message, every_message, mailbox}
use lenovmail.Queries.Pages.{PageOf, Meets, list_messages_sound}

list_messages_sound_example :
    PageOf
      (Meets (1 ∷ []) every_message none mailbox)
      every_message.limit
      (list_messages (1 ∷ []) every_message mailbox)
list_messages_sound_example = list_messages_sound (1 ∷ []) every_message mailbox

-- Each code point on four characters, the last of which is padding.
spread : Text → Text
spread [] = []
spread (c ∷ cs) = c ∷ 0 ∷ 0 ∷ equals_sign ∷ spread cs

gathered : Text → Text
gathered (c ∷ _ ∷ _ ∷ _ ∷ cs) = c ∷ gathered cs
gathered _ = []

abbrev first_of : Text → Option ℕ
first_of [] = none
first_of (c ∷ cs) = some c

abbrev instant_of : Text → Option ℕ
instant_of [] = none
instant_of (c ∷ cs) = some (c - 125)

abbrev plain_formats : Formats
plain_formats = record {
  b64encode = spread;
  b64decode = λ t. some (gathered t);
  isoformat = λ t. (t + 125) ∷ [];
  fromisoformat = instant_of;
  show_id = λ id. id ∷ [];
  read_id = first_of;
}

gathered-spread : (t : Text) → gathered (spread t) ≡ t
unfolding gathered spread
gathered-spread [] = refl
gathered-spread (c ∷ cs) = ap (λ t. c ∷ t) (gathered-spread cs)

length-spread : (t : Text) → length (spread t) % 4 ≡ 0
unfolding spread
length-spread [] = refl
length-spread (c ∷ cs) = omega (arith, length-spread cs)

abbrev stripped : ℕ → Text → Text
stripped c rest = if is_blank rest && c == equals_sign then [] else c ∷ rest

group-padding :
    (c n : ℕ) (rest : Text)
    → n % 4 ≡ 0
    → n ≤ length rest + 1
    → n + 4 ≤ length (stripped c (stripped 0 (stripped 0 (stripped equals_sign rest)))) + 1
group-padding c n [] h k = omega (arith, h, k)
group-padding c n (d ∷ ds) h k = omega (arith, h, k)

spread-padding : (t : Text) → length (spread t) ≤ length (rstrip_equals (spread t)) + 1
unfolding spread rstrip_equals
spread-padding [] = omega arith
spread-padding (c ∷ cs) =
    let bound : _ =
      group-padding c (length (spread cs)) (rstrip_equals (spread cs)) (length-spread cs)
        (spread-padding cs) in
    omega (arith, bound)

plain_formats-IsStandard : IsStandard plain_formats
plain_formats-IsStandard = record {
  b64_undone = λ t. ap some (gathered-spread t);
  b64_fours = length-spread;
  b64_padding = λ t. omega (arith, spread-padding t);
  iso_undone = λ t. ap some (omega arith);
  iso_barless = λ t. ground arith;
  id_undone = λ id. refl;
}

decode_cursor-encode_cursor_example :
    decode_cursor plain_formats (encode_cursor plain_formats (message 1 none))
    ≡ some (cursor_of (message 1 none))
decode_cursor-encode_cursor_example =
    decode_cursor-encode_cursor plain_formats (message 1 none) plain_formats-IsStandard
