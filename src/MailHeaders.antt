-- ===== src/MailHeaders.antt =====
-- Per-mail custom headers: the guard of src/application/service/mail_ports.rs and the merge of
-- src/infrastructure/gateway/smtp_mail_api.rs. A `HashMap<String, String>` is the list of its
-- entries; the entries of a JSON object have distinct names.
pub mod Guard
pub mod Merge
mod Scenarios
use backbone_mail.Prelude.{
  Bool, true, false, List, [], ◌∷◌, ◌++◌, Option, none, some, ◌&&◌, ◌||◌, any, is_some, is_empty,
  if◌then◌else◌, Result, ok, err, ◌>>=◌, ◌>>◌, refuse_if, map_err,
}
use backbone_mail.Prelude.Text.{Text, codes, text_eq, contains_char, to_ascii_lowercase}
use backbone_mail.Prelude.Json.{Json, Entries}

pub data MailHeaderError : Type 0 where
  not_an_object : Text → MailHeaderError
  empty_name : Text → MailHeaderError
  line_break_in_name : Text → MailHeaderError
  line_break_in_value : Text → MailHeaderError
  non_string_value : Text → MailHeaderError

abbrev pub Headers : Type 0
Headers = List (Text × Text)

-- `HashMap::insert` and `HashMap::get`
unfoldable pub insert : Text → Text → Headers → Headers
insert k v [] = (k, v) ∷ []
insert k v ((j, w) ∷ m) = if text_eq j k then (k, v) ∷ m else (j, w) ∷ insert k v m

unfoldable pub get : Text → Headers → Option Text
get k [] = none
get k ((j, v) ∷ m) = if text_eq j k then some v else get k m

unfoldable pub has_line_break : Text → Bool
has_line_break t = contains_char b'\r' t || contains_char b'\n' t

unfoldable pub validate_mail_header : Text → Text → Result MailHeaderError Unit
validate_mail_header name value = do
  refuse_if (is_empty name) (empty_name value)
  refuse_if (has_line_break name) (line_break_in_name name)
  refuse_if (has_line_break value) (line_break_in_value name)
  ok tt

-- the loop over an object's entries
unfoldable pub headers_from_entries : Entries → Headers → Result MailHeaderError Headers
unfolding validate_mail_header
headers_from_entries Entries.end out = ok out
headers_from_entries (Entries.entry name (Json.str text) rest) out =
    let later = headers_from_entries rest (out ++ (name, text) ∷ []) in
    validate_mail_header name text >> later
headers_from_entries (Entries.entry name _ rest) out = err (non_string_value name)

unfoldable pub mail_headers_from_json : Json → Result MailHeaderError Headers
unfolding headers_from_entries
mail_headers_from_json (Json.obj es) = headers_from_entries es []
mail_headers_from_json Json.null = err (not_an_object (codes "null"))
mail_headers_from_json (Json.boolean _) = err (not_an_object (codes "a boolean"))
mail_headers_from_json (Json.number _) = err (not_an_object (codes "a number"))
mail_headers_from_json (Json.str _) = err (not_an_object (codes "a string"))
mail_headers_from_json (Json.arr _) = err (not_an_object (codes "an array"))

abbrev pub in_reply_to_name : Text
in_reply_to_name = codes "In-Reply-To"

abbrev pub references_name : Text
references_name = codes "References"

abbrev pub transport_threading_headers : List Text
transport_threading_headers = in_reply_to_name ∷ references_name ∷ []

-- `a.eq_ignore_ascii_case(b)`
unfoldable pub eq_ignore_ascii_case : Text → Text → Bool
eq_ignore_ascii_case a b = text_eq (to_ascii_lowercase a) (to_ascii_lowercase b)

unfoldable pub is_reserved : Text → Bool
unfolding eq_ignore_ascii_case
is_reserved name = any (eq_ignore_ascii_case name) transport_threading_headers

-- A refusal of the merge: the guard's error, or the name that both sources carry. Either becomes
-- a `MailSendFailure` of type `unknown` whose message prints it.
pub data MergeRefusal : Type 0 where
  header_refused : MailHeaderError → MergeRefusal
  ambiguous_threading : Text → MergeRefusal

unfoldable pub merge_entries : Bool → Headers → Headers → Result MergeRefusal Headers
merge_entries structured [] merged = ok merged
merge_entries structured ((name, value) ∷ rest) merged =
    let later = merge_entries structured rest (merged ++ (name, value) ∷ []) in
    map_err (validate_mail_header name value) header_refused
    >> (refuse_if (structured && is_reserved name) (ambiguous_threading name) >> later)

abbrev pub add_threading : Option Text → Headers → Headers
add_threading none merged = merged
add_threading (some parent) merged =
    insert references_name parent (insert in_reply_to_name parent merged)

unfoldable pub merge_transport_headers : Option Text → Headers → Result MergeRefusal Headers
unfolding merge_entries
merge_transport_headers in_reply_to per_mail = do
  merged ← merge_entries (is_some in_reply_to) per_mail []
  ok (add_threading in_reply_to merged)
