-- ===== src/MailHeaders/Guard.antt =====
-- Which headers the guard lets into the module.
use backbone_mail.Prelude.{
  ◌≡◌, refl, ap, ◌∙◌, ◌↔◌, false, [], ◌∷◌, ◌++◌, All, arith, is_empty, ok, check-came_through,
}
use mathlib.Core.List.{append_assoc, append-nil}
use backbone_mail.Prelude.Text.{Text}
use backbone_mail.Prelude.Json.{Json, Entries}
use backbone_mail.MailHeaders.{
  Headers, has_line_break, validate_mail_header, headers_from_entries, mail_headers_from_json,
}

-- A header that stays on its line: a name, and no line break in it or in the value.
abbrev pub IsClean : Text × Text → Type 0
IsClean (name, value) =
    (is_empty name ≡ false) × (has_line_break name ≡ false) × (has_line_break value ≡ false)

-- The JSON object that holds the headers.
abbrev pub entries_of : Headers → Entries
entries_of [] = Entries.end
entries_of ((name, value) ∷ m) = Entries.entry name (Json.str value) (entries_of m)

pub validate_mail_header_iff :
    (name value : Text) → (validate_mail_header name value ≡ ok tt) ↔ IsClean (name, value)
unfolding validate_mail_header
validate_mail_header_iff name value = ground arith

headers_from_entries_ok :
    (m out : Headers) → All IsClean m → headers_from_entries (entries_of m) out ≡ ok (out ++ m)
unfolding headers_from_entries
headers_from_entries_ok [] out c = rw (append-nil out)
headers_from_entries_ok ((name, value) ∷ m) out c =
    rw ((validate_mail_header_iff name value).1 c.0) (
      headers_from_entries_ok m (out ++ (name, value) ∷ []) c.1
      ∙ ap ok (append_assoc out ((name, value) ∷ []) m))

headers_from_entries_sound :
    (es : Entries) (out m : Headers)
    → headers_from_entries es out ≡ ok m
    → (added : Headers) × (m ≡ out ++ added) × (es ≡ entries_of added) × All IsClean added
unfolding headers_from_entries
headers_from_entries_sound Entries.end out m h = ([], cc (append-nil out), refl, tt)
headers_from_entries_sound (Entries.entry name (Json.str text) rest) out m h =
    let (later, clean) =
      check-came_through (headers_from_entries rest (out ++ (name, text) ∷ []))
        (validate_mail_header name text) h in
    let (added, e, entries, all_clean) =
      headers_from_entries_sound rest (out ++ (name, text) ∷ []) m later in
    (
      (name, text) ∷ added,
      e ∙ append_assoc out ((name, text) ∷ []) added,
      ap (Entries.entry name (Json.str text)) entries,
      ((validate_mail_header_iff name text).0 clean, all_clean),
    )
headers_from_entries_sound (Entries.entry name _ rest) out m h = absurd (cc)

accepted :
    (v : Json) (m : Headers)
    → mail_headers_from_json v ≡ ok m
    → (v ≡ Json.obj (entries_of m)) × All IsClean m
unfolding mail_headers_from_json
accepted (Json.obj es) m h =
    let (added, e, entries, clean) = headers_from_entries_sound es [] m h in
    rw e (ap Json.obj entries, clean)
accepted Json.null m h = absurd (cc)
accepted (Json.boolean b) m h = absurd (cc)
accepted (Json.number n) m h = absurd (cc)
accepted (Json.str s) m h = absurd (cc)
accepted (Json.arr xs) m h = absurd (cc)

-- What the guard accepts is exactly an object whose values are texts and whose headers are clean,
-- and it hands over those headers, all of them and in their order.
pub mail_headers_from_json_iff :
    (v : Json) (m : Headers)
    → (mail_headers_from_json v ≡ ok m) ↔ ((v ≡ Json.obj (entries_of m)) × All IsClean m)
unfolding mail_headers_from_json
mail_headers_from_json_iff v m = (accepted v m, λ h. rw (h.0) (headers_from_entries_ok m [] h.1))
