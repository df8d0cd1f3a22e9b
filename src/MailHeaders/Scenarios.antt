-- ===== src/MailHeaders/Scenarios.antt =====
-- Headers that the guard and the merge take, with the theorems at them.
use backbone_mail.Prelude.{◌≡◌, ◌↔◌, All, true, refl, [], ◌∷◌, some, ok}
use backbone_mail.Prelude.Text.{codes, text_eq, contains_char, to_ascii_lowercase}
use backbone_mail.Prelude.Json.{Json}
use backbone_mail.MailHeaders.{
  Headers, mail_headers_from_json, merge_transport_headers, add_threading, has_line_break,
  is_reserved, eq_ignore_ascii_case,
}
use backbone_mail.MailHeaders.Guard.{entries_of, mail_headers_from_json_iff}
use backbone_mail.MailHeaders.Merge.{IsMergeable, IsThreaded, merge_transport_headers_iff}

abbrev unsubscribe : Headers
unsubscribe = (codes "List-Unsubscribe", codes "<mailto:x@y>") ∷ []

mail_headers_from_json_iff_example :
    mail_headers_from_json (Json.obj (entries_of unsubscribe)) ≡ ok unsubscribe
unfolding has_line_break contains_char
mail_headers_from_json_iff_example =
    (mail_headers_from_json_iff (Json.obj (entries_of unsubscribe)) unsubscribe).1
      (refl, ((refl, refl, refl), tt))

abbrev replied : Headers
replied = add_threading (some (codes "<p@h>")) unsubscribe

merge_transport_headers_iff_example :
    ((merge_transport_headers (some (codes "<p@h>")) unsubscribe ≡ ok replied) ↔ (
      All (IsMergeable true) unsubscribe
      × (replied ≡ add_threading (some (codes "<p@h>")) unsubscribe)))
    × IsThreaded (some (codes "<p@h>")) unsubscribe replied
merge_transport_headers_iff_example =
    merge_transport_headers_iff (some (codes "<p@h>")) unsubscribe replied

unsubscribe_merged :
    merge_transport_headers (some (codes "<p@h>")) unsubscribe
    ≡ ok (add_threading (some (codes "<p@h>")) unsubscribe)
unfolding has_line_break contains_char is_reserved eq_ignore_ascii_case text_eq to_ascii_lowercase
unsubscribe_merged =
    (merge_transport_headers_iff (some (codes "<p@h>")) unsubscribe
        (add_threading (some (codes "<p@h>")) unsubscribe)).0.1
      ((((refl, refl, refl), refl), tt), refl)
