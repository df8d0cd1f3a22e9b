-- ===== src/MailHeaders/Merge.antt =====
-- What the gateway hands to the transport.
use backbone_mail.Prelude.{
  ◌≡◌, refl, ap, ◌∙◌, ◌↔◌, Bool, false, ◌&&◌, [], ◌∷◌, ◌++◌, All, arith, Option, none, some,
  is_some, if◌then◌else◌, ok, step-came_through,
}
use mathlib.Core.List.{append_assoc, append-nil}
use backbone_mail.Prelude.Text.{Text, codes, text_eq, text_eq_iff}
use backbone_mail.MailHeaders.{
  Headers, insert, get, is_reserved, merge_entries, merge_transport_headers, add_threading,
  in_reply_to_name, references_name,
}
use backbone_mail.MailHeaders.Guard.{IsClean, validate_mail_header_iff}

-- A header that the merge lets through, where `structured` says that a parent is set.
abbrev pub IsMergeable : Bool → Text × Text → Type 0
IsMergeable structured (name, value) =
    IsClean (name, value) × (structured && is_reserved name ≡ false)

merge_entries_ok :
    (structured : Bool) (m out : Headers)
    → All (IsMergeable structured) m
    → merge_entries structured m out ≡ ok (out ++ m)
unfolding merge_entries
merge_entries_ok structured [] out c = rw (append-nil out)
merge_entries_ok structured ((name, value) ∷ m) out c =
    rw ((validate_mail_header_iff name value).1 c.0.0, c.0.1)
      (merge_entries_ok structured m (out ++ (name, value) ∷ []) c.1
        ∙ ap ok (append_assoc out ((name, value) ∷ []) m))

merge_step :
    (structured : Bool) (name value : Text) (m out : Headers) {r : Headers}
    → merge_entries structured ((name, value) ∷ m) out ≡ ok r
    → IsMergeable structured (name, value)
      × (merge_entries structured m (out ++ (name, value) ∷ []) ≡ ok r)
unfolding merge_entries
merge_step structured name value m out h = ground (arith, validate_mail_header_iff name value)

merge_entries_sound :
    (structured : Bool) (m out r : Headers)
    → merge_entries structured m out ≡ ok r
    → (r ≡ out ++ m) × All (IsMergeable structured) m
unfolding merge_entries
merge_entries_sound structured [] out r h = (cc (append-nil out), tt)
merge_entries_sound structured ((name, value) ∷ m) out r h =
    let (good, later) = merge_step structured name value m out h in
    let (e, rest) = merge_entries_sound structured m (out ++ (name, value) ∷ []) r later in
    (e ∙ append_assoc out ((name, value) ∷ []) m, (good, rest))

merged_sound :
    (parent : Option Text) (m r : Headers)
    → merge_transport_headers parent m ≡ ok r
    → All (IsMergeable (is_some parent)) m × (r ≡ add_threading parent m)
unfolding merge_transport_headers
merged_sound parent m r h =
    let (merged, e, entries) =
      step-came_through (λ merged. ok (add_threading parent merged))
        (merge_entries (is_some parent) m []) h in
    let (same, good) = merge_entries_sound (is_some parent) m [] merged entries in
    (good, rw (← same) (cc))

merged_ok :
    (parent : Option Text) (m r : Headers)
    → All (IsMergeable (is_some parent)) m × (r ≡ add_threading parent m)
    → merge_transport_headers parent m ≡ ok r
unfolding merge_transport_headers
merged_ok parent m r h = rw (merge_entries_ok (is_some parent) m [] h.0, h.1) refl

get-insert :
    (k j v : Text) (m : Headers) → get j (insert k v m) ≡ (if text_eq k j then some v else get j m)
unfolding get insert
get-insert k j v [] = refl
get-insert k j v ((i, w) ∷ m) =
    ground (arith, text_eq_iff k j, text_eq_iff i k, text_eq_iff i j, get-insert k j v m)

-- The headers that go out: with a parent set, the headers `References` and `In-Reply-To` are the
-- parent and every other one is looked up as the per-mail headers have it; without, they are the
-- per-mail headers.
abbrev pub IsThreaded : Option Text → Headers → Headers → Type 0
IsThreaded none m r = r ≡ m
IsThreaded (some parent) m r =
    (k : Text)
    → get k r ≡ (
        if text_eq (codes "References") k
        then some parent
        else if text_eq (codes "In-Reply-To") k
        then some parent
        else get k m)

threaded : (parent : Option Text) (m : Headers) → IsThreaded parent m (add_threading parent m)
threaded none m = refl
threaded (some parent) m = λ k.
    rw (get-insert references_name k parent (insert in_reply_to_name parent m))
      (rw (get-insert in_reply_to_name k parent m) refl)

-- The merge succeeds exactly when every header is clean and, where a parent is set, none carries a
-- threading name in any case of letters. What it hands over then is the per-mail headers, and where
-- a parent is set the headers `In-Reply-To` and `References` are that parent, while every other
-- header is as it was.
pub merge_transport_headers_iff :
    (parent : Option Text) (m r : Headers)
    → ((merge_transport_headers parent m ≡ ok r)
        ↔ (All (IsMergeable (is_some parent)) m × (r ≡ add_threading parent m)))
      × IsThreaded parent m (add_threading parent m)
merge_transport_headers_iff parent m r =
    ((merged_sound parent m r, merged_ok parent m r), threaded parent m)
