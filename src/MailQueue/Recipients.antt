-- ===== src/MailQueue/Recipients.antt =====
-- The recipients that a post joins and the drainer splits again.
use backbone_mail.Prelude.{
  ◌≡◌, refl, ap, ◌∙◌, Bool, true, false, List, [], ◌∷◌, ◌++◌, All, none, some, is_empty,
}
use mathlib.Core.List.{append-nil}
use backbone_mail.Prelude.Text.{Text, codes, contains_char, split_on, trim, join}
use backbone_mail.Prelude.Text.Split.{split_on_none, split_on-append, trim_blank}
use backbone_mail.MailQueue.Verdict.{split_recipients, keep_trimmed}

-- An address as a list of addresses can carry it: not empty, with no comma, and trimmed.
abbrev pub IsAddress : Text → Type 0
IsAddress a = (is_empty a ≡ false) × (contains_char b',' a ≡ false) × (trim a ≡ a)

abbrev lead : Bool → Text → Text
lead false a = a
lead true a = 0x20 ∷ a

trim-lead : (b : Bool) (a : Text) → trim (lead b a) ≡ trim a
trim-lead false a = refl
trim-lead true a = trim_blank a

contains_char-lead :
    (b : Bool) (a : Text) → contains_char b',' a ≡ false → contains_char b',' (lead b a) ≡ false
unfolding contains_char
contains_char-lead false a h = h
contains_char-lead true a h = h

lead-append : (b : Bool) (a s : Text) → lead b (a ++ s) ≡ lead b a ++ s
lead-append false a s = refl
lead-append true a s = refl

keep_first :
    (b : Bool) (a : Text) (ps : List Text)
    → IsAddress a
    → keep_trimmed (lead b a ∷ ps) ≡ a ∷ keep_trimmed ps
unfolding keep_trimmed
keep_first b a ps (full, single, trimmed) = rw (trim-lead b a, trimmed, full) refl

keep_trimmed_nil : keep_trimmed [] ≡ []
unfolding keep_trimmed
keep_trimmed_nil = refl

keep-split-join_nil : (b : Bool) → keep_trimmed (split_on b',' (lead b (join (codes ", ") []))) ≡ []
unfolding join split_on keep_trimmed trim
keep-split-join_nil false = refl
keep-split-join_nil true = refl

join_single : (a : Text) → join (codes ", ") (a ∷ []) ≡ a
unfolding join
join_single a = refl

join-cons :
    (a c : Text) (rest : List Text)
    → join (codes ", ") (a ∷ c ∷ rest) ≡ a ++ b',' ∷ lead true (join (codes ", ") (c ∷ rest))
unfolding join
join-cons a c rest = refl

keep-split-join :
    (b : Bool) (addresses : List Text)
    → All IsAddress addresses
    → keep_trimmed (split_on b',' (lead b (join (codes ", ") addresses))) ≡ addresses
keep-split-join b [] h = keep-split-join_nil b
keep-split-join b (a ∷ []) h =
    rw (join_single a, split_on_none b',' (lead b a) (contains_char-lead b a h.0.1))
      (keep_first b a [] h.0 ∙ ap (λ addresses. a ∷ addresses) keep_trimmed_nil)
keep-split-join b (a ∷ c ∷ rest) h =
    let later = join (codes ", ") (c ∷ rest) in
    rw (join-cons a c rest, lead-append b a (b',' ∷ lead true later))
      (rw (split_on-append b',' (lead b a) (lead true later) (contains_char-lead b a h.0.1)) (
        keep_first b a (split_on b',' (lead true later)) h.0
        ∙ ap (λ addresses. a ∷ addresses) (keep-split-join true (c ∷ rest) h.1)))

-- The addresses of a post come back from the row's `email_to` as they were, where none of them is
-- blank, carries a comma or has blanks at an end.
pub split_recipients-join :
    (addresses : List Text)
    → All IsAddress addresses
    → split_recipients (some (join (codes ", ") addresses)) none ≡ addresses
unfolding split_recipients
split_recipients-join addresses h = rw (keep-split-join false addresses h) (append-nil addresses)
