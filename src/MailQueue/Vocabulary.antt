-- ===== src/MailQueue/Vocabulary.antt =====
-- The failure vocabulary of a queued mail.
use backbone_mail.Prelude.{◌≡◌, refl, true, ◌⊎◌, some, arith, inl, inr}
use backbone_mail.Prelude.Text.{Text, codes, text_eq}
use backbone_mail.Status.{is_label, notification_failure_types}
use backbone_mail.MailQueue.Verdict.{mail_failure_types, normalize_failure_type}

-- the seven texts that the fold answers with
abbrev IsFolded : Text → Type 0
IsFolded t =
    (t ≡ codes "mail_smtp")
    ⊎ (t ≡ codes "mail_email_invalid")
    ⊎ (t ≡ codes "mail_bounce")
    ⊎ (t ≡ codes "mail_blacklist")
    ⊎ (t ≡ codes "mail_recipient")
    ⊎ (t ≡ codes "mail_server")
    ⊎ (t ≡ codes "unknown")

normalize_failure_type-IsFolded : (raw : Text) → IsFolded (normalize_failure_type raw)
unfolding normalize_failure_type
normalize_failure_type-IsFolded raw = ground arith

abbrev IsStable : Text → Type 0
IsStable t =
    (is_label mail_failure_types (some t) ≡ true)
    × (is_label notification_failure_types (some t) ≡ true)
    × (normalize_failure_type t ≡ t)

folded-IsStable : (t : Text) → IsFolded t → IsStable t
unfolding normalize_failure_type is_label text_eq
folded-IsStable t (inl e) = rw e (refl, refl, refl)
folded-IsStable t (inr (inl e)) = rw e (refl, refl, refl)
folded-IsStable t (inr (inr (inl e))) = rw e (refl, refl, refl)
folded-IsStable t (inr (inr (inr (inl e)))) = rw e (refl, refl, refl)
folded-IsStable t (inr (inr (inr (inr (inl e))))) = rw e (refl, refl, refl)
folded-IsStable t (inr (inr (inr (inr (inr (inl e)))))) = rw e (refl, refl, refl)
folded-IsStable t (inr (inr (inr (inr (inr (inr e)))))) = rw e (refl, refl, refl)

-- Whatever text a transport reports, the failure type that is written is a label of both enums, so
-- no cast of it fails; and folding again changes nothing.
pub normalize_failure_type_label :
    (raw : Text)
    → (is_label mail_failure_types (some (normalize_failure_type raw)) ≡ true)
      × (is_label notification_failure_types (some (normalize_failure_type raw)) ≡ true)
      × (normalize_failure_type (normalize_failure_type raw) ≡ normalize_failure_type raw)
normalize_failure_type_label raw =
    folded-IsStable (normalize_failure_type raw) (normalize_failure_type-IsFolded raw)
