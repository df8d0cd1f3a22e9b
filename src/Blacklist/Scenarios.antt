-- ===== src/Blacklist/Scenarios.antt =====
-- A blacklist with one archived address, and the theorems at it.
use backbone_mail.Prelude.{ℕ, ◌≡◌, refl, true, false, [], ◌∷◌, none, some, ok}
use backbone_mail.Prelude.Text.{
  Text, codes, text_eq, trim, trim_end, trim_start, is_whitespace, to_lowercase,
}
use backbone_mail.Blacklist.{
  Table, AddOutcome, RemoveOutcome, add, remove, canonical_email, mail_add, mail_remove,
  mail_is_listed, upsert_active, upserted, reactivate,
}
use backbone_mail.Blacklist.Listing.{Adds, Removes, verbs_refine_set, spellings_agree}

abbrev unfolded : ℕ → Text
unfolded c = c ∷ []

abbrev table : Table
table = record { id = 1; key = codes "a@b.c"; active = false; opt_out_reason_id = some 9 } ∷ []

-- An add without a reason lists the address again and keeps the reason.
reactivates : add (codes "a@b.c") none 2 table ≡ (
  record { id = 1; key = codes "a@b.c"; active = true; opt_out_reason_id = some 9 } ∷ [],
  AddOutcome.reactivated 1,
)
unfolding add upsert_active upserted reactivate text_eq
reactivates = refl

verbs_refine_set_example :
    Adds (codes "x@y.z") 2 table (add (codes "x@y.z") none 2 table)
    × Removes (codes "x@y.z") table (remove (codes "x@y.z") table)
verbs_refine_set_example = verbs_refine_set (codes "x@y.z") none 2 table (refl, tt)

folds : canonical_email unfolded (codes " A@b.C ") ≡ ok (codes "a@b.c")
unfolding canonical_email trim trim_end trim_start is_whitespace to_lowercase
folds = refl

folds_same : canonical_email unfolded (codes "a@B.c") ≡ ok (codes "a@b.c")
unfolding canonical_email trim trim_end trim_start is_whitespace to_lowercase
folds_same = refl

spellings_agree_example :
    (added : Table × AddOutcome) × (gone : Table × RemoveOutcome) × (mail_add unfolded
        (codes " A@b.C ")
        none
        2
        table
      ≡ ok added)
    × (mail_is_listed unfolded (codes "a@B.c") added.0 ≡ ok true)
    × (mail_remove unfolded (codes "a@B.c") added.0 ≡ ok gone)
    × (mail_is_listed unfolded (codes " A@b.C ") gone.0 ≡ ok false)
spellings_agree_example =
    spellings_agree unfolded (codes " A@b.C ") (codes "a@B.c") (codes "a@b.c") none 2 table
      (refl, tt) folds folds_same
