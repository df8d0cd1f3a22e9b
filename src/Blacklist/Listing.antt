-- ===== src/Blacklist/Listing.antt =====
-- The blacklist verbs against the set of listed keys.
use backbone_mail.Prelude.{
  ℕ, ◌≡◌, refl, sym, ap, ◌∙◌, inl, inr, true, false, Option, none, some, arith, ◌&&◌, ◌||◌, not,
  find, if◌then◌else◌, Bool-cases, Option-cases, ok,
}
use backbone_mail.Prelude.Text.{Text, text_eq, text_eq_refl, text_eq_iff}
use backbone_mail.Store.Channel.{Uuid}
use backbone_mail.Blacklist.{
  BlacklistRow, Table, AddOutcome, RemoveOutcome, has_key, upserted, upsert_active, archived,
  archive_if_active, exists_active, add, remove, canonical_email, mail_add, mail_remove,
  mail_is_listed,
}
use backbone_mail.Blacklist.Verbs.{
  IsKeyed, listed-reactivate, listed-archive, listed-append, found_has, missed_has, found_lists,
  missed_lists, reactivate-IsKeyed, archive-IsKeyed, append-IsKeyed,
}

-- What an add answers, by the row that it found.
abbrev pub added_as : Text → Uuid → Table → Option BlacklistRow → AddOutcome
unfolding exists_active
added_as key new_id t none = AddOutcome.newly_listed new_id
added_as key new_id t (some r) =
    if exists_active key t then AddOutcome.already_listed r.id else AddOutcome.reactivated r.id

abbrev pub removed_as : Text → Table → Option BlacklistRow → RemoveOutcome
unfolding exists_active
removed_as key t none = RemoveOutcome.not_listed
removed_as key t (some r) =
    if exists_active key t then RemoveOutcome.removed r.id else RemoveOutcome.already_inactive r.id

abbrev pub Adds : Text → Uuid → Table → Table × AddOutcome → Type 0
unfolding added_as
Adds key new_id t done =
    IsKeyed done.0
    × ((k : Text) → exists_active k done.0 ≡ (text_eq key k || exists_active k t))
    × (done.1 ≡ added_as key new_id t (find (has_key key) t))

abbrev pub Removes : Text → Table → Table × RemoveOutcome → Type 0
unfolding removed_as
Removes key t done =
    IsKeyed done.0
    × ((k : Text) → exists_active k done.0 ≡ (not (text_eq key k) && exists_active k t))
    × (done.1 ≡ removed_as key t (find (has_key key) t))

adds :
    (key : Text) (reason : Option Uuid) (new_id : Uuid) (t : Table)
    → IsKeyed t
    → Adds key new_id t (add key reason new_id t)
unfolding add upsert_active upserted added_as
adds key reason new_id t keyed = elim (Option-cases (find (has_key key) t)) [
  | inl gone ↦ rw gone (
    append-IsKeyed key new_id reason t keyed (missed_has key t gone),
    λ k. listed-append key k new_id reason t,
    refl,
  )
  | inr (r, found) ↦
      let there = found_has key t r found in
      rw found (
        reactivate-IsKeyed key reason t keyed,
        λ k. listed-reactivate key k reason t ∙ rw there (ground arith),
        rw (found_lists key t r keyed found) refl,
      )
]

absent :
    (key k : Text) (t : Table)
    → find (has_key key) t ≡ none
    → exists_active k t ≡ (not (text_eq key k) && exists_active k t)
absent key k t gone = elim (Bool-cases (text_eq key k)) [
  | inl same ↦
      rw same
        ((ap (λ x. exists_active x t) (sym ((text_eq_iff key k).0 same))) ∙ missed_lists key t gone)
  | inr other ↦ rw other refl
]

removes : (key : Text) (t : Table) → IsKeyed t → Removes key t (remove key t)
unfolding remove archive_if_active archived removed_as
removes key t keyed = elim (Option-cases (find (has_key key) t)) [
  | inl gone ↦ rw gone (keyed, λ k. absent key k t gone, refl)
  | inr (r, found) ↦ rw found (
    archive-IsKeyed key t keyed,
    λ k. listed-archive key k t,
    rw (found_lists key t r keyed found) refl,
  )
]

-- On a table with at most one row for a key, an add makes its key listed and a remove makes it
-- unlisted, no other key changes, the table keeps its one row for a key, and the outcome tells
-- whether there was a row and whether it was listed.
pub verbs_refine_set :
    (key : Text) (reason : Option Uuid) (new_id : Uuid) (t : Table)
    → IsKeyed t
    → Adds key new_id t (add key reason new_id t) × Removes key t (remove key t)
verbs_refine_set key reason new_id t keyed = (adds key reason new_id t keyed, removes key t keyed)

-- Two spellings of one mail address list and unlist each other: after either is added the other is
-- listed, and after that one is removed the first is not.
pub spellings_agree :
    (unicode : ℕ → Text) (one other key : Text) (reason : Option Uuid) (new_id : Uuid) (t : Table)
    → IsKeyed t
    → canonical_email unicode one ≡ ok key
    → canonical_email unicode other ≡ ok key
    → (added : Table × AddOutcome) × (gone : Table × RemoveOutcome) × (mail_add unicode one reason
          new_id t
        ≡ ok added)
      × (mail_is_listed unicode other added.0 ≡ ok true)
      × (mail_remove unicode other added.0 ≡ ok gone)
      × (mail_is_listed unicode one gone.0 ≡ ok false)
unfolding mail_add mail_is_listed mail_remove
spellings_agree unicode one other key reason new_id t keyed h g =
    let added = add key reason new_id t in
    let (still, lists, outcome) = adds key reason new_id t keyed in
    let (kept, unlists, answer) = removes key added.0 still in
    (
      added,
      remove key added.0,
      rw h refl,
      rw g (ap ok (lists key ∙ rw (text_eq_refl key) refl)),
      rw g refl,
      rw h (ap ok (unlists key ∙ rw (text_eq_refl key) refl)),
    )
