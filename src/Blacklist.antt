-- ===== src/Blacklist.antt =====
-- The blacklists: src/application/service/phone_blacklist_write_service.rs and
-- mail_blacklist_write_service.rs over their `*_verb_repository.rs` of
-- src/infrastructure/persistence. The two tables have one shape but for the column
-- `opt_out_reason_id`,
-- which the phone table lacks and which is `none` in its rows here. Each verb is one statement.
pub mod Verbs
pub mod Listing
mod Scenarios
use backbone_mail.Prelude.{
  ℕ, Bool, true, false, List, [], ◌∷◌, ◌++◌, map, Option, none, some, ◌&&◌, any, find, filterb,
  is_empty, or_else, if◌then◌else◌, Result, ok, err, ◌>>=◌,
}
use backbone_mail.Prelude.Text.{Text, codes, text_eq, trim, to_lowercase}
use backbone_mail.Store.Channel.{Uuid}

-- `number` of the phone table, `email` of the other.
pub record BlacklistRow : Type 0 where
  pub id : Uuid
  pub key : Text
  pub active : Bool
  pub opt_out_reason_id : Option Uuid

pub record UpsertState : Type 0 where
  pub row_id : Uuid
  pub existed : Bool
  pub was_active : Bool

pub record ArchiveState : Type 0 where
  pub row_id : Uuid
  pub was_active : Bool
  pub changed : Bool

pub data AddOutcome : Type 0 where
  newly_listed reactivated already_listed : Uuid → AddOutcome

pub data RemoveOutcome : Type 0 where
  removed already_inactive : Uuid → RemoveOutcome
  not_listed : RemoveOutcome

abbrev pub Table : Type 0
Table = List BlacklistRow

abbrev pub has_key : Text → BlacklistRow → Bool
has_key key r = text_eq r.key key

-- `ON CONFLICT … DO UPDATE`
unfoldable pub reactivate : Text → Option Uuid → BlacklistRow → BlacklistRow
reactivate key reason r =
    if has_key key r
    then record r { active = true; opt_out_reason_id = or_else reason r.opt_out_reason_id }
    else r

abbrev pub fresh_row : Text → Uuid → Option Uuid → BlacklistRow
fresh_row key new_id reason = record {
  id = new_id;
  key = key;
  active = true;
  opt_out_reason_id = reason;
}

-- from `prev` on
unfoldable pub upserted :
    Text → Uuid → Option Uuid → Table → Option BlacklistRow → Table × UpsertState
unfolding reactivate
upserted key new_id reason t none = (
  t ++ fresh_row key new_id reason ∷ [],
  record { row_id = new_id; existed = false; was_active = false },
)
upserted key new_id reason t (some r) =
    (map (reactivate key reason) t, record { row_id = r.id; existed = true; was_active = r.active })

unfoldable pub upsert_active : Text → Uuid → Option Uuid → Table → Table × UpsertState
unfolding upserted
upsert_active key new_id reason t = upserted key new_id reason t (find (has_key key) t)

unfoldable pub archive : Text → BlacklistRow → BlacklistRow
archive key r = if has_key key r && r.active then record r { active = false } else r

unfoldable pub archived : Text → Table → Option BlacklistRow → Table × Option ArchiveState
unfolding archive
archived key t none = (t, none)
archived key t (some r) = (
  map (archive key) t,
  some (record { row_id = r.id; was_active = r.active; changed = r.active }),
)

unfoldable pub archive_if_active : Text → Table → Table × Option ArchiveState
unfolding archived
archive_if_active key t = archived key t (find (has_key key) t)

unfoldable pub exists_active : Text → Table → Bool
exists_active key t = any (λ r. has_key key r && r.active) t

-- `active_numbers` and `active_emails`
unfoldable pub active_among : List Text → Table → List Text
active_among keys t =
    map (λ (r : BlacklistRow). r.key) (filterb (λ r. r.active && any (λ k. text_eq k r.key) keys) t)

abbrev pub add_outcome : UpsertState → AddOutcome
add_outcome s =
    if s.existed
    then (if s.was_active
        then AddOutcome.already_listed s.row_id
        else AddOutcome.reactivated s.row_id)
    else AddOutcome.newly_listed s.row_id

abbrev pub remove_outcome : Option ArchiveState → RemoveOutcome
remove_outcome none = RemoveOutcome.not_listed
remove_outcome (some s) =
    if s.changed then RemoveOutcome.removed s.row_id else RemoveOutcome.already_inactive s.row_id

-- The verbs on a canonical key, which the services share: those of the phone blacklist.
unfoldable pub add : Text → Option Uuid → Uuid → Table → Table × AddOutcome
unfolding upsert_active
add key reason new_id t =
    let done = upsert_active key new_id reason t in (done.0, add_outcome done.1)

unfoldable pub remove : Text → Table → Table × RemoveOutcome
unfolding archive_if_active
remove key t = let done = archive_if_active key t in (done.0, remove_outcome done.1)

unfoldable pub listed_among : List Text → Table → List Text
unfolding active_among
listed_among keys t = if is_empty keys then [] else active_among keys t

-- The verbs of the mail blacklist fold an address first.
unfoldable pub canonical_email : (ℕ → Text) → Text → Result Text Text
unfolding trim to_lowercase
canonical_email unicode raw =
    let folded = to_lowercase unicode (trim raw) in
    if is_empty folded
    then err (codes "blacklist email is blank (empty or whitespace)")
    else ok folded

unfoldable pub mail_add :
    (ℕ → Text) → Text → Option Uuid → Uuid → Table → Result Text (Table × AddOutcome)
unfolding add canonical_email
mail_add unicode email reason new_id t =
    canonical_email unicode email >>= λ key. ok (add key reason new_id t)

unfoldable pub mail_remove : (ℕ → Text) → Text → Table → Result Text (Table × RemoveOutcome)
unfolding remove canonical_email
mail_remove unicode email t = canonical_email unicode email >>= λ key. ok (remove key t)

unfoldable pub mail_is_listed : (ℕ → Text) → Text → Table → Result Text Bool
unfolding exists_active canonical_email
mail_is_listed unicode email t = canonical_email unicode email >>= λ key. ok (exists_active key t)
