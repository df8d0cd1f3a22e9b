-- ===== src/Blacklist/Verbs.antt =====
-- The verbs of the blacklists as operations on a set of keys.
use backbone_mail.Prelude.{
  ◌≡◌, refl, ◌∙◌, inl, inr, true, false, [], ◌∷◌, ◌++◌, map, Option, none, some, arith, ◌&&◌, ◌||◌,
  not, any, find, Bool-cases,
}
use backbone_mail.Prelude.Text.{Text, text_eq, text_eq_iff}
use backbone_mail.Store.Channel.{Uuid}
use backbone_mail.Blacklist.{
  BlacklistRow, Table, has_key, reactivate, archive, exists_active, fresh_row,
}

-- At most one row for a key, as the unique index has it.
abbrev pub IsKeyed : Table → Type 0
IsKeyed [] = Unit
IsKeyed (r ∷ t) = (any (has_key r.key) t ≡ false) × IsKeyed t

pub listed-reactivate :
    (key k : Text) (reason : Option Uuid) (t : Table)
    → exists_active k (map (reactivate key reason) t)
      ≡ ((text_eq key k && any (has_key key) t) || exists_active k t)
unfolding exists_active reactivate
listed-reactivate key k reason [] = ground arith
listed-reactivate key k reason (r ∷ t) = ground (
  arith,
  listed-reactivate key k reason t,
  text_eq_iff r.key key,
  text_eq_iff r.key k,
  text_eq_iff key k,
)

pub listed-archive :
    (key k : Text) (t : Table)
    → exists_active k (map (archive key) t) ≡ (not (text_eq key k) && exists_active k t)
unfolding exists_active archive
listed-archive key k [] = ground arith
listed-archive key k (r ∷ t) =
    ground
      (arith, listed-archive key k t, text_eq_iff r.key key, text_eq_iff r.key k, text_eq_iff key k)

pub listed-append :
    (key k : Text) (new_id : Uuid) (reason : Option Uuid) (t : Table)
    → exists_active k (t ++ fresh_row key new_id reason ∷ []) ≡ (text_eq key k || exists_active k t)
unfolding exists_active
listed-append key k new_id reason [] = ground arith
listed-append key k new_id reason (r ∷ t) = ground (arith, listed-append key k new_id reason t)

pub found_has :
    (key : Text) (t : Table) (r : BlacklistRow)
    → find (has_key key) t ≡ some r
    → any (has_key key) t ≡ true
found_has key [] r h = absurd (cc h)
found_has key (x ∷ t) r h = ground (arith, found_has key t r)

pub missed_has :
    (key : Text) (t : Table) → find (has_key key) t ≡ none → any (has_key key) t ≡ false
missed_has key [] h = refl
missed_has key (x ∷ t) h = ground (arith, missed_has key t)

unlisted : (key : Text) (t : Table) → any (has_key key) t ≡ false → exists_active key t ≡ false
unfolding exists_active
unlisted key [] h = refl
unlisted key (x ∷ t) h = ground (arith, unlisted key t)

-- In a keyed table the row that is found is the one that says whether the key is listed.
pub found_lists :
    (key : Text) (t : Table) (r : BlacklistRow)
    → IsKeyed t
    → find (has_key key) t ≡ some r
    → exists_active key t ≡ r.active
unfolding exists_active
found_lists key [] r keyed h = absurd (cc h)
found_lists key (x ∷ t) r (alone, keyed) h = elim (Bool-cases (has_key key x)) [
  | inl here ↦
      let same : x.key ≡ key = (text_eq_iff x.key key).0 here in
      let found : x ≡ r = cc (rw here at h) in
      let rest : exists_active key t ≡ false = unlisted key t (rw (← same) alone) in
      rw here (rw rest (rw found (ground arith)))
  | inr other ↦ rw other (found_lists key t r keyed (rw other at h))
]

pub missed_lists :
    (key : Text) (t : Table) → find (has_key key) t ≡ none → exists_active key t ≡ false
unfolding exists_active
missed_lists key [] h = refl
missed_lists key (x ∷ t) h = ground (arith, missed_lists key t)

keys-reactivate :
    (key k : Text) (reason : Option Uuid) (t : Table)
    → any (has_key k) (map (reactivate key reason) t) ≡ any (has_key k) t
unfolding reactivate
keys-reactivate key k reason [] = refl
keys-reactivate key k reason (r ∷ t) = ground (arith, keys-reactivate key k reason t)

keys-archive :
    (key k : Text) (t : Table) → any (has_key k) (map (archive key) t) ≡ any (has_key k) t
unfolding archive
keys-archive key k [] = refl
keys-archive key k (r ∷ t) = ground (arith, keys-archive key k t)

key-reactivate :
    (key : Text) (reason : Option Uuid) (r : BlacklistRow) → (reactivate key reason r).key ≡ r.key
unfolding reactivate
key-reactivate key reason r = ground arith

key-archive : (key : Text) (r : BlacklistRow) → (archive key r).key ≡ r.key
unfolding archive
key-archive key r = ground arith

pub reactivate-IsKeyed :
    (key : Text) (reason : Option Uuid) (t : Table)
    → IsKeyed t
    → IsKeyed (map (reactivate key reason) t)
reactivate-IsKeyed key reason [] h = tt
reactivate-IsKeyed key reason (r ∷ t) (alone, h) = (
  rw (key-reactivate key reason r) (keys-reactivate key r.key reason t ∙ alone),
  reactivate-IsKeyed key reason t h,
)

pub archive-IsKeyed : (key : Text) (t : Table) → IsKeyed t → IsKeyed (map (archive key) t)
archive-IsKeyed key [] h = tt
archive-IsKeyed key (r ∷ t) (alone, h) =
    (rw (key-archive key r) (keys-archive key r.key t ∙ alone), archive-IsKeyed key t h)

keys-append :
    (k key : Text) (new_id : Uuid) (reason : Option Uuid) (t : Table)
    → any (has_key k) (t ++ fresh_row key new_id reason ∷ []) ≡ (any (has_key k) t || text_eq key k)
keys-append k key new_id reason [] = ground arith
keys-append k key new_id reason (r ∷ t) = ground (arith, keys-append k key new_id reason t)

pub append-IsKeyed :
    (key : Text) (new_id : Uuid) (reason : Option Uuid) (t : Table)
    → IsKeyed t
    → any (has_key key) t ≡ false
    → IsKeyed (t ++ fresh_row key new_id reason ∷ [])
append-IsKeyed key new_id reason [] h missing = (refl, tt)
append-IsKeyed key new_id reason (r ∷ t) (alone, h) missing = (
  keys-append r.key key new_id reason t
      ∙ ground (arith, alone, missing, text_eq_iff r.key key, text_eq_iff key r.key),
  append-IsKeyed key new_id reason t h (ground (arith, missing)),
)
