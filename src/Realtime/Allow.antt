-- ===== src/Realtime/Allow.antt =====
-- Which events a stream of src/realtime/sse.rs may carry.
use mathlib.Core.Bool.{false≢true}
use backbone_mail.Prelude.{
  ℕ, suc, ◌≤◌, ◌≡◌, refl, ◌↔◌, ◌⊎◌, inl, inr, Bool, true, false, List, [], ◌∷◌, Option, none, some,
  Result, ok, err, arith, any, Memb, length, leb, Bool-cases, take, sym, ap, ◌∙◌, zero, ◌+◌, ◌++◌,
  if◌then◌else◌,
}
use backbone_mail.Prelude.Text.{Text, codes, text_eq, text_eq_iff}
use backbone_mail.Store.Channel.{Uuid, discuss_channel, render}
use backbone_mail.Chatter.{MessagingIdentity, channel, ThreadAclSlot, default_slot, slot_can_read}
use backbone_mail.Chatter.Closed.{OwnWall, listed_iff, closed_by_default}
use backbone_mail.Realtime.Polls.Known.{Distinct}
use backbone_mail.Realtime.Registry.{TailedEvent}
use backbone_mail.Realtime.Tailer.{parse_record_key}
use backbone_mail.Realtime.Stream.{
  Allowlist, add_channels, insert, build, permits, resolved, max_membership_channels,
}

module _ (names : List Text) where
  insert_once : (n : Text) → length (insert n names) ≤ suc (length names)
  insert_once n = ground arith

insert-Memb : (n m : Text) (names : List Text) → Memb m (insert n names) → (n ≡ m) ⊎ Memb m names
insert-Memb n m names h = elim (Bool-cases (any (λ k. text_eq k n) names)) [
  | inl there ↦ inr (rw there at h)
  | inr new ↦ rw new at h
]

module _ (show : Uuid → Text) where
  add_channels-length :
      (ceiling : ℕ) (ids : List Uuid) (names : List Text)
      → length names ≤ ceiling
      → length (add_channels ceiling show ids names) ≤ ceiling
  unfolding add_channels
  add_channels-length ceiling [] names h = h
  add_channels-length ceiling (id ∷ ids) names h = elim (Bool-cases (leb ceiling (length names))) [
    | inl full ↦ rw full h
    | inr room ↦ rw room (
        add_channels-length ceiling ids (insert (render show (discuss_channel id)) names)
          (ground (arith, room, insert_once names (render show (discuss_channel id)))))
  ]

  add_channels-Memb :
      (ceiling : ℕ) (ids : List Uuid) (names : List Text) (n : Text)
      → Memb n (add_channels ceiling show ids names)
      → Memb n names ⊎ ((id : Uuid) × Memb id ids × (render show (discuss_channel id) ≡ n))
  unfolding add_channels
  add_channels-Memb ceiling [] names n m = inl m
  add_channels-Memb ceiling (id ∷ ids) names n m = elim (Bool-cases (leb ceiling (length names))) [
    | inl full ↦ inl (rw full at m)
    | inr room ↦
        elim (add_channels-Memb ceiling ids (insert (render show (discuss_channel id)) names) n
          (rw room at m)) [
            | inl old ↦ elim (insert-Memb (render show (discuss_channel id)) n names old) [
              | inl e ↦ inr (id, inl refl, e)
              | inr m2 ↦ inl m2
            ]
            | inr (i, at, e) ↦ inr (i, inr at, e)
          ]
  ]

  -- However many memberships the query answers, the allowlist holds at most 64 channels besides the
  -- identity's own, each the channel of a membership; and when the query fails it holds none.
  pub build_lem :
      (answer : Result Text (List Uuid)) (identity : MessagingIdentity)
      → ((build show answer identity).own ≡ channel show identity)
        × (length (build show answer identity).membership ≤ max_membership_channels)
        × ((n : Text)
            → Memb n (build show answer identity).membership
            → (ids : List Uuid) × (id : Uuid) × (answer ≡ ok ids)
              × Memb id ids
              × (render show (discuss_channel id) ≡ n))
  unfolding build
  build_lem (err e) identity = (refl, omega arith, λ n m. absurd m)
  build_lem (ok ids) identity = (
    refl,
    add_channels-length max_membership_channels ids [] (omega arith),
    λ n m. elim (add_channels-Memb max_membership_channels ids [] n m) [
      | inl none_there ↦ absurd none_there
      | inr (id, at, e) ↦ (ids, id, refl, at, e)
    ],
  )

-- The memberships that the query answered.
abbrev pub answered : Result Text (List Uuid) → List Uuid
answered (ok ids) = ids
answered (err e) = []

insert_fresh : (n : Text) (names : List Text) → ¬ (Memb n names) → insert n names ≡ n ∷ names
insert_fresh n names new = elim (Bool-cases (any (λ k. text_eq k n) names)) [
  | inl there ↦ absurd (new ((listed_iff n names).0 there))
  | inr missing ↦ rw missing refl
]

append_same : (p s t : Text) → p ++ s ≡ p ++ t → s ≡ t
append_same [] s t e = e
append_same (c ∷ p) s t e = append_same p s t (cc e)

module _ (show : Uuid → Text) (injective : (a b : Uuid) → show a ≡ show b → a ≡ b) where
  abbrev name_of : Uuid → Text
  unfolding render
  name_of id = render show (discuss_channel id)

  name_of_injective : (a b : Uuid) → name_of a ≡ name_of b → a ≡ b
  unfolding name_of
  name_of_injective a b e =
      injective a b (append_same (codes "discuss.channel_") (show a) (show b) e)

  -- No name that is kept is that of an identifier to come.
  abbrev Apart : List Uuid → List Text → Type 0
  Apart ids names = (id : Uuid) → Memb id ids → ¬ (Memb (name_of id) names)

  Apart-insert :
      (i : Uuid) (ids : List Uuid) (names : List Text)
      → Distinct (i ∷ ids)
      → Apart (i ∷ ids) names
      → Apart ids (name_of i ∷ names)
  Apart-insert i ids names once apart id at (inl e) = once.0 (rw (name_of_injective i id e) at)
  Apart-insert i ids names once apart id at (inr m) = apart id (inr at) m

  abbrev Kept : List Text → List Uuid → Text → Type 0
  Kept names ids n = Memb n names ⊎ ((id : Uuid) × Memb id ids × (name_of id ≡ n))

  Kept-move :
      (names : List Text) (i : Uuid) (ids : List Uuid) (n : Text)
      → Kept (name_of i ∷ names) ids n ↔ Kept names (i ∷ ids) n
  Kept-move names i ids n = (to, from)
    where
      to : Kept (name_of i ∷ names) ids n → Kept names (i ∷ ids) n
      to (inl (inl e)) = inr (i, inl refl, e)
      to (inl (inr m)) = inl m
      to (inr (id, at, e)) = inr (id, inr at, e)

      from : Kept names (i ∷ ids) n → Kept (name_of i ∷ names) ids n
      from (inl m) = inl (inr m)
      from (inr (id, inl same, e)) = inl (inl (ap name_of same ∙ e))
      from (inr (id, inr at, e)) = inr (id, at, e)

  -- The loop keeps the first identifiers that there is room for.
  add_channels-Kept :
      (room : ℕ) (ids : List Uuid) (names : List Text) (n : Text) (ceiling : ℕ)
      → ceiling ≡ room + length names
      → Distinct ids
      → Apart ids names
      → Memb n (add_channels ceiling show ids names) ↔ Kept names (take room ids) n
  unfolding add_channels
  add_channels-Kept zero [] names n c full once apart =
      (λ m. inl m, λ k. elim k [ inl m ↦ m | inr (id, at, e) ↦ absurd at ])
  add_channels-Kept (suc room) [] names n c full once apart =
      (λ m. inl m, λ k. elim k [ inl m ↦ m | inr (id, at, e) ↦ absurd at ])
  add_channels-Kept zero (i ∷ ids) names n c full once apart =
      let stop : leb c (length names) ≡ true = ground (arith, full) in
      rw stop (λ m. inl m, λ k. elim k [ inl m ↦ m | inr (id, at, e) ↦ absurd at ])
  add_channels-Kept (suc room) (i ∷ ids) names n c full once apart =
      let go : leb c (length names) ≡ false = ground (arith, full) in
      let added = insert_fresh (name_of i) names (apart i (inl refl)) in
      let later =
        add_channels-Kept room ids (name_of i ∷ names) n c (omega (arith, full)) once.1
          (Apart-insert i ids names once apart) in
      let move = Kept-move names i (take room ids) n in
      rw (go, added) (λ m. move.0 (later.0 m), λ k. later.1 (move.1 k))

  pub build_kept :
      (answer : Result Text (List Uuid)) (identity : MessagingIdentity)
      → Distinct (answered answer)
      → (n : Text)
      → Memb n (build show answer identity).membership ↔ (
          (id : Uuid) × Memb id (take 64 (answered answer))
          × (render show (discuss_channel id) ≡ n))
  unfolding build name_of
  build_kept (err e) identity once n = (λ m. absurd m, λ k. absurd k.1)
  build_kept (ok ids) identity once n =
      let kept =
        add_channels-Kept max_membership_channels ids [] n max_membership_channels (omega arith)
          once (λ id at m. m) in
      (λ m. elim (kept.0 m) [ inl m2 ↦ absurd m2 | inr k ↦ k ], λ k. kept.1 (inr k))

-- A chain of two early returns, by what each of its tests decides.
first_of :
    {a b c : Bool} {P Q R : Type 0}
    → (a ≡ true) ↔ P
    → (b ≡ true) ↔ Q
    → (c ≡ true) ↔ R
    → ((if a then true else if b then true else c) ≡ true) ↔ (P ⊎ Q ⊎ R)
first_of {a} {b} {c} p q r = (reads a b c p q r, writes a b c p q r)
  where
    reads :
        {P Q R : Type 0} (a b c : Bool)
        → (a ≡ true) ↔ P
        → (b ≡ true) ↔ Q
        → (c ≡ true) ↔ R
        → (if a then true else if b then true else c) ≡ true
        → P ⊎ Q ⊎ R
    reads true b c p q r h = inl (p.0 refl)
    reads false true c p q r h = inr (inl (q.0 refl))
    reads false false c p q r h = inr (inr (r.0 h))

    writes :
        {P Q R : Type 0} (a b c : Bool)
        → (a ≡ true) ↔ P
        → (b ≡ true) ↔ Q
        → (c ≡ true) ↔ R
        → P ⊎ Q ⊎ R
        → (if a then true else if b then true else c) ≡ true
    writes true b c p q r h = refl
    writes false true c p q r h = refl
    writes false false c p q r (inl x) = absurd (false≢true (p.1 x))
    writes false false c p q r (inr (inl y)) = absurd (false≢true (q.1 y))
    writes false false c p q r (inr (inr z)) = r.1 z

-- A channel is a record's, and the rule says yes to that record.
abbrev pub Resolves : (Text → Option Uuid) → (Text → Uuid → Type 0) → Text → Type 0
Resolves parse_str May name =
    (model : Text) × (id : Uuid) × (parse_record_key parse_str name ≡ some (model, id))
    × May model id

module _ {W : Type 0} (parse_str : Text → Option Uuid) (pool : W) (identity : MessagingIdentity)
    (acl : ThreadAclSlot W) where
  resolved_iff :
      (name : Text) (o : Option (Text × Uuid))
      → (resolved parse_str pool identity acl o ≡ true) ↔ (
          (model : Text) × (id : Uuid) × (o ≡ some (model, id))
          × (slot_can_read acl pool identity model id ≡ true))
  unfolding resolved
  resolved_iff name none = (λ h. absurd (cc h), λ (m, i, e, y). absurd (cc e))
  resolved_iff name (some (model, id)) = (
    λ h. (model, id, refl, h),
    λ (m, i, e, y). let em : model ≡ m = cc e in let ei : id ≡ i = cc e in rw em (rw ei y),
  )

  -- An event is permitted exactly if its channel is the identity's own or one of its memberships',
  -- or the key of a record that the installed resolver lets the identity read.
  pub permits_iff :
      (allow : Allowlist) (event : TailedEvent)
      → (permits parse_str allow pool identity acl event ≡ true) ↔ (
          (event.channel ≡ allow.own)
          ⊎ Memb event.channel allow.membership
          ⊎ Resolves parse_str
              (λ model id. slot_can_read acl pool identity model id ≡ true)
              event.channel)
  unfolding permits
  permits_iff allow event =
      first_of (text_eq_iff event.channel allow.own) (listed_iff event.channel allow.membership)
        (resolved_iff event.channel (parse_record_key parse_str event.channel))

module _ {W : Type 0} (parse_str : Text → Option Uuid) (pool : W)
    (identity : MessagingIdentity) where
  reads_own :
      (model : Text) (id : Uuid)
      → (slot_can_read default_slot pool identity model id ≡ true) ↔ OwnWall identity model id
  reads_own model id =
      (closed_by_default pool identity model id [] default_slot default_slot.inner).0

  -- Before a host installs a resolver, a stream that the identity opened may carry exactly the
  -- events on the identity's own channel, those on the channels of the first 64 memberships that the
  -- query answered for it (none, if the query failed), and those on record keys of the identity's
  -- own partner. The query answers no channel twice, and the printer tells identifiers apart.
  pub default_permits_iff :
      (show : Uuid → Text)
      → ((a b : Uuid) → show a ≡ show b → a ≡ b)
      → (answer : Result Text (List Uuid)) → Distinct (answered answer)
      → (event : TailedEvent)
      → (permits parse_str (build show answer identity) pool identity default_slot event ≡ true) ↔ (
          (event.channel ≡ channel show identity)
          ⊎ ((id : Uuid) × Memb id (take 64 (answered answer))
              × (render show (discuss_channel id) ≡ event.channel))
          ⊎ Resolves parse_str (OwnWall identity) event.channel)
  default_permits_iff show injective answer once event =
      let allow = build show answer identity in
      let kept = build_kept show injective answer identity once event.channel in
      let own : allow.own ≡ channel show identity = (build_lem show answer identity).0 in
      let may = permits_iff parse_str pool identity default_slot allow event in
      (
        λ h. elim (may.0 h) [
          | inl e ↦ inl (e ∙ own)
          | inr (inl m) ↦ inr (inl (kept.0 m))
          | inr (inr (model, id, e, y)) ↦ inr (inr (model, id, e, (reads_own model id).0 y))
        ],
        λ x. may.1 (elim x [
          | inl e ↦ inl (e ∙ sym own)
          | inr (inl m) ↦ inr (inl (kept.1 m))
          | inr (inr (model, id, e, y)) ↦ inr (inr (model, id, e, (reads_own model id).1 y))
        ]),
      )
