-- ===== src/Realtime/Polls/Known.antt =====
-- What the replica of src/realtime/tailer.rs remembers of the events in a log.
use backbone_mail.Prelude.{
  ℕ, ◌+◌, ◌≤◌, ◌<◌, ◌≡◌, refl, sym, ap, ◌⊎◌, inl, inr, true, false, List, [], ◌∷◌, ◌++◌, map,
  Option, none, some, arith, Memb, any-Memb, Memb-filterb, Bool-cases, ◌==◌,
}
use backbone_mail.Prelude.Text.{Text, codes}
use backbone_mail.Prelude.Json.{Json, get}
use backbone_mail.Store.Channel.{Uuid}
use backbone_mail.Realtime.Registry.{TailedEvent}
use backbone_mail.Realtime.Tailer.{
  OutboxRow, Seen, is_seen, and_then, text_of, with_message, valid_channel_key, within,
  extract_event, place, before, in_order, prune,
}
use backbone_mail.Realtime.Polls.{event_of}

abbrev pub ids : List TailedEvent → List Uuid
ids es = map (λ (e : TailedEvent). e.id) es

abbrev pub Distinct : List Uuid → Type 0
Distinct [] = Unit
Distinct (x ∷ xs) = ¬ (Memb x xs) × Distinct xs

-- A log that grows at its end.
Memb-snoc : (a b : Uuid) (xs : List Uuid) → Memb a (xs ++ b ∷ []) → Memb a xs ⊎ (b ≡ a)
Memb-snoc a b [] m = ground arith
Memb-snoc a b (x ∷ xs) (inl e) = inl (inl e)
Memb-snoc a b (x ∷ xs) (inr m) = ground (arith, Memb-snoc a b xs m)

pub Distinct-snoc :
    (a : Uuid) (xs : List Uuid) → Distinct xs → ¬ (Memb a xs) → Distinct (xs ++ a ∷ [])
Distinct-snoc a [] d n = (λ m. m, tt)
Distinct-snoc a (x ∷ xs) (fresh, d) n = (
  λ m. elim (Memb-snoc x a xs m) [ inl inside ↦ fresh inside | inr e ↦ n (inl (sym e)) ],
  Distinct-snoc a xs d (λ m. n (inr m)),
)

Memb-place : (a r : OutboxRow) (xs : List OutboxRow) → Memb a (place r xs) → (r ≡ a) ⊎ Memb a xs
unfolding place
Memb-place a r [] m = m
Memb-place a r (x ∷ xs) m = elim (Bool-cases (before r x)) [
  | inl first ↦ rw first at m
  | inr later ↦ deeper (Memb-place a r xs) (rw later at m)
]
  where
    deeper :
        (Memb a (place r xs) → (r ≡ a) ⊎ Memb a xs)
        → Memb a (x ∷ place r xs)
        → (r ≡ a) ⊎ Memb a (x ∷ xs)
    deeper below (inl e) = inr (inl e)
    deeper below (inr rest) = elim (below rest) [ inl e ↦ inl e | inr old ↦ inr (inr old) ]

pub Memb-in_order : (a : OutboxRow) (rs : List OutboxRow) → Memb a (in_order rs) → Memb a rs
unfolding in_order
Memb-in_order a [] m = m
Memb-in_order a (r ∷ rs) m = elim (Memb-place a r (in_order rs) m) [
  | inl e ↦ inl e
  | inr rest ↦ inr (Memb-in_order a rs rest)
]

and_then-some :
    {A B : Type 0} (o : Option A) (f : A → Option B) {b : B}
    → and_then o f ≡ some b
    → (a : A) × (f a ≡ some b)
and_then-some none f h = absurd (cc h)
and_then-some (some a) f h = (a, h)

with_message-id :
    (id : Uuid) (at : ℕ) (channel : Text) (message : Json) (e : TailedEvent)
    → with_message id at channel message ≡ some e
    → e.id ≡ id
unfolding with_message
with_message-id id at channel message e h =
    let (message_type, typed) = and_then-some (text_of message (codes "type")) _ h in
    let (inner, carried) = and_then-some (get message (codes "payload")) _ typed in sym (cc carried)

pub event_of-id : (row : OutboxRow) (e : TailedEvent) → event_of row ≡ some e → e.id ≡ row.id
unfolding event_of extract_event
event_of-id row e h =
    let (channel, named) = and_then-some (text_of row.payload (codes "channel")) _ h in
    elim (Bool-cases (valid_channel_key channel)) [
      | inl valid ↦
          let (message, made) =
            and_then-some (get row.payload (codes "message")) _ (rw valid at named) in
          with_message-id row.id row.occurred_at channel message e made
      | inr invalid ↦ absurd (cc (rw invalid at named))
    ]

pub ids-snoc : (es : List TailedEvent) (e : TailedEvent) → ids (es ++ e ∷ []) ≡ ids es ++ e.id ∷ []
ids-snoc [] e = refl
ids-snoc (x ∷ es) e = ap (λ is. x.id ∷ is) (ids-snoc es e)

module _ (stamp : Uuid → ℕ) (window : ℕ) where
  -- Every identifier of the log is remembered with its instant, or the window has left it behind.
  abbrev pub Known : ℕ → Seen → List TailedEvent → Type 0
  Known now seen log =
      (id : Uuid) → Memb id (ids log) → Memb (id, stamp id) seen ⊎ (stamp id + window ≤ now)

  -- The rows of one query: not rewritten since they were stamped, and in the window.
  abbrev pub Current : ℕ → List OutboxRow → Type 0
  Current now rows =
      (row : OutboxRow)
      → Memb row rows
      → (row.occurred_at ≡ stamp row.id) × (now < stamp row.id + window)

  pub unlogged :
      (now : ℕ) (seen : Seen) (log : List TailedEvent) (id : Uuid)
      → Known now seen log
      → now < stamp id + window
      → is_seen id seen ≡ false
      → ¬ (Memb id (ids log))
  unlogged now seen log id known recent unseen m = elim (known id m) [
    | inl inside ↦
        let found : is_seen id seen ≡ true =
          any-Memb (λ s. s.0 == id) (id, stamp id) seen inside (ground arith) in
        cc (found, unseen)
    | inr aged ↦ omega (arith, aged, recent)
  ]

  pub Known-snoc :
      (now : ℕ) (seen : Seen) (log : List TailedEvent) (e : TailedEvent) (at : ℕ)
      → at ≡ stamp e.id
      → Known now seen log
      → Known now ((e.id, at) ∷ seen) (log ++ e ∷ [])
  Known-snoc now seen log e at h known id m =
      elim (Memb-snoc id e.id (ids log) (rw (ids-snoc log e) at m)) [
        | inl inside ↦ elim (known id inside) [ inl there ↦ inl (inr there) | inr aged ↦ inr aged ]
        | inr same ↦ inl (inl (cc (same, h)))
      ]

  pub Known-cons :
      (now : ℕ) (seen : Seen) (log : List TailedEvent) (s : Uuid × ℕ)
      → Known now seen log
      → Known now (s ∷ seen) log
  Known-cons now seen log s known id m = elim (known id m) [
    | inl there ↦ inl (inr there)
    | inr aged ↦ inr aged
  ]

  pub Known-prune :
      (clock now db_now : ℕ) (seen : Seen) (log : List TailedEvent)
      → clock ≤ db_now
      → now ≤ db_now
      → Known clock seen log
      → Known db_now (prune now window seen) log
  unfolding prune
  Known-prune clock now db_now seen log older behind known id m = elim (known id m) [
    | inl there ↦ elim (Bool-cases (within now window (stamp id))) [
      | inl recent ↦
          inl (Memb-filterb (λ s. within now window s.1) (id, stamp id) seen there recent)
      | inr aged ↦ inr (ground (arith, aged, behind))
    ]
    | inr aged ↦ inr (omega (arith, aged, older))
  ]
