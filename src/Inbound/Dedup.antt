-- ===== src/Inbound/Dedup.antt =====
-- Step 2 of src/application/service/mail_inbound_service.rs: what a delivery stores under an RFC id.
use backbone_mail.Prelude.{
  ℕ, ◌+◌, ◌≤◌, ◌≡◌, refl, sym, ap, ◌⊎◌, inl, inr, Bool, true, false, List, [], ◌∷◌, ◌++◌, Option,
  none, some, any, find, count_if, arith, Bool-cases, ok, ok_parts,
}
use mathlib.Core.Bool.{true≢false}
use backbone_mail.Prelude.Text.{Text, text_eq, text_eq_refl, text_eq_iff}
use backbone_mail.Store.{MessageRow, stage_bus_event}
use backbone_mail.Store.Channel.{Uuid}
use backbone_mail.Inbound.{
  InboundOutcome, routed, duplicate, rejected, dropped, is_taken, message_row, store_message, land,
  probe, process_in_tx, after_probe,
}
use backbone_mail.Inbound.Routing.{
  InboundMessage, Gateway, has_id, find_by_message_id, sender_allowed, route,
}

count_if-append :
    {A : Type 0} (p : A → Bool) (xs ys : List A)
    → count_if p (xs ++ ys) ≡ count_if p xs + count_if p ys
unfolding count_if
count_if-append p [] ys = omega arith
count_if-append p (x ∷ xs) ys = ground (arith, count_if-append p xs ys)

count_if-none : {A : Type 0} (p : A → Bool) (xs : List A) → any p xs ≡ false → count_if p xs ≡ 0
unfolding count_if
count_if-none p [] h = refl
count_if-none p (x ∷ xs) h = ground (arith, count_if-none p xs)

find-append-none :
    {A : Type 0} (p : A → Bool) (xs : List A) (x : A)
    → any p xs ≡ false
    → p x ≡ true
    → find p (xs ++ x ∷ []) ≡ some x
find-append-none p [] x h e = ground arith
find-append-none p (y ∷ xs) x h e = ground (arith, find-append-none p xs x)

-- No row has an id that the index gives free.
free_none :
    (mid : Text) (o : Option Text) (messages : List MessageRow)
    → is_taken o messages ≡ false
    → (elim o [ none ↦ false | some x ↦ text_eq x mid ]) ≡ true
    → any (has_id mid) messages ≡ false
free_none mid none messages free same = absurd (cc)
free_none mid (some x) messages free same = rw (← (text_eq_iff x mid).0 same) free

-- The message that is stored takes an id only if no other has it.
stored_unique :
    (mid : Text) (messages : List MessageRow) (id : Uuid) (model : Text) (res_id : Option Uuid)
    (msg : InboundMessage)
    → is_taken msg.message_id messages ≡ false
    → count_if (has_id mid) messages ≤ 1
    → count_if (has_id mid) (messages ++ message_row id model res_id msg ∷ []) ≤ 1
unfolding message_row count_if
stored_unique mid messages id model res_id msg free h =
    let row = message_row id model res_id msg in
    rw (count_if-append (has_id mid) messages (row ∷ [])) (elim (Bool-cases (has_id mid row)) [
      | inl same ↦
          rw
            (
              same,
              count_if-none (has_id mid) messages (free_none mid msg.message_id messages free same),
            )
            (omega arith)
      | inr other ↦ rw other (omega (arith, h))
    ])

abbrev is_routed : InboundOutcome → Bool
is_routed (routed row model res_id) = true
is_routed (duplicate existing) = false
is_routed rejected = false
is_routed dropped = false

module _ (lower : Text → Text) (id : Uuid) (at : ℕ) (others : List MessageRow) (server : Uuid)
    (default : Option Text) (msg : InboundMessage) where
  -- What a delivery stores: nothing, or the one row of the answer.
  abbrev pub Stored : Gateway → Gateway → InboundOutcome → Type 0
  Stored g g' outcome =
      ((g'.db.messages ≡ g.db.messages) × (is_routed outcome ≡ false))
      ⊎ ((model : Text) × (res_id : Option Uuid) × (outcome ≡ routed id (some model) res_id)
          × (is_taken msg.message_id (g.db.messages ++ others) ≡ false)
          × (g'.db.messages ≡ (g.db.messages ++ others) ++ message_row id model res_id msg ∷ []))

  store_message-Stored :
      (g g' : Gateway) (outcome : InboundOutcome) (model : Text) (res_id : Option Uuid)
      → store_message id at others server model res_id msg g ≡ ok (g', outcome)
      → Stored g g' outcome
  unfolding store_message stage_bus_event
  store_message-Stored g g' outcome model res_id h =
      elim (Bool-cases (is_taken msg.message_id (g.db.messages ++ others))) [
        | inl taken ↦ absurd (cc (taken, h))
        | inr free ↦
            let parts = ok_parts (rw free at h) in
            inr
              (model, res_id, sym parts.1, free, ap (λ (x : Gateway). x.db.messages) (sym parts.0))
      ]

  land-Stored :
      (thread : Option Text × Option Uuid) (g g' : Gateway) (outcome : InboundOutcome)
      → land id at others server msg g thread ≡ ok (g', outcome)
      → Stored g g' outcome
  unfolding stage_bus_event
  land-Stored (none, res_id) g g' outcome h =
      inl (
        ap (λ (x : Gateway). x.db.messages) (sym (ok_parts h).0),
        ap is_routed (sym (ok_parts h).1),
      )
  land-Stored (some model, res_id) g g' outcome h = store_message-Stored g g' outcome model res_id h

  after_probe-Stored :
      (found : Option Uuid) (allowed : Bool) (thread : Option Text × Option Uuid) (g g' : Gateway)
      (outcome : InboundOutcome)
      → after_probe found allowed id at others server msg g thread ≡ ok (g', outcome)
      → Stored g g' outcome
  unfolding stage_bus_event
  after_probe-Stored (some existing) allowed thread g g' outcome h =
      inl (
        ap (λ (x : Gateway). x.db.messages) (sym (ok_parts h).0),
        ap is_routed (sym (ok_parts h).1),
      )
  after_probe-Stored none false thread g g' outcome h =
      inl (
        ap (λ (x : Gateway). x.db.messages) (sym (ok_parts h).0),
        ap is_routed (sym (ok_parts h).1),
      )
  after_probe-Stored none true thread g g' outcome h = land-Stored thread g g' outcome h

  -- A delivery that does not fail stores nothing, or the one row that its answer names, under an RFC
  -- id that no other message has.
  pub delivery-Stored :
      (g g' : Gateway) (outcome : InboundOutcome)
      → process_in_tx lower id at others server default msg g ≡ ok (g', outcome)
      → Stored g g' outcome
  unfolding process_in_tx
  delivery-Stored g g' outcome h =
      after_probe-Stored (probe msg.message_id g.db.messages)
        (sender_allowed lower server msg.from g.allowed) (route lower default msg g) g g' outcome h

  -- At most one message has an RFC id: a delivery that does not fail keeps this, whatever other
  -- transactions commit in between, if it holds of the messages together with theirs.
  pub unique_message_id :
      (g g' : Gateway) (outcome : InboundOutcome) (mid : Text)
      → process_in_tx lower id at others server default msg g ≡ ok (g', outcome)
      → count_if (has_id mid) (g.db.messages ++ others) ≤ 1
      → count_if (has_id mid) g'.db.messages ≤ 1
  unique_message_id g g' outcome mid h one = elim (delivery-Stored g g' outcome h) [
    | inl (same, _) ↦
        rw same (omega (arith, count_if-append (has_id mid) g.db.messages others, one))
    | inr (model, res_id, _, free, same) ↦
        rw same (stored_unique mid (g.db.messages ++ others) id model res_id msg free one)
  ]

carries :
    (msg : InboundMessage) (mid : Text) (id : Uuid) (model : Text) (res_id : Option Uuid)
    → msg.message_id ≡ some mid
    → has_id mid (message_row id model res_id msg) ≡ true
unfolding message_row
carries msg mid id model res_id has = rw has (text_eq_refl mid)

-- The relay's retry of a message with an RFC id that was stored, no other transaction having
-- committed a message meanwhile, is answered `Duplicate` with the row that was stored, and writes
-- nothing.
pub redelivery :
    (lower : Text → Text) (id id' : Uuid) (at at' : ℕ) (others : List MessageRow) (server : Uuid)
    (default : Option Text) (msg : InboundMessage) (g g' : Gateway) (row : Uuid)
    (model : Option Text) (res_id : Option Uuid) (mid : Text)
    → msg.message_id ≡ some mid
    → process_in_tx lower id at [] server default msg g ≡ ok (g', routed row model res_id)
    → process_in_tx lower id' at' others server default msg g' ≡ ok (g', duplicate row)
unfolding process_in_tx find_by_message_id message_row
redelivery lower id id' at at' others server default msg g g' row model res_id mid has h =
    elim (delivery-Stored lower id at [] server default msg g g' (routed row model res_id) h) [
      | inl (_, impossible) ↦ absurd (true≢false impossible)
      | inr (model', res_id', e, free, same) ↦
          let stored = message_row id model' res_id' msg in
          let fresh : any (has_id mid) (g.db.messages ++ []) ≡ false = rw has at free in
          let found =
            find-append-none (has_id mid) (g.db.messages ++ []) stored fresh
              (carries msg mid id model' res_id' has) in
          let there : find_by_message_id mid g'.db.messages ≡ some row =
            rw (same, found) (ap some (cc e)) in
          rw (has, there) refl
    ]
