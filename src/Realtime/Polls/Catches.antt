-- ===== src/Realtime/Polls/Catches.antt =====
-- No row missed: a row that lies in the window of an answered poll of src/realtime/tailer.rs.
use mathlib.Core.List.{append_assoc, append-nil}
use mathlib.Core.Bool.{false≢true}
use backbone_mail.Prelude.{
  ◌++◌, ◌∙◌, sym, ap, ==_iff, filterb-Memb, ℕ, ◌≡◌, refl, ◌⊎◌, inl, inr, true, List, [], ◌∷◌,
  Option, none, some, ok, ◌≤◌, arith, Memb, any-Memb, any_witness, Memb-filterb, Bool-cases, ◌==◌,
}
use backbone_mail.Store.Channel.{Uuid}
use backbone_mail.Realtime.Registry.{TailedEvent, new_registry, ring_capacity}
use backbone_mail.Realtime.Window.{last}
use backbone_mail.Realtime.Tailer.{
  OutboxRow, Seen, is_seen, within, place, before, in_order, read_window, extract_event, prune,
  poll_once,
}
use backbone_mail.Realtime.Polls.{
  taken, events, event_of, keep, delivered, seen_after, poll_once_lem,
}
use backbone_mail.Realtime.Polls.Known.{Memb-in_order}
use backbone_mail.Realtime.Polls.Once.{
  Replica, started, published_once, Poll, answered, failed, Reach, here, next,
}

place-Memb : (a r : OutboxRow) (xs : List OutboxRow) → (r ≡ a) ⊎ Memb a xs → Memb a (place r xs)
unfolding place
place-Memb a r [] m = m
place-Memb a r (x ∷ xs) m = elim (Bool-cases (before r x)) [
  | inl first ↦ rw first m
  | inr later ↦ rw later (deeper (place-Memb a r xs) m)
]
  where
    deeper :
        ((r ≡ a) ⊎ Memb a xs → Memb a (place r xs))
        → (r ≡ a) ⊎ Memb a (x ∷ xs)
        → Memb a (x ∷ place r xs)
    deeper below (inl e) = inr (below (inl e))
    deeper below (inr (inl e)) = inl e
    deeper below (inr (inr m)) = inr (below (inr m))

in_order-Memb : (a : OutboxRow) (rs : List OutboxRow) → Memb a rs → Memb a (in_order rs)
unfolding in_order
in_order-Memb a [] m = m
in_order-Memb a (r ∷ rs) (inl e) = place-Memb a r (in_order rs) (inl e)
in_order-Memb a (r ∷ rs) (inr m) = place-Memb a r (in_order rs) (inr (in_order-Memb a rs m))

-- What is seen stays seen, and every row becomes so.
stays_seen :
    (id : Uuid) (rows : List OutboxRow) (seen : Seen)
    → is_seen id seen ≡ true
    → is_seen id (seen_after seen rows) ≡ true
unfolding seen_after
stays_seen id [] seen h = h
stays_seen id (x ∷ rows) seen h = elim (Bool-cases (is_seen x.id seen)) [
  | inl known ↦ rw known (stays_seen id rows seen h)
  | inr unseen ↦ rw unseen (stays_seen id rows ((x.id, x.occurred_at) ∷ seen) (ground (arith, h)))
]

becomes_seen :
    (row : OutboxRow) (rows : List OutboxRow) (seen : Seen)
    → Memb row rows
    → is_seen row.id (seen_after seen rows) ≡ true
unfolding seen_after
becomes_seen row [] seen m = absurd m
becomes_seen row (x ∷ rows) seen (inr m) = elim (Bool-cases (is_seen x.id seen)) [
  | inl known ↦ rw known (becomes_seen row rows seen m)
  | inr unseen ↦ rw unseen (becomes_seen row rows ((x.id, x.occurred_at) ∷ seen) m)
]
becomes_seen row (x ∷ rows) seen (inl e) = elim (Bool-cases (is_seen x.id seen)) [
  | inl known ↦ rw known (stays_seen row.id rows seen (rw (← e) known))
  | inr unseen ↦
      rw unseen (stays_seen row.id rows ((x.id, x.occurred_at) ∷ seen) (rw e (ground arith)))
]

Memb-left : {A : Type 0} (a : A) (xs ys : List A) → Memb a xs → Memb a (xs ++ ys)
Memb-left a (x ∷ xs) ys (inl e) = inl e
Memb-left a (x ∷ xs) ys (inr m) = inr (Memb-left a xs ys m)
Memb-left a [] ys m = absurd m

Memb-end : {A : Type 0} (a : A) (xs : List A) → Memb a (xs ++ a ∷ [])
Memb-end a [] = inl refl
Memb-end a (x ∷ xs) = inr (Memb-end a xs)

keep-append :
    (log : List TailedEvent) (o : Option TailedEvent) (es : List TailedEvent)
    → log ++ keep o es ≡ (log ++ keep o []) ++ es
keep-append log none es = ap (λ l. l ++ es) (sym (append-nil log))
keep-append log (some e) es = sym (append_assoc log (e ∷ []) es)

module _ (row_of : Uuid → OutboxRow) where
  -- The event of every row that is seen is in the log.
  abbrev IsLogged : Seen → List TailedEvent → Type 0
  IsLogged seen log =
      (id : Uuid) (e : TailedEvent)
      → is_seen id seen ≡ true
      → event_of (row_of id) ≡ some e
      → Memb e log

  log_row :
      (row : OutboxRow) (seen : Seen) (log : List TailedEvent) (o : Option TailedEvent)
      → row ≡ row_of row.id
      → event_of row ≡ o
      → IsLogged seen log
      → IsLogged ((row.id, row.occurred_at) ∷ seen) (log ++ keep o [])
  log_row row seen log o same h logged id e found made = elim (Bool-cases (row.id == id)) [
    | inl this ↦
        let is_it : o ≡ some e =
          sym h
          ∙ (ap event_of same
              ∙ (ap (λ k. event_of (row_of k)) ((==_iff row.id id).0 this) ∙ made)) in
        rw is_it (Memb-end e log)
    | inr other ↦ Memb-left e log (keep o []) (logged id e (ground arith) made)
  ]

  log_rows :
      (rows : List OutboxRow) (seen : Seen) (log : List TailedEvent)
      → ((row : OutboxRow) → Memb row rows → row ≡ row_of row.id)
      → IsLogged seen log
      → IsLogged (seen_after seen rows) (log ++ events (taken seen rows))
  unfolding seen_after taken events event_of
  log_rows [] seen log kept logged = rw (append-nil log) logged
  log_rows (row ∷ rows) seen log kept logged = elim (Bool-cases (is_seen row.id seen)) [
    | inl known ↦ rw known (log_rows rows seen log (λ r m. kept r (inr m)) logged)
    | inr unseen ↦
        let added = log_row row seen log (event_of row) (kept row (inl refl)) refl logged in
        let after = (row.id, row.occurred_at) ∷ seen in
        rw unseen (
          rw (keep-append log (event_of row) (events (taken after rows)))
            (log_rows rows after (log ++ keep (event_of row) []) (λ r m. kept r (inr m)) added))
  ]

  IsLogged-prune :
      (now window : ℕ) (seen : Seen) (log : List TailedEvent)
      → IsLogged seen log
      → IsLogged (prune now window seen) log
  unfolding prune
  IsLogged-prune now window seen log logged id e found made =
      let (s, m, same) = any_witness (λ s. s.0 == id) (prune now window seen) found in
      let (inside, recent) = filterb-Memb (λ s. within now window s.1) s seen m in
      logged id e (any-Memb (λ s. s.0 == id) s seen inside same) made

  module _ (window : ℕ) where
    answered_logs :
        (v : Replica) (now db_now : ℕ) (table : List OutboxRow)
        → ((row : OutboxRow) → Memb row table → row ≡ row_of row.id)
        → IsLogged v.seen v.log
        → IsLogged
            (seen_after (prune now window v.seen) (read_window db_now window table))
            (v.log ++ delivered now db_now window table v.seen)
    unfolding read_window delivered events taken
    answered_logs v now db_now table kept logged =
        log_rows (read_window db_now window table) (prune now window v.seen) v.log
          (λ row m.
            kept row
              (filterb-Memb (λ r. within db_now window r.occurred_at) row table
                (Memb-in_order row _ m)).0)
          (IsLogged-prune now window v.seen v.log logged)

    Poll-IsLogged :
        {v w : Replica} → Poll row_of window v w → IsLogged v.seen v.log → IsLogged w.seen w.log
    Poll-IsLogged (answered v now db_now table older behind kept) logged =
        rw ((poll_once_lem now db_now window v.registry v.seen).0 table)
          (answered_logs v now db_now table kept logged)
    Poll-IsLogged (failed v now db_now e older behind) logged =
        rw ((poll_once_lem now db_now window v.registry v.seen).1 e)
          (IsLogged-prune now window v.seen v.log logged)

    Reach-IsLogged : {w : Replica} → Reach row_of window w → IsLogged w.seen w.log
    unfolding new_registry started
    Reach-IsLogged here = λ id e found made. absurd (false≢true found)
    Reach-IsLogged (next earlier step) = Poll-IsLogged step (Reach-IsLogged earlier)

    -- However many polls came before, answered or failed, an event whose row lies in the window of
    -- an answered poll has been published when that poll ends: it is among the events published so
    -- far, and the ring that the poll leaves in the registry holds the last 4096 of exactly those.
    -- The row is well shaped, rows are never rewritten, the database's clock does not run back, and
    -- the replica's is not ahead of it.
    pub window_is_published :
        {v : Replica} (now db_now : ℕ) (table : List OutboxRow) (row : OutboxRow) (e : TailedEvent)
        → Reach row_of window v
        → v.clock ≤ db_now
        → now ≤ db_now
        → ((r : OutboxRow) → Memb r table → r ≡ row_of r.id)
        → Memb row table
        → within db_now window row.occurred_at ≡ true
        → extract_event row.id row.occurred_at row.payload ≡ some e
        → Memb e (v.log ++ delivered now db_now window table v.seen)
          × ((poll_once now db_now window (ok table) v.registry v.seen).1.ring
              ≡ last ring_capacity (v.log ++ delivered now db_now window table v.seen))
    unfolding read_window event_of
    window_is_published {v} now db_now table row e reach older behind kept there recent made =
        let chosen =
          Memb-filterb (λ r. within db_now window r.occurred_at) row table there recent in
        let seen =
          becomes_seen row (read_window db_now window table) (prune now window v.seen)
            (in_order-Memb row _ chosen) in
        (
          answered_logs v now db_now table kept (Reach-IsLogged reach) row.id e seen
              (ap event_of (sym (kept row there)) ∙ made),
          (published_once row_of window
              (next reach (answered v now db_now table older behind kept))).1,
        )
