-- ===== src/Realtime/Polls/Once.antt =====
-- No event twice: the polls of src/realtime/tailer.rs over rows that are not rewritten.
use mathlib.Core.List.{append_assoc, append-nil}
use backbone_mail.Prelude.{
  ℕ, ◌+◌, ◌≤◌, ◌<◌, ◌≡◌, refl, sym, ap, ◌∙◌, inl, inr, false, List, [], ◌∷◌, ◌++◌, Option, none,
  some, ok, err, arith, Memb, filterb-Memb, Bool-cases,
}
use backbone_mail.Prelude.Text.{Text}
use backbone_mail.Store.Channel.{Uuid}
use backbone_mail.Realtime.Registry.{TailedEvent, RealtimeRegistry, new_registry, ring_capacity}
use backbone_mail.Realtime.Window.{last, ring_after}
use backbone_mail.Realtime.Tailer.{OutboxRow, Seen, is_seen, within, read_window, prune, poll_once}
use backbone_mail.Realtime.Polls.{
  taken, events, event_of, keep, delivered, seen_after, poll_once_lem,
}
use backbone_mail.Realtime.Polls.Known.{
  ids, Distinct, Distinct-snoc, ids-snoc, Memb-in_order, event_of-id, Known, Current, unlogged,
  Known-snoc, Known-cons, Known-prune,
}

-- One replica: what it remembers, its registry, all it ever published, and the database's clock at
-- its last poll.
pub record Replica : Type 0 where
  pub seen : Seen
  pub registry : RealtimeRegistry
  pub log : List TailedEvent
  pub clock : ℕ

unfoldable pub started : Replica
unfolding new_registry
started = record { seen = []; registry = new_registry; log = []; clock = 0 }

module _ (row_of : Uuid → OutboxRow) (window : ℕ) where
  -- the instant of a row, which nothing rewrites
  abbrev stamp : Uuid → ℕ
  stamp id = (row_of id).occurred_at

  -- One poll, at a time of the database that is no earlier than the last one and no earlier than
  -- the replica's own clock.
  pub data Poll : Replica → Replica → Type 0 where
    answered :
        (w : Replica) (now db_now : ℕ) (table : List OutboxRow)
        → w.clock ≤ db_now
        → now ≤ db_now
        → ((row : OutboxRow) → Memb row table → row ≡ row_of row.id)
        → Poll w (record {
          seen = (poll_once now db_now window (ok table) w.registry w.seen).0;
          registry = (poll_once now db_now window (ok table) w.registry w.seen).1;
          log = w.log ++ delivered now db_now window table w.seen;
          clock = db_now;
        })
    failed :
        (w : Replica) (now db_now : ℕ) (e : Text)
        → w.clock ≤ db_now
        → now ≤ db_now
        → Poll w (record {
          seen = (poll_once now db_now window (err e) w.registry w.seen).0;
          registry = (poll_once now db_now window (err e) w.registry w.seen).1;
          log = w.log;
          clock = db_now;
        })

  pub data Reach : Replica → Type 0 where
    here : Reach started
    next : {v w : Replica} → Reach v → Poll v w → Reach w

  abbrev Sound : ℕ → Seen → List TailedEvent → Type 0
  Sound now seen log = Distinct (ids log) × Known stamp window now seen log

  -- A row that was not seen, before the rows after it.
  take_row :
      (now : ℕ) (row : OutboxRow) (rows : List OutboxRow) (seen : Seen) (log : List TailedEvent)
      → ((log2 : List TailedEvent)
          → Sound now ((row.id, row.occurred_at) ∷ seen) log2
          → Sound now
              (seen_after ((row.id, row.occurred_at) ∷ seen) rows)
              (log2 ++ events (taken ((row.id, row.occurred_at) ∷ seen) rows)))
      → (row.occurred_at ≡ stamp row.id) × (now < stamp row.id + window)
      → Sound now seen log
      → is_seen row.id seen ≡ false
      → (o : Option TailedEvent) → event_of row ≡ o
      → Sound now
          (seen_after ((row.id, row.occurred_at) ∷ seen) rows)
          (log ++ keep o (events (taken ((row.id, row.occurred_at) ∷ seen) rows)))
  take_row now row rows seen log rest (stamped, recent) (distinct, known) unseen none h =
      rest log (distinct, Known-cons stamp window now seen log (row.id, row.occurred_at) known)
  take_row now row rows seen log rest (stamped, recent) (distinct, known) unseen (some e) h =
      let same : e.id ≡ row.id = event_of-id row e h in
      let fresh : ¬ (Memb e.id (ids log)) =
        rw same (unlogged stamp window now seen log row.id known recent unseen) in
      let later : Sound now ((row.id, row.occurred_at) ∷ seen) (log ++ e ∷ []) = (
        rw (ids-snoc log e) (Distinct-snoc e.id (ids log) distinct fresh),
        rw (← same) (
            Known-snoc stamp window now seen log e row.occurred_at (stamped ∙ ap stamp (sym same))
              known),
      ) in
      rw (← append_assoc log (e ∷ []) (events (taken ((row.id, row.occurred_at) ∷ seen) rows)))
        (rest (log ++ e ∷ []) later)

  take_up :
      (now : ℕ) (rows : List OutboxRow) (seen : Seen) (log : List TailedEvent)
      → Current stamp window now rows
      → Sound now seen log
      → Sound now (seen_after seen rows) (log ++ events (taken seen rows))
  unfolding events taken seen_after event_of
  take_up now [] seen log current sound = rw (append-nil log) sound
  take_up now (row ∷ rows) seen log current sound =
      let below : Current stamp window now rows = λ r m. current r (inr m) in
      elim (Bool-cases (is_seen row.id seen)) [
        | inl known ↦ rw known (take_up now rows seen log below sound)
        | inr unseen ↦ rw unseen (
            take_row now row rows seen log
              (λ log2. take_up now rows ((row.id, row.occurred_at) ∷ seen) log2 below)
              (current row (inl refl)) sound unseen (event_of row) refl)
      ]

  window_is_Current :
      (db_now : ℕ) (table : List OutboxRow)
      → ((row : OutboxRow) → Memb row table → row ≡ row_of row.id)
      → Current stamp window db_now (read_window db_now window table)
  unfolding read_window
  window_is_Current db_now table kept row m =
      let (inside, recent) =
        filterb-Memb (λ r. within db_now window r.occurred_at) row table (Memb-in_order row _ m) in
      let instant : row.occurred_at ≡ stamp row.id = ap (λ r. r.occurred_at) (kept row inside) in
      (instant, ground (arith, recent, instant))

  -- The log has no event twice and is remembered at the clock, and the ring is its window.
  abbrev IsFaithful : Replica → Type 0
  IsFaithful w = Sound w.clock w.seen w.log × (w.registry.ring ≡ last ring_capacity w.log)

  Poll-IsFaithful : {v w : Replica} → Poll v w → IsFaithful v → IsFaithful w
  unfolding delivered events taken read_window prune
  Poll-IsFaithful (answered v now db_now table older behind kept) ((distinct, known), ring) =
      let ran = (poll_once_lem now db_now window v.registry v.seen).0 table in
      let pruned = Known-prune stamp window v.clock now db_now v.seen v.log older behind known in
      rw ran (
        take_up db_now (read_window db_now window table) (prune now window v.seen) v.log
            (window_is_Current db_now table kept) (distinct, pruned),
        ring_after v.registry v.log (delivered now db_now window table v.seen) ring,
      )
  Poll-IsFaithful (failed v now db_now e older behind) ((distinct, known), ring) =
      let ran = (poll_once_lem now db_now window v.registry v.seen).1 e in
      rw ran (
        (distinct, Known-prune stamp window v.clock now db_now v.seen v.log older behind known),
        ring,
      )

  Reach-IsFaithful : {w : Replica} → Reach w → IsFaithful w
  unfolding new_registry started
  Reach-IsFaithful here = ((tt, λ id m. absurd m), refl)
  Reach-IsFaithful (next earlier step) = Poll-IsFaithful step (Reach-IsFaithful earlier)

  -- Over any number of polls, answered or failed, of tables whose rows are never rewritten, as long
  -- as the database's clock does not run back and the replica's is never ahead of it: no event is
  -- published twice, and the ring holds the last 4096 of those published.
  pub published_once :
      {w : Replica} → Reach w → Distinct (ids w.log) × (w.registry.ring ≡ last ring_capacity w.log)
  published_once reach = let ((distinct, known), ring) = Reach-IsFaithful reach in (distinct, ring)
