-- ===== src/Realtime/Polls.antt =====
-- What the polls of src/realtime/tailer.rs publish, over any number of them.
pub mod Known
pub mod Once
pub mod Catches
use mathlib.Core.List.{append_assoc, append-nil}
use backbone_mail.Prelude.{
  ℕ, suc, ◌+◌, ◌≤◌, ◌<◌, ◌≡◌, refl, sym, ap, ◌∙◌, ◌⊎◌, inl, inr, Bool, true, false, List, [], ◌∷◌,
  ◌++◌, map, Option, none, some, Result, ok, err, arith, any, Memb, any-Memb, any_witness, filterb,
  filterb-Memb, Memb-filterb, length, length-append, if◌then◌else◌, Bool-cases, Option-cases,
  ==_iff, ltb,
}
use backbone_mail.Prelude.Text.{Text}
use backbone_mail.Prelude.Json.{Json}
use backbone_mail.Store.Channel.{Uuid}
use backbone_mail.Realtime.Registry.{
  TailedEvent, RealtimeRegistry, new_registry, ring_capacity, publish,
}
use backbone_mail.Realtime.Window.{publish_all, last, ring_after}
use backbone_mail.Realtime.Tailer.{
  OutboxRow, Seen, Tail, is_seen, within, extract_event, publish_some, place, before, in_order,
  read_window, tail_row, tail_rows, prune, poll_once,
}

-- The rows that a poll takes up: those it has not seen, each identifier once.
unfoldable pub taken : Seen → List OutboxRow → List OutboxRow
taken seen [] = []
taken seen (row ∷ rows) =
    let skipping = taken seen rows in
    let taking = taken ((row.id, row.occurred_at) ∷ seen) rows in
    if is_seen row.id seen then skipping else row ∷ taking

unfoldable pub event_of : OutboxRow → Option TailedEvent
unfolding extract_event
event_of row = extract_event row.id row.occurred_at row.payload

abbrev pub keep : Option TailedEvent → List TailedEvent → List TailedEvent
keep none es = es
keep (some e) es = e ∷ es

-- The events of the rows that are well shaped.
unfoldable pub events : List OutboxRow → List TailedEvent
unfolding event_of
events [] = []
events (row ∷ rows) = keep (event_of row) (events rows)

-- What one poll delivers.
unfoldable pub delivered : ℕ → ℕ → ℕ → List OutboxRow → Seen → List TailedEvent
unfolding events taken prune read_window
delivered now db_now window table seen =
    events (taken (prune now window seen) (read_window db_now window table))

unfoldable pub seen_after : Seen → List OutboxRow → Seen
seen_after seen [] = seen
seen_after seen (row ∷ rows) =
    let skipping = seen_after seen rows in
    let taking = seen_after ((row.id, row.occurred_at) ∷ seen) rows in
    if is_seen row.id seen then skipping else taking

abbrev tally : Seen → RealtimeRegistry → ℕ → Tail
tally seen registry n = record { seen = seen; registry = registry; published = n }

-- The loop in the terms above.
abbrev summed : List OutboxRow → Tail → Tail
unfolding seen_after taken events publish_all
summed rows t = record {
  seen = seen_after t.seen rows;
  registry = publish_all t.registry (events (taken t.seen rows));
  published = t.published + length (events (taken t.seen rows));
}

abbrev with_row : OutboxRow → Tail → Tail
with_row row t = record t { seen = (row.id, row.occurred_at) ∷ t.seen }

summed_publish :
    (row : OutboxRow) (rows : List OutboxRow) (t : Tail) (o : Option TailedEvent)
    → event_of row ≡ o
    → is_seen row.id t.seen ≡ false
    → summed rows (publish_some (with_row row t) o) ≡ summed (row ∷ rows) t
unfolding publish_some summed taken seen_after events publish_all
summed_publish row rows t none h unseen = rw unseen (rw h refl)
summed_publish row rows t (some e) h unseen = rw unseen (
    rw h (
      let count = length (events (taken ((row.id, row.occurred_at) ∷ t.seen) rows)) in
      let e1 : t.published + 1 + count ≡ t.published + suc count = omega arith in
      ap
        (tally (seen_after ((row.id, row.occurred_at) ∷ t.seen) rows) (
          publish_all (publish t.registry e)
            (events (taken ((row.id, row.occurred_at) ∷ t.seen) rows))))
        e1))

tail_rows_lem : (rows : List OutboxRow) (t : Tail) → tail_rows rows t ≡ summed rows t
unfolding tail_rows tail_row summed taken seen_after events publish_all event_of
tail_rows_lem [] t =
    let e : t.published ≡ t.published + 0 = omega arith in ap (tally t.seen t.registry) e
tail_rows_lem (row ∷ rows) t = elim (Bool-cases (is_seen row.id t.seen)) [
  | inl known ↦ tail_rows_lem rows (tail_row row t) ∙ rw known refl
  | inr unseen ↦
      tail_rows_lem rows (tail_row row t)
      ∙ (ap (summed rows) (rw unseen refl) ∙ summed_publish row rows t (event_of row) refl unseen)
]

-- A poll whose query succeeds publishes to the registry, one after the other, exactly the events it
-- takes up, remembers every row it took, and counts the events; a poll whose query fails publishes
-- nothing.
pub poll_once_lem :
    (now db_now window : ℕ) (registry : RealtimeRegistry) (seen : Seen)
    → ((table : List OutboxRow)
        → poll_once now db_now window (ok table) registry seen ≡ (
          seen_after (prune now window seen) (read_window db_now window table),
          publish_all registry (delivered now db_now window table seen),
          ok (length (delivered now db_now window table seen)),
        ))
      × ((e : Text)
          → poll_once now db_now window (err e) registry seen
            ≡ (prune now window seen, registry, err e))
unfolding poll_once summed seen_after publish_all delivered
poll_once_lem now db_now window registry seen = (
  λ table.
      let rows = read_window db_now window table in
      rw (tail_rows_lem rows (tally (prune now window seen) registry 0)) (
        let n = length (delivered now db_now window table seen) in
        let e : 0 + n ≡ n = omega arith in
        ap
          (λ k. (
            seen_after (prune now window seen) rows,
            publish_all registry (delivered now db_now window table seen),
            ok k,
          ))
          e),
  λ e. refl,
)
