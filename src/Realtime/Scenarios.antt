-- ===== src/Realtime/Scenarios.antt =====
-- Runs of the ring, the slots, the poll and the streams, and the theorems at them.
use backbone_mail.Prelude.{
  ◌≤◌, ◌≡◌, refl, inl, inr, List, [], ◌∷◌, ◌++◌, some, ok, arith, Memb, is_ok, ltb,
}
use backbone_mail.Prelude.Text.{Text, codes, text_eq, byte_len}
use backbone_mail.Prelude.Json
use backbone_mail.Prelude.Json.{Json, get}
use backbone_mail.Store.Channel.{Uuid}
use backbone_mail.Realtime.Registry.{
  TailedEvent, new_registry, ring_capacity, replay_after, count_of, set_count, forget,
  reserve_connection,
}
use backbone_mail.Realtime.Window.{publish_all, last, replay_resumes}
use backbone_mail.Realtime.Slots.{Streams, Step, Reach, slots_capped, alive, held, empty}
use backbone_mail.Realtime.Tailer.{OutboxRow, valid_channel_key, extract_event, poll_once}
use backbone_mail.Realtime.Polls.{delivered, taken, events}
use backbone_mail.Realtime.Polls.Known.{ids, Distinct}
use backbone_mail.Realtime.Polls.Once
use backbone_mail.Realtime.Polls.Once.{Replica, published_once}
use backbone_mail.Realtime.Polls.Catches.{window_is_published}

abbrev event : Uuid → TailedEvent
event n = record {
  id = n;
  channel = codes "res.partner_1";
  message_type = codes "mail.message/insert";
  payload = Json.null;
  occurred_at = n;
}

replay_resumes_example :
    replay_after (publish_all new_registry (event 1 ∷ event 2 ∷ event 3 ∷ event 4 ∷ [])) (some 2)
    ≡ event 3 ∷ event 4 ∷ []
replay_resumes_example =
    (replay_resumes (event 1 ∷ []) (event 3 ∷ event 4 ∷ []) (event 2)).0
      ((λ e. absurd (omega (arith, e))), tt) (omega arith)

abbrev key : Text
key = codes "p:1"

abbrev one_stream : Streams
unfolding reserve_connection new_registry count_of set_count forget
one_stream = record { registry = (reserve_connection new_registry key 4).0; guards = key ∷ [] }

opens_one : Step 4 empty one_stream
unfolding one_stream empty reserve_connection new_registry count_of
opens_one = Step.opened empty key (reserve_connection new_registry key 4).0 refl

slots_capped_example :
    (alive key one_stream.guards ≤ 4)
    × (held key one_stream.registry.connections ≡ alive key one_stream.guards)
    × (is_ok (reserve_connection one_stream.registry key 4).1 ≡ ltb (alive key one_stream.guards) 4)
slots_capped_example = slots_capped 4 (Reach.next Reach.here opens_one) key

abbrev message : Json
message = Json.obj (
    Json.entry (codes "channel") (Json.str (codes "res.partner_1")) (
      Json.entry (codes "message")
        (Json.obj (
          Json.entry (codes "type") (Json.str (codes "mail.message/insert"))
            (Json.entry (codes "payload") Json.null Json.end)))
        Json.end))

abbrev row_of : Uuid → OutboxRow
row_of n = record { id = n; occurred_at = n; payload = message }

abbrev table : List OutboxRow
table = row_of 2 ∷ row_of 1 ∷ []

kept : (r : OutboxRow) → Memb r table → r ≡ row_of r.id
kept r (inl e) = rw (← e) refl
kept r (inr (inl e)) = rw (← e) refl
kept r (inr (inr m)) = absurd m

abbrev after_one : Replica
unfolding Once.started poll_once delivered taken events
after_one = record {
  seen = (poll_once 50 50 55 (ok table) new_registry []).0;
  registry = (poll_once 50 50 55 (ok table) new_registry []).1;
  log = [] ++ delivered 50 50 55 table [];
  clock = 50;
}

one_poll : Once.Reach row_of 55 after_one
unfolding after_one
one_poll =
    Once.Reach.next Once.Reach.here
      (Once.Poll.answered Once.started 50 50 table (omega arith) (omega arith) kept)

published_once_example :
    Distinct (ids after_one.log) × (after_one.registry.ring ≡ last ring_capacity after_one.log)
published_once_example = published_once row_of 55 one_poll

-- A row of the first window is not published by the second poll.
window_is_published_example :
    Memb (event 1) (after_one.log ++ delivered 51 53 55 table after_one.seen)
    × ((poll_once 51 53 55 (ok table) after_one.registry after_one.seen).1.ring
        ≡ last ring_capacity (after_one.log ++ delivered 51 53 55 table after_one.seen))
unfolding extract_event valid_channel_key get byte_len text_eq after_one
window_is_published_example =
    window_is_published row_of 55 51 53 table (row_of 1) (event 1) one_poll (omega arith)
      (omega arith) kept (inr (inl refl)) refl refl
