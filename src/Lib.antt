-- ===== src/Lib.antt =====
-- backbone-mail: the messaging module. Posts, outgoing mail and sms queues, notifications, the inbound
-- mail gateway and the realtime bus keep their rows in one database schema, `messaging`; a service
-- of src/application/service runs the statements of a repository of src/infrastructure/persistence in one
-- transaction, and stages its bus events in the same transaction.
--
-- Paths below start at the root of the repository.
--   Prelude       lists over native numbers, texts as lists of Unicode scalar values, JSON values,
--                 and `Result` with `?` as a bind.
--   Store         the tables and the outbox as lists of records; the bus channel keys of
--                 src/domain/event/constants.rs. `stage_bus_event` appends to the outbox.
--   StateMachine  src/domain/state_machine: the five generated machines, with the methods they share in
--                 Machine over a record of tables, and the theorems on those tables in Laws.
--   Status        the ranks and triggers of migrations/20260815220000_sms_monotonic_guard.up.sql with
--                 20260815220007; the moves of a notification that the trigger of
--                 migrations/20260831220011_state_transition_check_mail_notifications_55eadcdc.up.sql
--                 declares; and `advance_notification_status` of
--                 src/infrastructure/persistence/message_pipeline_repository.rs.
--   Queue         the pickup that both queues make in one statement (`FOR UPDATE SKIP LOCKED`), and
--                 `UPDATE … WHERE`. Rows that another transaction holds are a parameter.
--   MailHeaders   the header guard of src/application/service/mail_ports.rs and the merge of
--                 src/infrastructure/gateway/smtp_mail_api.rs.
--   MailQueue     src/application/service/mail_queue_write_service.rs over mail_queue_repository.rs:
--                 `enqueue` and the claim in MailQueue, `mark_sent`, `mark_failed`, `requeue` and the
--                 linked notifications in Verdict, `process_queue` in Process.
--   Sms           src/application/service/sms_write_service.rs over sms_queue_repository.rs: the
--                 statements under the trigger in Sms, `enqueue`, `apply_outcome_in_tx` and
--                 `advance_state` in Service, `process_queue` in Process.
--   Inbound       src/application/service/mail_inbound_service.rs over inbound_repository.rs and
--                 alias_resolution_repository.rs: tables and routing in Routing, the pipeline in
--                 Inbound, `const_eq` in Bytes.
--   Webhook       src/application/service/sms_status_webhook_service.rs: the checks of a delivery
--                 report in order, and the call of `advance_state`.
--   Entity        the 22 enums of src/domain/entity as their columns keep them, and `transition_to` of the
--                 five entities that a state machine governs, in TransitionTo.
--   Transition    the 25 transition handlers of src/presentation/http: `transition_handler` is their
--                 common text, a Route the names of one, and a child module has those of one entity.
--   Chatter       src/application/service/chatter_acl.rs: identities, resolvers and their slot.
--   Realtime      src/realtime: the ring and the connection counts in Registry, the outbox poll in
--                 Tailer, session proofs in Session, allowlists and streams in Stream.
--   Blacklist     src/application/service/phone_blacklist_write_service.rs and
--                 mail_blacklist_write_service.rs over their verb repositories, as one table of rows.
--   Phone         src/application/service/phone_validation_service.rs and phone_ports.rs: the sanitizer,
--                 the walk over candidates, and the check against the blacklist.
--
-- A drain claims a batch and commits; the claim marks each row before anything is sent. It then
-- sends the rows one by one and commits one verdict for each, and these verdicts move the linked
-- notifications through Status. An inbound delivery writes a message and its event, or an event
-- alone, in one transaction.
--
-- A transaction is a function from the store to a `Result`: an error returns no store, since its
-- writes are rolled back. Statements that a cast, a trigger or an index refuses are errors; a lost
-- connection is not modelled. Fresh ids, the clock, the rows that other transactions hold or commit,
-- the mail transport, the sms provider, SHA-256, PostgreSQL's `lower`, and the lowercase of
-- characters beyond ASCII are parameters, as are HMAC-SHA256 and the decoder of a report. The
-- transport and the provider act on a world of their own, which can count the requests made.
--
-- The outbox that the services fill is what the realtime poll reads: `poll_once` publishes the rows of its
-- window that it has not seen to the ring, and a stream replays the ring from the client's last event
-- and then follows the live feed, dropping what its allowlist and the chatter resolvers do not permit.
-- The ring holds 4096 events, an identity 4 streams, an allowlist 64 memberships, as in the source.
-- tokio's broadcast channel, base64, the parsers of identifiers and of 64-bit numbers are parameters;
-- so are the crate phonenumber, and `get_by_id` and `partial_update` of backbone_core behind the
-- transition handlers. The database that a resolver looks into stands still while a stream is
-- filtered.
--
-- Loops are structural recursion, but for the two drains, which run on fuel and answer `none` if it
-- runs out: each pass claims a row or ends the loop, a verdict that the database refuses ends it too,
-- and no verdict makes a row wait again, so fuel above the number of waiting rows is enough.
--
-- While a drain runs, no other transaction writes the rows that it reads; what others hold locked is
-- passed over.
--
-- The declared moves of the mails and of the sms, in the migrations 20260831220010 and 20260831220013,
-- hold every change that the modelled statements make, so those two triggers never refuse and are left
-- out. `publish` is two steps, the ring and the send, between which other tasks may run.
--
-- Not modelled: the message post pipeline, garbage collection, channels and members, activities,
-- followers, schedules; the CRUD routes, generated services, DTOs, builders of entities and seeders,
-- which hold no logic of their own; the network code of the gateways, the framing of server-sent
-- events, and the timer of the poll loop.
pub mod Prelude
pub mod StateMachine
pub mod Store
pub mod Queue
pub mod Status
pub mod MailHeaders
pub mod MailQueue
pub mod Sms
pub mod Inbound
pub mod Webhook
pub mod Entity
pub mod Transition
pub mod Chatter
pub mod Realtime
pub mod Blacklist
pub mod Phone
