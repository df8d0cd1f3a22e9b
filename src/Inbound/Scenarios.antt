-- ===== src/Inbound/Scenarios.antt =====
-- A gateway with one server and one allowed domain, with the theorems at it.
use backbone_mail.Prelude.{
  ◌≤◌, ◌≡◌, refl, true, false, [], ◌∷◌, none, some, arith, count_if, ok, err,
}
use backbone_mail.Prelude.Text.{
  Text, codes, text_eq, to_ascii_lowercase, trim, rsplit_once, is_blank,
}
use backbone_mail.Status.{aborted_transaction}
use backbone_mail.Inbound.{
  auth, routed, duplicate, process_in_tx, process_inbound, find_server, store_message, authenticate,
  message_row,
}
use backbone_mail.Inbound.Routing.{
  InboundMessage, InboundServerRow, AllowedRow, Gateway, has_id, sender_allowed, route,
  find_by_message_id, route_alias, split_address, find_parent_thread, find_domain_id_by_name,
}
use backbone_mail.Inbound.Bytes.{
  IsUnicode, const_eq_bytes, const_eq, bytes, gather, or_bits, xor_bits,
}
use backbone_mail.Inbound.Dedup.{unique_message_id, redelivery, Stored, delivery-Stored}
use backbone_mail.Inbound.Auth.{inbound-IsAuthentic, refusals_alike, race_fails}

abbrev same_text : Text → Text
same_text t = t

abbrev server : InboundServerRow
server = record {
  id = 5;
  active = true;
  deleted = false;
  token_hash = codes "ab";
  default_thread_model = some (codes "crm.lead");
  last_fetch_at = none;
  error_at = none;
  error_message = none;
}

abbrev domain_allowed : AllowedRow
domain_allowed = record {
  active = true;
  deleted = false;
  fetchmail_server_id = none;
  pattern = codes "b";
}

abbrev gateway : Gateway
gateway = record {
  servers = server ∷ [];
  allowed = domain_allowed ∷ [];
  domains = [];
  aliases = [];
  db = record {
    messages = [];
    notifications = [];
    mails = [];
    sms = [];
    trackers = [];
    outbox = [];
  };
}

abbrev letter : InboundMessage
letter = record {
  message_id = some (codes "m1");
  from = codes "a@b";
  to = codes "c@d" ∷ [];
  subject = none;
  body_html = codes "hi";
  in_reply_to = none;
}

abbrev model : Text
model = codes "crm.lead"

-- the gateway after the letter
letter_stored :
    (g' : Gateway) × (process_in_tx same_text 7 0 [] 5 (some model) letter gateway
      ≡ ok (g', routed 7 (some model) none))
unfolding process_in_tx find_by_message_id sender_allowed route route_alias split_address
    rsplit_once trim to_ascii_lowercase text_eq store_message find_parent_thread
    find_domain_id_by_name
letter_stored = (_, refl)

redelivery_example :
    process_in_tx same_text 8 1 [] 5 (some model) letter letter_stored.0
    ≡ ok (letter_stored.0, duplicate 7)
redelivery_example =
    redelivery same_text 7 8 0 1 [] 5 (some model) letter gateway letter_stored.0 7 (some model)
      none (codes "m1") refl letter_stored.1

unique_message_id_example : count_if (has_id (codes "m1")) letter_stored.0.db.messages ≤ 1
unfolding count_if
unique_message_id_example =
    unique_message_id same_text 7 0 [] 5 (some model) letter gateway letter_stored.0
      (routed 7 (some model) none) (codes "m1") letter_stored.1 (omega arith)

delivery-Stored_example :
    Stored same_text 7 0 [] 5
      (some model)
      letter
      gateway
      letter_stored.0
      (routed 7 (some model) none)
delivery-Stored_example =
    delivery-Stored same_text 7 0 [] 5 (some model) letter gateway letter_stored.0
      (routed 7 (some model) none) letter_stored.1

race_fails_example :
    process_in_tx same_text 7 0 (message_row 6 model none letter ∷ []) 5 (some model) letter gateway
    ≡ err aborted_transaction
unfolding text_eq message_row
race_fails_example =
    race_fails same_text 7 0 (message_row 6 model none letter ∷ []) 5 letter (codes "m1") refl refl
      (some model) gateway letter_stored.0 7 (some model) none letter_stored.1

abbrev sha_ab : Text → Text
sha_ab _ = codes "ab"

abbrev sha_cd : Text → Text
sha_cd _ = codes "cd"

refusals_alike_example :
    process_inbound sha_cd same_text 7 0 [] 5 (codes "token") letter gateway ≡ err auth
unfolding find_server is_blank const_eq const_eq_bytes bytes gather to_ascii_lowercase or_bits
    xor_bits
refusals_alike_example =
    refusals_alike sha_cd same_text 7 0 [] 5 (codes "token") letter gateway refl (λ h. cc (h.1))

letter_let_in :
    (g' : Gateway) × (process_inbound sha_ab same_text 7 0 [] 5 (codes "token") letter gateway
      ≡ ok (g', routed 7 (some model) none))
unfolding process_inbound authenticate find_server is_blank const_eq const_eq_bytes bytes gather
    or_bits xor_bits process_in_tx find_by_message_id sender_allowed route route_alias split_address
    rsplit_once trim to_ascii_lowercase text_eq store_message find_parent_thread
    find_domain_id_by_name
letter_let_in = (_, refl)

server_hash :
    (s : InboundServerRow) → find_server 5 gateway.servers ≡ some s → IsUnicode s.token_hash
unfolding find_server
server_hash s e = let same : server ≡ s = cc e in rw (← same) (omega arith, (omega arith, tt))

inbound-IsAuthentic_example :
    (s : InboundServerRow) × (find_server 5 gateway.servers ≡ some s)
    × (s.active ≡ true)
    × (sha_ab (codes "token") ≡ to_ascii_lowercase s.token_hash)
inbound-IsAuthentic_example =
    inbound-IsAuthentic sha_ab same_text 7 0 [] 5 (codes "token") letter gateway
      (omega arith, (omega arith, tt)) server_hash letter_let_in.0 (routed 7 (some model) none)
      letter_let_in.1
