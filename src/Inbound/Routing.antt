-- ===== src/Inbound/Routing.antt =====
-- What the inbound gateway reads: the tables, the allowlist, and the routing of
-- src/application/service/mail_inbound_service.rs over the statements of
-- src/infrastructure/persistence/inbound_repository.rs and alias_resolution_repository.rs.
use backbone_mail.Prelude.{
  ℕ, Bool, true, false, ◌&&◌, ◌||◌, not, List, [], ◌∷◌, Option, none, some, any, find, is_empty,
  is_some, or_else, ◌==◌, if◌then◌else◌,
}
use backbone_mail.Prelude.Text.{Text, text_eq, trim, to_ascii_lowercase, rsplit_once}
use backbone_mail.Store.{Db, MessageRow}
use backbone_mail.Store.Channel.{Uuid}

pub record InboundMessage : Type 0 where
  pub message_id : Option Text
  pub from : Text
  pub to : List Text
  pub subject : Option Text
  pub body_html : Text
  pub in_reply_to : Option Text

-- a row of `fetchmail_servers`
pub record InboundServerRow : Type 0 where
  pub id : Uuid
  pub active : Bool
  pub deleted : Bool
  pub token_hash : Text
  pub default_thread_model : Option Text
  pub last_fetch_at : Option ℕ
  pub error_at : Option ℕ
  pub error_message : Option Text

-- a row of `mail_gateway_allowed`
pub record AllowedRow : Type 0 where
  pub active : Bool
  pub deleted : Bool
  pub fetchmail_server_id : Option Uuid
  pub pattern : Text

-- a row of `mail_alias_domains`
pub record DomainRow : Type 0 where
  pub id : Uuid
  pub name : Text
  pub deleted : Bool

-- a row of `mail_aliases`, with the columns that the gateway reads
pub record AliasRow : Type 0 where
  pub alias_name : Text
  pub alias_domain_id : Option Uuid
  pub alias_parent_thread_id : Option Uuid
  pub alias_force_thread_id : Option Uuid
  pub deleted : Bool

pub record Gateway : Type 0 where
  pub servers : List InboundServerRow
  pub allowed : List AllowedRow
  pub domains : List DomainRow
  pub aliases : List AliasRow
  pub db : Db

-- `message_id = $1`, which no row without one passes
abbrev pub has_id : Text → MessageRow → Bool
has_id mid m = elim m.message_id [ none ↦ false | some x ↦ text_eq x mid ]

abbrev pub row_id : Option MessageRow → Option Uuid
row_id none = none
row_id (some m) = some m.id

unfoldable pub find_by_message_id : Text → List MessageRow → Option Uuid
find_by_message_id mid messages = row_id (find (has_id mid) messages)

abbrev thread_of : Option MessageRow → Option (Option Text × Option Uuid)
thread_of none = none
thread_of (some m) = some (m.model, m.res_id)

unfoldable pub find_parent_thread : Text → List MessageRow → Option (Option Text × Option Uuid)
find_parent_thread mid messages = thread_of (find (λ m. has_id mid m && is_some m.model) messages)

abbrev is_ref : Uuid → Option Uuid → Bool
is_ref id none = false
is_ref id (some x) = x == id

abbrev model_of : Option MessageRow → Option Text
model_of none = none
model_of (some m) = m.model

unfoldable pub learn_thread_model : Uuid → List MessageRow → Option Text
learn_thread_model target messages =
    model_of (find (λ m. is_ref target m.res_id && is_some m.model) messages)

unfoldable pub split_address : Text → Option (Text × Text)
split_address address = elim (rsplit_once b'@' address) [
  | none ↦ none
  | some (before, after) ↦
      let local = to_ascii_lowercase (trim before) in
      let domain = to_ascii_lowercase (trim after) in
      if is_empty local || is_empty domain then none else some (local, domain)
]

abbrev in_scope : Uuid → Option Uuid → Bool
in_scope server none = true
in_scope server (some s) = s == server

-- `from.rsplit('@').next()`
abbrev domain_part : Text → Text
domain_part from = elim (rsplit_once b'@' from) [ none ↦ from | some (_, domain) ↦ domain ]

unfoldable pub sender_allowed : (Text → Text) → Uuid → Text → List AllowedRow → Bool
sender_allowed lower server envelope_from rows =
    let from = to_ascii_lowercase (trim envelope_from) in
    let domain = domain_part from in
    any
      (λ (a : AllowedRow).
        a.active
        && not a.deleted
        && in_scope server a.fetchmail_server_id
        && (text_eq (lower a.pattern) from
            || text_eq (lower a.pattern) domain
            || text_eq (lower a.pattern) (b'@' ∷ domain)))
      rows

unfoldable pub find_domain_id_by_name : (Text → Text) → Text → List DomainRow → Option Uuid
find_domain_id_by_name lower domain rows =
    elim (find (λ (d : DomainRow). text_eq (lower d.name) (lower domain) && not d.deleted) rows) [
      | none ↦ none
      | some d ↦ some d.id
    ]

-- `resolve` with a domain, which a row without one does not match
unfoldable pub resolve : Text → Uuid → List AliasRow → Option AliasRow
resolve name domain rows =
    find
      (λ (a : AliasRow).
        text_eq a.alias_name name && is_ref domain a.alias_domain_id && not a.deleted)
      rows

-- the thread that one address leads to
abbrev alias_target : (Text → Text) → Text → Gateway → Option Uuid
alias_target lower addr g = elim (split_address addr) [
  | none ↦ none
  | some (local, domain) ↦ elim (find_domain_id_by_name lower domain g.domains) [
    | none ↦ none
    | some id ↦ elim (resolve local id g.aliases) [
      | none ↦ none
      | some a ↦ or_else a.alias_force_thread_id a.alias_parent_thread_id
    ]
  ]
]

abbrev with_model : Uuid → Option Text → Option (Text × Uuid) → Option (Text × Uuid)
with_model target (some model) later = some (model, target)
with_model target none later = later

-- rung 2 of `route`: the walk over the recipients
unfoldable pub route_alias :
    (Text → Text) → Option Text → List Text → Gateway → Option (Text × Uuid)
route_alias lower default [] g = none
route_alias lower default (addr ∷ rest) g =
    let later = route_alias lower default rest g in
    elim (alias_target lower addr g) [
      | none ↦ later
      | some target ↦
          with_model target (or_else (learn_thread_model target g.db.messages) default) later
    ]

abbrev parent_thread : Option Text → Gateway → Option (Option Text × Option Uuid)
parent_thread none g = none
parent_thread (some mid) g = find_parent_thread mid g.db.messages

unfoldable pub route :
    (Text → Text) → Option Text → InboundMessage → Gateway → Option Text × Option Uuid
route lower default msg g = elim (parent_thread msg.in_reply_to g) [
  | some thread ↦ thread
  | none ↦ elim (route_alias lower default msg.to g) [
    | some (model, target) ↦ (some model, some target)
    | none ↦ (default, none)
  ]
]
