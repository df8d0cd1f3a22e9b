-- ===== src/Sms/Seam.antt =====
-- The sms states that the statements write, against the generated machine and the trigger.
use backbone_mail.Prelude.{
  ◌≡◌, refl, ◌⊎◌, inl, inr, Bool, true, false, not, ◌&&◌, none, some, find, arith, Memb, any-Memb,
  find-some, err,
}
use backbone_mail.Prelude.Text.{Text, codes, text_eq}
use backbone_mail.StateMachine.SmsHooks
use backbone_mail.StateMachine.SmsHooks.{SmsHooksState, SmsHooksTransition}
use backbone_mail.Store.{Db, SmsRow}
use backbone_mail.Store.Channel.{Uuid}
use backbone_mail.Status.{check_violation, sms_guard, sms_rank, is_label}
use backbone_mail.Sms.{
  as_sms_state, guarded_update, is_drained, is_seam, is_claimable, pick_up, apply_outcome_from,
  cast_outcome,
}
use backbone_mail.Sms.Service.{db_error, advance_state, advance_row_state}

-- the transition that ends in a state
abbrev into : SmsHooksState → SmsHooksTransition
into SmsHooksState.outgoing = SmsHooksTransition.stuck_requeued
into SmsHooksState.process = SmsHooksTransition.pickup
into SmsHooksState.pending = SmsHooksTransition.iap_accepted
into SmsHooksState.sent = SmsHooksTransition.delivery_confirmed
into SmsHooksState.error = SmsHooksTransition.send_failed
into SmsHooksState.canceled = SmsHooksTransition.canceled

target_state-into : (s : SmsHooksState) → SmsHooks.target_state (into s) ≡ s
unfolding SmsHooks.target_state
target_state-into s = ground arith

drained_edge :
    (r : SmsRow) (id : Uuid) (target : SmsHooksState)
    → is_drained id r ≡ true
    → sms_guard r.state target false ≡ true
    → (r.state ≡ target) ⊎ (SmsHooks.can_transition r.state (into target) ≡ true)
unfolding is_drained sms_guard SmsHooks.can_transition
drained_edge r id target h g = ground arith

-- Each write of an sms state that a guard selects and the trigger lets through is a transition of
-- the generated machine: the claim is `pickup`, a late verdict moves from `process` or `pending` to
-- its target, and so does the drainer's, unless it writes `process` over `process`.
pub sms_writes_legal :
    (r : SmsRow) (id : Uuid) (locked : Uuid → Bool) (target : SmsHooksState)
    → (is_claimable locked r ≡ true
        → (SmsHooks.can_transition r.state SmsHooksTransition.pickup ≡ true)
          × ((pick_up r).state ≡ SmsHooks.target_state SmsHooksTransition.pickup))
      × (is_seam id target r ≡ true
          → sms_guard r.state target false ≡ true
          → (t : SmsHooksTransition) × (SmsHooks.can_transition r.state t ≡ true)
            × (SmsHooks.target_state t ≡ target))
      × (is_drained id r ≡ true
          → sms_guard r.state target false ≡ true
          → (r.state ≡ target)
            ⊎ ((t : SmsHooksTransition) × (SmsHooks.can_transition r.state t ≡ true)
                × (SmsHooks.target_state t ≡ target)))
unfolding is_claimable pick_up is_seam is_drained sms_guard SmsHooks.can_transition
    SmsHooks.target_state SmsHooks.ordinal
sms_writes_legal r id locked target = (
  λ h. ground arith,
  λ h g. (into target, ground arith, target_state-into target),
  λ h g. elim (drained_edge r id target h g) [
    | inl same ↦ inl same
    | inr legal ↦ inr (into target, legal, target_state-into target)
  ],
)

seam_selects :
    (r : SmsRow)
    → r.state ≡ SmsHooksState.pending
    → (is_seam r.id SmsHooksState.process r && not (sms_guard r.state SmsHooksState.process false))
      ≡ true
unfolding is_seam sms_guard sms_rank SmsHooks.ordinal
seam_selects r at = ground arith

row_refused :
    (uuid : Text) (r : SmsRow) (db : Db)
    → Memb r db.sms
    → r.state ≡ SmsHooksState.pending
    → advance_row_state r.id uuid (codes "process") none none db ≡ err check_violation
unfolding advance_row_state apply_outcome_from cast_outcome as_sms_state guarded_update is_label
    text_eq SmsHooks.state_name SmsHooks.all_states
row_refused uuid r db m at =
    let refused =
      any-Memb
        (λ (row : SmsRow).
          is_seam r.id SmsHooksState.process row
          && not (sms_guard row.state SmsHooksState.process false))
        r db.sms m (seam_selects r at) in
    rw refused refl

-- A late verdict that would take a pending sms back to `process` is not a replay: the seam's
-- statement selects the row, the trigger refuses the update, and the call fails.
pub advance_state-regression :
    (uuid : Text) (r : SmsRow) (db : Db)
    → find (λ (row : SmsRow). text_eq row.uuid uuid) db.sms ≡ some r
    → r.state ≡ SmsHooksState.pending
    → advance_state uuid (codes "process") none none db ≡ err (db_error check_violation)
unfolding advance_state
advance_state-regression uuid r db found at =
    let m = (find-some (λ (row : SmsRow). text_eq row.uuid uuid) db.sms found).0 in
    rw (found, row_refused uuid r db m at) refl
