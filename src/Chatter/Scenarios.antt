-- ===== src/Chatter/Scenarios.antt =====
-- The access rules at one partner and one guest.
use backbone_mail.Prelude.{◌≡◌, refl, ◌↔◌, true, false, [], ◌∷◌}
use backbone_mail.Prelude.Text.{codes, text_eq}
use backbone_mail.Chatter.{
  user, guest, partner_id, is_own_partner_wall, deny_host_docs, static_thread_access, default_slot,
  slot_can_read, slot_can_post,
}
use backbone_mail.Chatter.Closed.{OwnWall, closed_by_default}

-- A partner reads its own wall and no lead; a guest with the same number reads neither.
default_answers :
    (slot_can_read default_slot tt (user 7) (codes "res.partner") 7 ≡ true)
    × (slot_can_read default_slot tt (user 7) (codes "res.partner") 8 ≡ false)
    × (slot_can_post default_slot tt (user 7) (codes "crm.lead") 7 ≡ false)
    × (slot_can_read default_slot tt (guest 7) (codes "res.partner") 7 ≡ false)
unfolding slot_can_read slot_can_post default_slot deny_host_docs is_own_partner_wall partner_id
    text_eq
default_answers = (refl, refl, refl, refl)

closed_by_default_example :
    (slot_can_read default_slot tt (user 7) (codes "res.partner") 7 ≡ true)
    ↔ OwnWall (user 7) (codes "res.partner") 7
closed_by_default_example =
    (closed_by_default tt (user 7) (codes "res.partner") 7 (codes "project.project" ∷ [])
      default_slot (static_thread_access (codes "project.project" ∷ []))).0
