-- ===== src/Chatter/Closed.antt =====
-- What the resolvers of chatter_acl.rs let through.
use backbone_mail.Prelude.{
  ◌≡◌, refl, ◌↔◌, ◌⊎◌, inl, inr, Bool, true, false, List, arith, ◌||◌, ◌&&◌, any, is_some, Memb,
  any-Memb, any_witness, ==_iff,
}
use backbone_mail.Prelude.Text.{Text, codes, text_eq, text_eq_iff}
use backbone_mail.Store.Channel.{Uuid}
use backbone_mail.Chatter.{
  MessagingIdentity, user, guest, partner_id, is_own_partner_wall, ThreadAccessResolver,
  ThreadAclSlot, opens, static_thread_access, install, default_slot, slot_can_read, slot_can_post,
}

-- An identity on its own partner's wall.
abbrev pub OwnWall : MessagingIdentity → Text → Uuid → Type 0
OwnWall identity model res_id = (model ≡ codes "res.partner") × (identity ≡ user res_id)

pub OwnWall-iff :
    (identity : MessagingIdentity) (model : Text) (res_id : Uuid)
    → (is_own_partner_wall identity model res_id ≡ true) ↔ OwnWall identity model res_id
unfolding is_own_partner_wall partner_id
OwnWall-iff (user p) model res_id =
    ground (arith, text_eq_iff model (codes "res.partner"), ==_iff p res_id)
OwnWall-iff (guest g) model res_id = ground (arith, text_eq_iff model (codes "res.partner"))

-- A partner on a model of the list.
abbrev pub Opened : List Text → MessagingIdentity → Text → Type 0
Opened open_models identity model = Memb model open_models × ((p : Uuid) × (identity ≡ user p))

pub listed_iff : (m : Text) (ms : List Text) → (any (λ k. text_eq k m) ms ≡ true) ↔ Memb m ms
listed_iff m ms = (
  λ h. let (k, at, e) = any_witness (λ k. text_eq k m) ms h in rw (← (text_eq_iff k m).0 e) at,
  λ at. any-Memb (λ k. text_eq k m) m ms at ((text_eq_iff m m).1 refl),
)

partner_iff :
    (identity : MessagingIdentity)
    → (is_some (partner_id identity) ≡ true) ↔ ((p : Uuid) × (identity ≡ user p))
unfolding partner_id
partner_iff (user p) = (λ h. (p, refl), λ h. refl)
partner_iff (guest g) = (λ h. absurd (cc h), λ (p, e). absurd (cc e))

-- A test that is a disjunction with a conjunction, by what each of its tests decides.
reflect_or :
    {a b c : Bool} {P Q R : Type 0}
    → (a ≡ true) ↔ P
    → (b ≡ true) ↔ Q
    → (c ≡ true) ↔ R
    → ((a || (b && c)) ≡ true) ↔ (P ⊎ (Q × R))
reflect_or {a} {b} {c} p q r = (split a b c p q r, λ h. joined a b c p q r h)
  where
    split :
        {P Q R : Type 0} (a b c : Bool)
        → (a ≡ true) ↔ P
        → (b ≡ true) ↔ Q
        → (c ≡ true) ↔ R
        → (a || (b && c)) ≡ true
        → P ⊎ (Q × R)
    split true b c p q r h = inl (p.0 refl)
    split false true true p q r h = inr (q.0 refl, r.0 refl)
    split false true false p q r h = absurd (cc h)
    split false false c p q r h = absurd (cc h)

    joined :
        {P Q R : Type 0} (a b c : Bool)
        → (a ≡ true) ↔ P
        → (b ≡ true) ↔ Q
        → (c ≡ true) ↔ R
        → P ⊎ (Q × R)
        → (a || (b && c)) ≡ true
    joined a b c p q r (inl x) = rw (p.1 x) refl
    joined true b c p q r (inr (y, z)) = refl
    joined false b c p q r (inr (y, z)) = rw (q.1 y) (rw (r.1 z) refl)

opens_iff :
    (identity : MessagingIdentity) (model : Text) (res_id : Uuid) (open_models : List Text)
    → (opens open_models identity model res_id ≡ true)
      ↔ (OwnWall identity model res_id ⊎ Opened open_models identity model)
unfolding opens
opens_iff identity model res_id open_models =
    reflect_or (OwnWall-iff identity model res_id) (listed_iff model open_models)
      (partner_iff identity)

module _ {W : Type 0} (pool : W) (identity : MessagingIdentity) (model : Text) (res_id : Uuid) where
  -- Before a host installs a resolver, reading and posting are allowed exactly on the caller's own
  -- partner's wall; a static resolver adds exactly the listed models, for partners; and a slot
  -- answers as the resolver installed last.
  pub closed_by_default :
      (open_models : List Text) (slot : ThreadAclSlot W) (host : ThreadAccessResolver W)
      → ((slot_can_read default_slot pool identity model res_id ≡ true)
          ↔ OwnWall identity model res_id)
        × ((slot_can_post default_slot pool identity model res_id ≡ true)
            ↔ OwnWall identity model res_id)
        × (((static_thread_access open_models).can_read pool identity model res_id ≡ true)
            ↔ (OwnWall identity model res_id ⊎ Opened open_models identity model))
        × (((static_thread_access open_models).can_post pool identity model res_id ≡ true)
            ↔ (OwnWall identity model res_id ⊎ Opened open_models identity model))
        × (slot_can_read (install slot host) pool identity model res_id
            ≡ host.can_read pool identity model res_id)
        × (slot_can_post (install slot host) pool identity model res_id
            ≡ host.can_post pool identity model res_id)
  unfolding slot_can_read slot_can_post default_slot install static_thread_access
  closed_by_default open_models slot host = (
    OwnWall-iff identity model res_id,
    OwnWall-iff identity model res_id,
    opens_iff identity model res_id open_models,
    opens_iff identity model res_id open_models,
    refl,
    refl,
  )
