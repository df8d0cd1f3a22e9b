-- ===== src/Realtime/Slots.antt =====
-- The connection slots of src/realtime/registry.rs against the guards that hold them
-- (`ConnectionGuard`: made after a reservation, releasing when it is dropped).
use backbone_mail.Prelude.{
  ℕ, suc, ◌+◌, ◌-◌, ◌≤◌, ◌≡◌, refl, sym, ap, ◌∙◌, is_ok, ltb, List, [], ◌∷◌, none, some, ok, err,
  arith, Memb, inl, inr, if◌then◌else◌, count_if, unwrap_or, Bool-cases, Option-cases, leb,
}
use backbone_mail.Prelude.Text.{Text, text_eq, text_eq_iff}
use backbone_mail.Realtime.Registry.{
  RealtimeRegistry, Counts, new_registry, count_of, forget, set_count, lowered, reserve_connection,
  release_connection,
}

-- A registry with the keys of the guards that are alive.
pub record Streams : Type 0 where
  pub registry : RealtimeRegistry
  pub guards : List Text

abbrev pub held : Text → Counts → ℕ
unfolding count_of
held key counts = unwrap_or (count_of key counts) 0

abbrev pub alive : Text → List Text → ℕ
alive key guards = count_if (λ g. text_eq g key) guards

unfoldable pub drop_guard : Text → List Text → List Text
drop_guard key [] = []
drop_guard key (g ∷ guards) =
    let rest = drop_guard key guards in if text_eq g key then guards else g ∷ rest

-- One stream opens, is refused, or ends.
pub data Step (cap : ℕ) : Streams → Streams → Type 0 where
  opened :
      (s : Streams) (key : Text) (r : RealtimeRegistry)
      → reserve_connection s.registry key cap ≡ (r, ok tt)
      → Step cap s (record { registry = r; guards = key ∷ s.guards })
  refused :
      (s : Streams) (key : Text) (r : RealtimeRegistry) (n : ℕ)
      → reserve_connection s.registry key cap ≡ (r, err n)
      → Step cap s (record { registry = r; guards = s.guards })
  ended :
      (s : Streams) (key : Text)
      → Memb key s.guards
      → Step cap s (record {
        registry = release_connection s.registry key;
        guards = drop_guard key s.guards;
      })

pub data Reach (cap : ℕ) (start : Streams) : Streams → Type 0 where
  here : Reach cap start start
  next : {t u : Streams} → Reach cap start t → Step cap t u → Reach cap start u

-- Each identity's count is the number of its guards, and no more than the cap.
abbrev pub IsHonest : ℕ → Streams → Type 0
IsHonest cap s =
    (key : Text)
    → (held key s.registry.connections ≡ alive key s.guards) × (alive key s.guards ≤ cap)

count_of-forget :
    (a b : Text) (counts : Counts)
    → count_of a (forget b counts) ≡ (if text_eq b a then none else count_of a counts)
unfolding count_of forget
count_of-forget a b [] = ground arith
count_of-forget a b ((k, n) ∷ counts) =
    ground (arith, count_of-forget a b counts, text_eq_iff k b, text_eq_iff k a, text_eq_iff b a)

held-set_count :
    (a b : Text) (n : ℕ) (counts : Counts)
    → held a (set_count b n counts) ≡ (if text_eq b a then n else held a counts)
unfolding held count_of set_count
held-set_count a b n counts = ground (arith, count_of-forget a b counts)

held-forget :
    (a b : Text) (counts : Counts)
    → held a (forget b counts) ≡ (if text_eq b a then 0 else held a counts)
unfolding held
held-forget a b counts = ground (arith, count_of-forget a b counts)

lowered_one :
    (a b : Text) (counts : Counts) (n : ℕ)
    → count_of b counts ≡ some n
    → held a (lowered b counts (some n))
      ≡ (if text_eq b a then held a counts - 1 else held a counts)
unfolding held lowered
lowered_one a b counts n h =
    ground (arith, held-forget a b counts, held-set_count a b (n - 1) counts, text_eq_iff b a, h)

held-lowered :
    (a b : Text) (counts : Counts)
    → held a (lowered b counts (count_of b counts))
      ≡ (if text_eq b a then held a counts - 1 else held a counts)
unfolding held lowered
held-lowered a b counts = elim (Option-cases (count_of b counts)) [
  | inl gone ↦ rw gone (ground (arith, text_eq_iff b a, gone))
  | inr (n, h) ↦ rw h (lowered_one a b counts n h)
]

alive-Memb : (key : Text) (guards : List Text) → Memb key guards → 1 ≤ alive key guards
unfolding count_if
alive-Memb key [] m = absurd m
alive-Memb key (g ∷ guards) m = ground (arith, text_eq_iff g key, alive-Memb key guards)

alive-drop_guard :
    (a b : Text) (guards : List Text)
    → Memb b guards
    → alive a (drop_guard b guards) ≡ (if text_eq b a then alive a guards - 1 else alive a guards)
unfolding count_if drop_guard
alive-drop_guard a b [] m = absurd m
alive-drop_guard a b (g ∷ guards) m = ground (
  arith,
  alive-drop_guard a b guards,
  text_eq_iff g b,
  text_eq_iff g a,
  text_eq_iff b a,
  alive-Memb a guards,
)

released :
    (s : RealtimeRegistry) (key : Text)
    → (release_connection s key).connections
      ≡ lowered key s.connections (count_of key s.connections)
unfolding release_connection
released s key = refl

unfoldable pub empty : Streams
unfolding new_registry
empty = record { registry = new_registry; guards = [] }

module _ (cap : ℕ) where
  reserved :
      (s : RealtimeRegistry) (key : Text) (r : RealtimeRegistry)
      → reserve_connection s key cap ≡ (r, ok tt)
      → (r.connections ≡ set_count key (held key s.connections + 1) s.connections)
        × (suc (held key s.connections) ≤ cap)
  unfolding reserve_connection held
  reserved s key r h = elim (Bool-cases (leb cap (held key s.connections))) [
    | inl full ↦ absurd (cc (rw full at h))
    | inr free ↦ let h2 = rw free at h in (sym (ap (λ p. p.0.connections) h2), ground (arith, free))
  ]

  not_reserved :
      (s : RealtimeRegistry) (key : Text) (r : RealtimeRegistry) (n : ℕ)
      → reserve_connection s key cap ≡ (r, err n)
      → r.connections ≡ s.connections
  unfolding reserve_connection held
  not_reserved s key r n h = elim (Bool-cases (leb cap (held key s.connections))) [
    | inl full ↦ let h2 = rw full at h in sym (ap (λ p. p.0.connections) h2)
    | inr free ↦ absurd (cc (rw free at h))
  ]

  Step-IsHonest : {s t : Streams} → Step cap s t → IsHonest cap s → IsHonest cap t
  unfolding count_if
  Step-IsHonest (opened s key r h) honest a =
      let (c, free) = reserved s.registry key r h in
      let (same, within) = honest a in
      let (same_key, within_key) = honest key in
      rw c (
        ground (
          arith,
          held-set_count a key (held key s.registry.connections + 1) s.registry.connections,
          text_eq_iff key a,
        ))
  Step-IsHonest (refused s key r n h) honest a = rw (not_reserved s.registry key r n h) (honest a)
  Step-IsHonest (ended s key m) honest a = rw (released s.registry key) (
      rw (held-lowered a key s.registry.connections)
        (rw (alive-drop_guard a key s.guards m) (ground (arith, honest a))))

  Reach-IsHonest : {s t : Streams} → IsHonest cap s → Reach cap s t → IsHonest cap t
  Reach-IsHonest honest here = honest
  Reach-IsHonest honest (next before step) = Step-IsHonest step (Reach-IsHonest honest before)

  empty-IsHonest : IsHonest cap empty
  unfolding held count_of empty count_if new_registry
  empty-IsHonest key = (refl, omega arith)

  reserve_iff :
      (s : RealtimeRegistry) (key : Text)
      → is_ok (reserve_connection s key cap).1 ≡ ltb (held key s.connections) cap
  unfolding reserve_connection held
  reserve_iff s key = ground arith

  -- However streams open, are refused and end, from a registry without any, no identity ever has
  -- more than the cap alive; its count is the number that are, so a slot is given exactly while
  -- fewer than the cap are alive, and no ended stream keeps one.
  pub slots_capped :
      {s : Streams}
      → Reach cap empty s
      → (key : Text)
      → (alive key s.guards ≤ cap)
        × (held key s.registry.connections ≡ alive key s.guards)
        × (is_ok (reserve_connection s.registry key cap).1 ≡ ltb (alive key s.guards) cap)
  slots_capped {s} reach key =
      let (same, within) = Reach-IsHonest empty-IsHonest reach key in
      (within, same, reserve_iff s.registry key ∙ ap (λ n. ltb n cap) same)
