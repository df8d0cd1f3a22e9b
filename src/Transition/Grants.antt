-- ===== src/Transition/Grants.antt =====
-- The `granted` closure of the transition handlers, against the reading of a permission as a pattern.
use backbone_mail.Prelude.{◌≡◌, ◌↔◌, ◌⊎◌, true, List, [], ◌∷◌, arith, Memb, any-Memb, any_witness}
use backbone_mail.Prelude.Text.{Text, codes, text_eq_iff, split_on}
use backbone_mail.Transition.{segments_match, ends_in_star, grants, granted}

-- A pattern of segments covers a wanted list of segments: each of its segments is the wanted one or a
-- star, and a star at its end stands for one segment or more.
abbrev pub Covers : List Text → List Text → Type 0
Covers [] [] = Unit
Covers [] (x ∷ want) = ⊥
Covers (h ∷ have) [] = ⊥
Covers (h ∷ have) (x ∷ want) =
    ((h ≡ codes "*") × (have ≡ [])) ⊎ (((h ≡ codes "*") ⊎ (x ≡ h)) × Covers have want)

grants_iff : (want have : List Text) → (grants want have ≡ true) ↔ Covers have want
unfolding grants segments_match ends_in_star
grants_iff [] [] = ground arith
grants_iff (x ∷ want) [] = ground arith
grants_iff [] (h ∷ have) = ground arith
grants_iff (x ∷ []) (h ∷ []) = ground (arith, text_eq_iff h (codes "*"), text_eq_iff x h)
grants_iff (x ∷ y ∷ want) (h ∷ []) = ground (arith, text_eq_iff h (codes "*"), text_eq_iff x h)
grants_iff (x ∷ want) (h ∷ g ∷ have) =
    ground (arith, text_eq_iff h (codes "*"), text_eq_iff x h, grants_iff want (g ∷ have))

-- A caller is granted a permission exactly when one of the caller's permissions, split at its colons,
-- covers the required one, split at its colons.
pub granted_iff :
    (permissions : List Text) (required : Text)
    → (granted permissions required ≡ true)
      ↔ ((p : Text) × Memb p permissions × Covers (split_on b':' p) (split_on b':' required))
unfolding granted
granted_iff permissions required =
    let want : List Text = split_on b':' required in
    (
      λ h.
          let (p, m, e) = any_witness (λ p. grants want (split_on b':' p)) permissions h in
          (p, m, (grants_iff want (split_on b':' p)).0 e),
      λ (p, m, c).
          any-Memb (λ p. grants want (split_on b':' p)) p permissions m
            ((grants_iff want (split_on b':' p)).1 c),
    )
