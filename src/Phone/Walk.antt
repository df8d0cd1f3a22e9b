-- ===== src/Phone/Walk.antt =====
-- The walk over a record's candidates: the first that is valid wins.
use mathlib.Core.List.{append_assoc, append-nil}
use backbone_mail.Prelude.{
  ℕ, ◌+◌, ◌≡◌, refl, sym, ap, ◌∙◌, ◌⊎◌, inl, inr, List, [], ◌∷◌, ◌++◌, Result, ok, err,
}
use backbone_mail.Phone.{
  PhoneCrate, PhoneCandidate, or_try, format_candidate, walk_from, sanitize_candidates,
}

module _ {C E N : Type 0} (format : C → Result E N) where
  -- A trail that has the error of each candidate, in order, at its index.
  abbrev pub Explains : ℕ → List C → List (ℕ × E) → Type 0
  Explains index [] [] = Unit
  Explains index [] (_ ∷ _) = ⊥
  Explains index (c ∷ cs) [] = ⊥
  Explains index (c ∷ cs) ((i, e) ∷ trail) =
      (i ≡ index) × (format c ≡ err e) × Explains (index + 1) cs trail

  -- The result is the first candidate's that formats, after some that do not, or the trail of all.
  abbrev pub Walked : ℕ → List (ℕ × E) → List C → Result (List (ℕ × E)) N → Type 0
  Walked index before cs result =
      ((refused : List C) × (c : C) × (rest : List C) × (trail : List (ℕ × E)) × (n : N) × (cs
          ≡ refused ++ c ∷ rest)
        × Explains index refused trail
        × (format c ≡ ok n)
        × (result ≡ ok n))
      ⊎ ((trail : List (ℕ × E)) × Explains index cs trail × (result ≡ err (before ++ trail)))

  walk_on :
      (index : ℕ) (before : List (ℕ × E)) (c : C) (cs : List C) (e : E)
      (result : Result (List (ℕ × E)) N)
      → format c ≡ err e
      → Walked (index + 1) (before ++ (index, e) ∷ []) cs result
      → Walked index before (c ∷ cs) result
  walk_on index before c cs e result h (inl (refused, d, rest, trail, n, split, why, wins, done)) =
      inl (
        c ∷ refused,
        d,
        rest,
        (index, e) ∷ trail,
        n,
        ap (λ l. c ∷ l) split,
        (refl, h, why),
        wins,
        done,
      )
  walk_on index before c cs e result h (inr (trail, why, done)) = inr (
    (index, e) ∷ trail,
    (refl, h, why),
    done ∙ ap err (append_assoc before ((index, e) ∷ []) trail),
  )

  walk_one :
      (index : ℕ) (before : List (ℕ × E)) (c : C) (cs : List C) (r : Result E N)
      → format c ≡ r
      → ((e : E)
          → Walked
              (index + 1)
              (before ++ (index, e) ∷ [])
              cs
              (walk_from format (index + 1) (before ++ (index, e) ∷ []) cs))
      → Walked index before
          (c ∷ cs)
          (or_try r (λ e. walk_from format (index + 1) (before ++ (index, e) ∷ []) cs))
  walk_one index before c cs (ok n) h later = inl ([], c, cs, [], n, refl, tt, h, refl)
  walk_one index before c cs (err e) h later = walk_on index before c cs e _ h (later e)

  walk_all :
      (cs : List C) (index : ℕ) (before : List (ℕ × E))
      → Walked index before cs (walk_from format index before cs)
  unfolding walk_from
  walk_all [] index before = inr ([], tt, ap err (sym (append-nil before)))
  walk_all (c ∷ cs) index before =
      walk_one index before c cs (format c) refl
        (λ e. walk_all cs (index + 1) (before ++ (index, e) ∷ []))

-- The sanitizer of a record's candidates returns the number of the first that formats, every one
-- before it having been refused, or else the refusal of every candidate, in order, with its index.
pub first_valid_wins :
    (crate : PhoneCrate) (cs : List PhoneCandidate)
    → Walked (format_candidate crate) 0 [] cs (sanitize_candidates crate cs)
unfolding sanitize_candidates
first_valid_wins crate cs = walk_all (format_candidate crate) cs 0 []
