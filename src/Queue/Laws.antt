-- ===== src/Queue/Laws.antt =====
-- Laws of the pickup of Queue and of its update, which both queues use.
use backbone_mail.Prelude.{
  ℕ, zero, suc, ◌+◌, ◌-◌, ◌≤◌, min, ◌≡◌, refl, sym, ◌⊎◌, inl, inr, Bool, true, false, List, [], ◌∷◌,
  map, Memb, length, arith, Bool-cases, count_if, ap,
}
use backbone_mail.Queue.{claim, update_rows}

module _ {Row : Type 0} (eligible : Row → Bool) (mark : Row → Row) where
  pub length-claim :
      (n : ℕ) (rows : List Row)
      → length (claim eligible mark n rows).1 ≡ min n (count_if eligible rows)
  unfolding claim count_if
  length-claim zero rows = ground arith
  length-claim (suc n) [] = omega arith
  length-claim (suc n) (r ∷ rows) = ground (arith, length-claim n rows, length-claim (suc n) rows)

  pub claim-map :
      {B : Type 0} (key : Row → B)
      → ((r : Row) → key (mark r) ≡ key r)
      → (n : ℕ) (rows : List Row) → map key (claim eligible mark n rows).0 ≡ map key rows
  unfolding claim
  claim-map key keeps zero rows = refl
  claim-map key keeps (suc n) [] = refl
  claim-map key keeps (suc n) (r ∷ rows) =
      ground (arith, keeps r, claim-map key keeps n rows, claim-map key keeps (suc n) rows)

  -- What marking makes ineligible is not counted any more.
  pub count_if-claim :
      ((r : Row) → eligible (mark r) ≡ false)
      → (n : ℕ) (rows : List Row)
      → count_if eligible (claim eligible mark n rows).0 ≡ count_if eligible rows - n
  unfolding claim count_if
  count_if-claim spent zero rows = omega arith
  count_if-claim spent (suc n) [] = omega arith
  count_if-claim spent (suc n) (r ∷ rows) =
      ground (arith, spent r, count_if-claim spent n rows, count_if-claim spent (suc n) rows)

  -- Each row returned is the mark of an eligible row of the table, and stands in the table after.
  pub claim-Memb :
      (n : ℕ) (rows : List Row) (c : Row)
      → Memb c (claim eligible mark n rows).1
      → ((r : Row) × Memb r rows × (eligible r ≡ true) × (c ≡ mark r))
        × Memb c (claim eligible mark n rows).0
  unfolding claim
  claim-Memb zero rows c m = absurd m
  claim-Memb (suc n) [] c m = absurd m
  claim-Memb (suc n) (r ∷ rows) c m = elim (Bool-cases (eligible r)) [
    | inl e ↦
        let m' : (mark r ≡ c) ⊎ Memb c (claim eligible mark n rows).1 = rw e at m in
        elim m' [
          | inl q ↦ ((r, inl refl, e, sym q), rw e (inl q))
          | inr k ↦
              let (origin, kept) = claim-Memb n rows c k in
              ((origin.0, inr origin.1, origin.2, origin.3), rw e (inr kept))
        ]
    | inr e ↦
        let m' : Memb c (claim eligible mark (suc n) rows).1 = rw e at m in
        let (origin, kept) = claim-Memb (suc n) rows c m' in
        ((origin.0, inr origin.1, origin.2, origin.3), rw e (inr kept))
  ]

  -- A row of the table afterwards is an old row, or one of those returned.
  pub claim-table :
      (n : ℕ) (rows : List Row) (x : Row)
      → Memb x (claim eligible mark n rows).0
      → Memb x rows ⊎ Memb x (claim eligible mark n rows).1
  unfolding claim
  claim-table zero rows x m = inl m
  claim-table (suc n) [] x m = inl m
  claim-table (suc n) (r ∷ rows) x m =
      ground (arith, claim-table n rows x, claim-table (suc n) rows x)

  -- Each pickup leaves fewer rows of a kind that every eligible row has and no marked row.
  pub count_if-claim_kind :
      (kind : Row → Bool)
      → ((r : Row) → eligible r ≡ true → kind r ≡ true)
      → ((r : Row) → kind (mark r) ≡ false)
      → (n : ℕ) (rows : List Row)
      → count_if kind (claim eligible mark n rows).0 + length (claim eligible mark n rows).1
        ≡ count_if kind rows
  unfolding claim count_if
  count_if-claim_kind kind has loses zero rows = omega arith
  count_if-claim_kind kind has loses (suc n) [] = omega arith
  count_if-claim_kind kind has loses (suc n) (r ∷ rows) = ground (
    arith,
    has r,
    loses r,
    count_if-claim_kind kind has loses n rows,
    count_if-claim_kind kind has loses (suc n) rows,
  )

  -- Rows of a kind that marking ends are, after a pickup, either left or among those returned.
  pub count_if-claim_split :
      (kind claimed : Row → Bool)
      → ((r : Row) → eligible r ≡ true → kind r ≡ claimed (mark r))
      → ((r : Row) → kind (mark r) ≡ false)
      → (n : ℕ) (rows : List Row)
      → count_if kind (claim eligible mark n rows).0
          + count_if claimed (claim eligible mark n rows).1
        ≡ count_if kind rows
  unfolding claim count_if
  count_if-claim_split kind claimed same loses zero rows = omega arith
  count_if-claim_split kind claimed same loses (suc n) [] = omega arith
  count_if-claim_split kind claimed same loses (suc n) (r ∷ rows) = ground (
    arith,
    same r,
    loses r,
    count_if-claim_split kind claimed same loses n rows,
    count_if-claim_split kind claimed same loses (suc n) rows,
  )

-- An update whose rows are not of a kind leaves no more of that kind.
pub count_if-update_rows :
    {Row : Type 0} (matches : Row → Bool) (write : Row → Row) (kind : Row → Bool)
    → ((r : Row) → kind (write r) ≡ false)
    → (rows : List Row) → count_if kind (update_rows matches write rows) ≤ count_if kind rows
unfolding count_if update_rows
count_if-update_rows matches write kind loses [] = omega arith
count_if-update_rows matches write kind loses (r ∷ rows) =
    ground (arith, loses r, count_if-update_rows matches write kind loses rows)

pub count_if-all : {A : Type 0} (xs : List A) → count_if (λ (_ : A). true) xs ≡ length xs
unfolding count_if
count_if-all [] = refl
count_if-all (x ∷ xs) = ap suc (count_if-all xs)
