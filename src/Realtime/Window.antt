-- ===== src/Realtime/Window.antt =====
-- The ring of src/realtime/registry.rs as the window on everything that was published.
use backbone_mail.Prelude.{
  ℕ, zero, suc, ◌+◌, ◌-◌, ◌≤◌, ◌<◌, ◌≡◌, refl, ◌≢◌, List, [], ◌∷◌, ◌++◌, none, some, arith, length,
  drop, All, length-append, leb, sym, ap, ◌∙◌, Bool-cases, inl, inr,
}
use backbone_mail.Store.Channel.{Uuid}
use backbone_mail.Realtime.Registry.{
  TailedEvent, RealtimeRegistry, ring_capacity, new_registry, pop_excess, publish, position,
  replay_after,
}
use mathlib.Core.List.{append_assoc, append-nil}
use native.Mathlib.Decide.{dec_le}

-- The last `n` of a list.
abbrev pub last {ℓ} : {A : Type ℓ} → ℕ → List A → List A
last n xs = drop (length xs - n) xs

module _ {ℓ} {A : Type ℓ} where
  drop-append : (n : ℕ) (xs ys : List A) → n ≤ length xs → drop n (xs ++ ys) ≡ drop n xs ++ ys
  drop-append zero xs ys h = refl
  drop-append (suc n) [] ys h = absurd (omega (arith, h))
  drop-append (suc n) (x ∷ xs) ys h = drop-append n xs ys (omega (arith, h))

  drop-all : (n : ℕ) (xs : List A) → length xs ≤ n → drop n xs ≡ []
  drop-all zero [] h = refl
  drop-all (suc n) [] h = refl
  drop-all zero (x ∷ xs) h = absurd (omega (arith, h))
  drop-all (suc n) (x ∷ xs) h = drop-all n xs (omega (arith, h))

  last_short : (n : ℕ) (xs : List A) → length xs ≤ n → last n xs ≡ xs
  last_short n xs h = let e : length xs - n ≡ 0 = omega (arith, h) in ap (λ k. drop k xs) e

  last_cons : (n : ℕ) (x : A) (xs : List A) → n ≤ length xs → last n (x ∷ xs) ≡ last n xs
  last_cons n x xs h =
      let e : suc (length xs) - n ≡ suc (length xs - n) = omega (arith, h) in
      ap (λ k. drop k (x ∷ xs)) e

  pop_excess-last : (n : ℕ) (xs : List A) → pop_excess n xs ≡ last n xs
  unfolding pop_excess
  pop_excess-last n [] = sym (last_short n [] (omega arith))
  pop_excess-last n (x ∷ xs) = elim (Bool-cases (leb (suc (length xs)) n)) [
    | inl fits ↦ rw fits (sym (last_short n (x ∷ xs) (ground (arith, fits))))
    | inr over ↦ rw over (pop_excess-last n xs ∙ sym (last_cons n x xs (ground (arith, over))))
  ]

  -- Keeping the last of a list before an element is added loses nothing that is kept after.
  last_again : (n : ℕ) (xs ys : List A) → last n (last n xs ++ ys) ≡ last n (xs ++ ys)
  last_again n [] ys = ap (λ zs. last n (zs ++ ys)) (last_short n [] (omega arith))
  last_again n (x ∷ xs) ys = elim (dec_le (length xs + 1) n) [
    | yes fits ↦ ap (λ zs. last n (zs ++ ys)) (last_short n (x ∷ xs) (omega (arith, fits)))
    | no over ↦
        ap (λ zs. last n (zs ++ ys)) (last_cons n x xs (omega (arith, over)))
        ∙ (last_again n xs ys
            ∙ sym (last_cons n x (xs ++ ys) (omega (arith, over, length-append xs ys))))
  ]

  All-drop : (P : A → Type 0) (n : ℕ) (xs : List A) → All P xs → All P (drop n xs)
  All-drop P zero xs h = h
  All-drop P (suc n) [] h = h
  All-drop P (suc n) (x ∷ xs) (_, h) = All-drop P n xs h

  drop_past : (xs : List A) (x : A) (ys : List A) → drop (suc (length xs)) (xs ++ x ∷ ys) ≡ ys
  drop_past [] x ys = refl
  drop_past (y ∷ xs) x ys = drop_past xs x ys

unfoldable pub publish_all : RealtimeRegistry → List TailedEvent → RealtimeRegistry
unfolding publish
publish_all r [] = r
publish_all r (e ∷ es) = publish_all (publish r e) es

pub ring_after :
    (r : RealtimeRegistry) (before es : List TailedEvent)
    → r.ring ≡ last ring_capacity before
    → (publish_all r es).ring ≡ last ring_capacity (before ++ es)
unfolding publish_all publish
ring_after r before [] h = rw (append-nil before) h
ring_after r before (e ∷ es) h =
    let pushed : (publish r e).ring ≡ last ring_capacity (before ++ e ∷ []) = rw h (
      pop_excess-last ring_capacity (last ring_capacity before ++ e ∷ [])
      ∙ last_again ring_capacity before (e ∷ [])) in
    ring_after (publish r e) (before ++ e ∷ []) es pushed
    ∙ ap (last ring_capacity) (append_assoc before (e ∷ []) es)

ring_is_window :
    (es : List TailedEvent) → (publish_all new_registry es).ring ≡ last ring_capacity es
unfolding new_registry
ring_is_window es = ring_after new_registry [] es refl

abbrev pub Avoids : Uuid → List TailedEvent → Type 0
Avoids id es = All (λ (e : TailedEvent). e.id ≢ id) es

position-append :
    (id : Uuid) (before after : List TailedEvent) (e : TailedEvent)
    → Avoids id before
    → e.id ≡ id
    → position id (before ++ e ∷ after) ≡ some (length before)
unfolding position
position-append id [] after e h same = ground (arith, same)
position-append id (x ∷ before) after e (differs, h) same =
    rw (position-append id before after e h same) (ground (arith, differs))

position-none : (id : Uuid) (es : List TailedEvent) → Avoids id es → position id es ≡ none
unfolding position
position-none id [] h = refl
position-none id (x ∷ es) (differs, h) = rw (position-none id es h) (ground (arith, differs))

replay_found :
    (r : RealtimeRegistry) (before after : List TailedEvent) (e : TailedEvent)
    → r.ring ≡ before ++ e ∷ after
    → Avoids e.id before
    → replay_after r (some e.id) ≡ after
unfolding replay_after
replay_found r before after e h avoids =
    let next : length before + 1 ≡ suc (length before) = omega arith in
    rw h (
      rw (position-append e.id before after e avoids refl)
        (ap (λ k. drop k (before ++ e ∷ after)) next ∙ drop_past before e after))

-- After any events were published, a client that names the last event it saw gets exactly the
-- events after it, in order, as long as fewer than 4096 came after it and its identifier did not
-- come before; a client that names no event gets the last 4096, and so does one that names an event
-- that is not among them.
pub replay_resumes :
    (before after : List TailedEvent) (e : TailedEvent)
    → (Avoids e.id before
        → length after < ring_capacity
        → replay_after (publish_all new_registry (before ++ e ∷ after)) (some e.id) ≡ after)
      × ((es : List TailedEvent)
          → (replay_after (publish_all new_registry es) none ≡ last ring_capacity es)
            × ((id : Uuid)
                → Avoids id (last ring_capacity es)
                → replay_after (publish_all new_registry es) (some id) ≡ last ring_capacity es))
unfolding replay_after
replay_resumes before after e = (
  λ avoids recent.
      let k : ℕ = length (before ++ e ∷ after) - ring_capacity in
      let short : k ≤ length before = omega (arith, recent, length-append before (e ∷ after)) in
      replay_found (publish_all new_registry (before ++ e ∷ after)) (drop k before) after e
        (ring_is_window (before ++ e ∷ after) ∙ drop-append k before (e ∷ after) short)
        (All-drop (λ x. x.id ≢ e.id) k before avoids),
  λ es. (
    ring_is_window es,
    λ id avoids. rw (ring_is_window es) (rw (position-none id (last ring_capacity es) avoids) refl),
  ),
)
