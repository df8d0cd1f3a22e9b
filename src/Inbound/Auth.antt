-- ===== src/Inbound/Auth.antt =====
-- Step 1 of src/application/service/mail_inbound_service.rs, the token, and the race that its step 2d
-- can lose.
use backbone_mail.Prelude.{
  ℕ, ◌≡◌, refl, ◌⊎◌, inl, inr, Bool, true, false, List, [], ◌∷◌, ◌++◌, ◌||◌, Option, none, some,
  any, arith, is_empty, ok, err, map_err, refuse_if, ok_parts, check-came_through,
  step-came_through,
}
use backbone_mail.Prelude.Text.{Text, codes, to_ascii_lowercase, is_blank}
use backbone_mail.Store.{MessageRow}
use backbone_mail.Store.Channel.{Uuid}
use backbone_mail.Status.{aborted_transaction}
use backbone_mail.Inbound.{
  auth, invalid, db_error, InboundOutcome, routed, store_message, after_probe, probe, process_in_tx,
  find_server, authenticate, process_inbound,
}
use backbone_mail.Inbound.Routing.{
  InboundMessage, InboundServerRow, Gateway, has_id, sender_allowed, route,
}
use backbone_mail.Inbound.Bytes.{
  const_eq, IsAscii, IsUnicode, const_eq-same, to_ascii_lowercase-IsUnicode,
}

-- What lets a delivery in.
abbrev pub IsAuthentic : (Text → Text) → Text → Option InboundServerRow → Type 0
IsAuthentic sha token none = ⊥
IsAuthentic sha token (some s) =
    (s.active ≡ true) × (const_eq (sha token) (to_ascii_lowercase s.token_hash) ≡ true)

authenticated :
    (sha : Text → Text) (token : Text) (found : Option InboundServerRow)
    → IsAuthentic sha token found ⊎ (authenticate sha token found ≡ err auth)
unfolding authenticate
authenticated sha token none = inr refl
authenticated sha token (some s) = ground arith

not_authenticated :
    (sha : Text → Text) (token : Text) (found : Option InboundServerRow)
    → (IsAuthentic sha token found → ⊥)
    → authenticate sha token found ≡ err auth
not_authenticated sha token found refused = elim (authenticated sha token found) [
  | inl let_in ↦ absurd (refused let_in)
  | inr e ↦ e
]

-- The comparison that lets a delivery in is an equality of the hashes.
same_hash :
    (sha : Text → Text) (token : Text) (found : Option InboundServerRow)
    → IsAscii (sha token)
    → ((s : InboundServerRow) → found ≡ some s → IsUnicode s.token_hash)
    → IsAuthentic sha token found
    → (s : InboundServerRow) × (found ≡ some s)
      × (s.active ≡ true)
      × (sha token ≡ to_ascii_lowercase s.token_hash)
same_hash sha token none ascii unicode passed = absurd passed
same_hash sha token (some s) ascii unicode (active, equal) =
    let stored = to_ascii_lowercase-IsUnicode s.token_hash (unicode s refl) in
    (
      s,
      refl,
      active,
      const_eq-same (sha token) (to_ascii_lowercase s.token_hash) ascii stored equal,
    )

module _ (sha lower : Text → Text) (id : Uuid) (at : ℕ) (others : List MessageRow) (server : Uuid)
    (token : Text) (msg : InboundMessage) (g : Gateway) where
  let_in :
      (g' : Gateway) (outcome : InboundOutcome)
      → process_inbound sha lower id at others server token msg g ≡ ok (g', outcome)
      → IsAuthentic sha token (find_server server g.servers)
  unfolding process_inbound
  let_in g' outcome h = elim (authenticated sha token (find_server server g.servers)) [
    | inl passed ↦ passed
    | inr e ↦
        let (rest, _) =
          check-came_through _
            (refuse_if (is_blank msg.from || is_empty msg.to)
              (invalid (codes "from and to are required")))
            h in
        let (_, _, found) =
          step-came_through
            (λ (x : Option Text).
              map_err (process_in_tx lower id at others server x msg g) db_error)
            (authenticate sha token (find_server server g.servers)) rest in
        absurd (cc (e, found))
  ]

  -- A delivery that gets any answer but an error was let in: its server is known and active, and the
  -- hash of its token is the server's, in lower case. A hash is ASCII, and a stored one is Unicode.
  pub inbound-IsAuthentic :
      IsAscii (sha token)
      → ((s : InboundServerRow) → find_server server g.servers ≡ some s → IsUnicode s.token_hash)
      → (g' : Gateway) (outcome : InboundOutcome)
      → process_inbound sha lower id at others server token msg g ≡ ok (g', outcome)
      → (s : InboundServerRow) × (find_server server g.servers ≡ some s)
        × (s.active ≡ true)
        × (sha token ≡ to_ascii_lowercase s.token_hash)
  inbound-IsAuthentic ascii unicode g' outcome h =
      same_hash sha token (find_server server g.servers) ascii unicode (let_in g' outcome h)

  -- A complete delivery that is not let in is answered the same error whether its server is unknown,
  -- inactive, or has another token.
  pub refusals_alike :
      (is_blank msg.from || is_empty msg.to) ≡ false
      → (IsAuthentic sha token (find_server server g.servers) → ⊥)
      → process_inbound sha lower id at others server token msg g ≡ err auth
  unfolding process_inbound
  refusals_alike complete refused =
      rw (complete, not_authenticated sha token (find_server server g.servers) refused) refl

any-append :
    {A : Type 0} (p : A → Bool) (xs ys : List A) → any p ys ≡ true → any p (xs ++ ys) ≡ true
any-append p [] ys h = h
any-append p (x ∷ xs) ys h = ground (arith, any-append p xs ys)

module _ (lower : Text → Text) (id : Uuid) (at : ℕ) (others : List MessageRow) (server : Uuid)
    (msg : InboundMessage) (mid : Text) (has : msg.message_id ≡ some mid)
    (raced : any (has_id mid) others ≡ true) where
  after_probe-raced :
      (found : Option Uuid) (allowed : Bool) (thread : Option Text × Option Uuid) (g g' : Gateway)
      (row : Uuid) (model : Option Text) (res_id : Option Uuid)
      → after_probe found allowed id at [] server msg g thread ≡ ok (g', routed row model res_id)
      → after_probe found allowed id at others server msg g thread ≡ err aborted_transaction
  unfolding store_message
  after_probe-raced (some existing) allowed thread g g' row model res_id h =
      absurd (cc ((ok_parts h).1))
  after_probe-raced none false thread g g' row model res_id h = absurd (cc ((ok_parts h).1))
  after_probe-raced none true (none, r) g g' row model res_id h = absurd (cc ((ok_parts h).1))
  after_probe-raced none true (some m, r) g g' row model res_id h =
      rw (has, any-append (has_id mid) g.db.messages others raced) refl

  -- A delivery that would be stored, but whose RFC id another transaction commits between its probe
  -- and its insert, fails with a database error.
  pub race_fails :
      (default : Option Text) (g g' : Gateway) (row : Uuid) (model : Option Text)
      (res_id : Option Uuid)
      → process_in_tx lower id at [] server default msg g ≡ ok (g', routed row model res_id)
      → process_in_tx lower id at others server default msg g ≡ err aborted_transaction
  unfolding process_in_tx
  race_fails default g g' row model res_id h =
      after_probe-raced (probe msg.message_id g.db.messages)
        (sender_allowed lower server msg.from g.allowed) (route lower default msg g) g g' row model
        res_id h
