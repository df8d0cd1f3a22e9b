-- ===== src/Phone.antt =====
-- src/application/service/phone_validation_service.rs with phone_ports.rs: the sanitizer of phone
-- numbers, the walk over a record's candidates, and the check against the phone blacklist. The
-- crate `phonenumber` is a parameter, and so is the `{:?}` printer of a text.
pub mod Canonical
pub mod Walk
mod Scenarios
use backbone_mail.Prelude.{
  ℕ, suc, ◌+◌, Bool, true, false, List, [], ◌∷◌, ◌++◌, map, Option, none, some, ◌&&◌, not, ◌==◌,
  ltb, leb, all, length, is_empty, if◌then◌else◌, unwrap_or, Result, ok, err, ◌>>=◌, ◌>>◌,
  refuse_if, ok_or, map_err,
}
use backbone_mail.Prelude.Text.{
  Text, codes, trim, byte_len, is_ascii_digit, is_ascii_alphabetic, to_ascii_uppercase,
}
use backbone_mail.Store.Channel.{Uuid}
use backbone_mail.Blacklist.{Table, exists_active, listed_among}

-- A number that `phone_format` made, or that was read back from a column it wrote.
pub record E164Number : Type 0 where
  pub text : Text

abbrev in_country : Text → Bool
in_country [] = false
in_country (c ∷ rest) =
    if is_ascii_digit c && not (c == b'0')
    then leb 6 (length rest) && (leb (length rest) 14 && all is_ascii_digit rest)
    else false

unfoldable pub is_canonical_e164 : Text → Bool
is_canonical_e164 [] = false
is_canonical_e164 (c ∷ s) = if c == b'+' then in_country s else false

pub data PhoneFormatError : Type 0 where
  empty : Text → PhoneFormatError
  not_a_number : Text → Text → PhoneFormatError
  invalid_country_hint : Text → Text → PhoneFormatError
  missing_country_hint : Text → PhoneFormatError
  too_long : Text → PhoneFormatError
  too_short : Text → PhoneFormatError
  invalid_for_country : Text → Text → PhoneFormatError

-- `phonenumber::ParseError`; `other` is one that the service only prints.
pub data ParseError : Type 0 where
  too_long_number too_short_nsn too_short_after_idd invalid_country_code : ParseError
  other : Text → ParseError

pub record PhoneCrate : Type 1 where
  pub Country : Type 0
  pub Number : Type 0
  pub country_of : Text → Option Country
  pub parse : Option Country → Text → Result ParseError Number
  pub code_text : Number → Text
  pub national_text : Number → Text
  pub is_valid : Number → Bool
  pub format : Number → Text
  pub debug : Text → Text

unfoldable pub normalize_hint : Text → Option Text
unfolding trim to_ascii_uppercase byte_len
normalize_hint hint =
    let up = to_ascii_uppercase (trim hint) in
    if byte_len up == 2 && all is_ascii_alphabetic up then some up else none

abbrev hinted_error : Text → Option Text → PhoneFormatError
hinted_error raw (some country) = PhoneFormatError.invalid_for_country raw country
hinted_error raw none = PhoneFormatError.not_a_number raw (codes "invalid country code")

unfoldable pub map_parse_error : Text → Option Text → ParseError → PhoneFormatError
map_parse_error raw hint too_long_number = PhoneFormatError.too_long raw
map_parse_error raw hint too_short_nsn = PhoneFormatError.too_short raw
map_parse_error raw hint too_short_after_idd = PhoneFormatError.too_short raw
map_parse_error raw hint invalid_country_code = hinted_error raw hint
map_parse_error raw hint (other shown) = PhoneFormatError.not_a_number raw shown

abbrev starts_with_plus : Text → Bool
starts_with_plus [] = false
starts_with_plus (c ∷ s) = c == b'+'

abbrev opt_map : {A B : Type 0} → (A → B) → Option A → Option B
opt_map f none = none
opt_map f (some a) = some (f a)

-- A candidate of a record, and the book that answers a record's candidates.
pub record PhoneCandidate : Type 0 where
  pub raw : Text
  pub country_hint : Option Text

pub data PhoneSourceError : Type 0 where
  db : Text → PhoneSourceError
  not_composed : Text → PhoneSourceError

pub data PhoneValidationError : Type 0 where
  source : PhoneSourceError → PhoneValidationError
  walk : List (ℕ × PhoneFormatError) → PhoneValidationError

pub record SanitizedPhone : Type 0 where
  pub number : E164Number
  pub blacklisted : Bool

abbrev pub PhoneBook : Type 0
PhoneBook = Text → Uuid → Result PhoneSourceError (List PhoneCandidate)

-- The book until a host installs one; the text of its refusal is a parameter.
unfoldable pub refusing_phone_book : (Text → Uuid → Text) → PhoneBook
refusing_phone_book detail model res_id = err (PhoneSourceError.not_composed (detail model res_id))

-- The `match` in the loop of `sanitize_candidates`, and the loop with the trail so far, over the
-- formatter of one candidate.
abbrev pub or_try {ℓ} : {E F N : Type ℓ} → Result E N → (E → Result F N) → Result F N
or_try (ok n) f = ok n
or_try (err e) f = f e

unfoldable pub walk_from :
    {C E N : Type 0} → (C → Result E N) → ℕ → List (ℕ × E) → List C → Result (List (ℕ × E)) N
walk_from format index trail [] = err trail
walk_from format index trail (c ∷ cs) =
    or_try (format c) (λ e. walk_from format (index + 1) (trail ++ (index, e) ∷ []) cs)

module _ (crate : PhoneCrate) where
  abbrev Hint : Type 0
  Hint = Option (Text × crate.Country)

  abbrev hinted : Text → Option Text → Result PhoneFormatError Hint
  unfolding normalize_hint
  hinted raw none = err (PhoneFormatError.missing_country_hint raw)
  hinted raw (some hint) =
      ok_or (normalize_hint hint) (PhoneFormatError.invalid_country_hint raw hint) >>= λ normalized.
      ok_or (crate.country_of normalized) (PhoneFormatError.invalid_country_hint raw normalized)
      >>= λ id. ok (some (normalized, id))

  -- the checks on a parsed number
  unfoldable pub accept : Text → Option Text → crate.Number → Result PhoneFormatError E164Number
  unfolding is_canonical_e164 byte_len
  accept raw country parsed =
      let total = byte_len (crate.code_text parsed) + byte_len (crate.national_text parsed) in
      let canonical = crate.format parsed in
      refuse_if (ltb 15 total) (PhoneFormatError.too_long raw)
      >> (refuse_if (ltb total 7) (PhoneFormatError.too_short raw)
          >> (refuse_if (not (crate.is_valid parsed)) (
                PhoneFormatError.invalid_for_country raw
                  (unwrap_or country (codes "+" ++ crate.code_text parsed)))
              >> (refuse_if (not (is_canonical_e164 canonical)) (
                    PhoneFormatError.not_a_number raw
                      (codes "formatted to non-canonical " ++ crate.debug canonical))
                  >> ok (record { text = canonical }))))

  -- the country in play: none for a number in international form
  unfoldable pub country_for :
      Text → Option Text → Result PhoneFormatError (Option (Text × crate.Country))
  unfolding hinted
  country_for raw hint = if starts_with_plus raw then ok none else hinted raw hint

  -- from the country on
  abbrev pub country_name : Option (Text × crate.Country) → Option Text
  country_name country = opt_map (λ c. c.0) country

  unfoldable pub parse_in :
      Text → Option (Text × crate.Country) → Result PhoneFormatError crate.Number
  unfolding map_parse_error
  parse_in raw country =
      map_err (crate.parse (opt_map (λ c. c.1) country) raw)
        (map_parse_error raw (country_name country))

  unfoldable pub format_in :
      Text → Option (Text × crate.Country) → Result PhoneFormatError E164Number
  unfolding accept parse_in
  format_in raw country = parse_in raw country >>= accept raw (country_name country)

  unfoldable pub format_trimmed : Text → Option Text → Result PhoneFormatError E164Number
  unfolding format_in country_for
  format_trimmed raw hint =
      refuse_if (is_empty raw) (PhoneFormatError.empty raw)
      >> (country_for raw hint >>= format_in raw)

  unfoldable pub phone_format : Text → Option Text → Result PhoneFormatError E164Number
  unfolding format_trimmed trim
  phone_format raw hint = format_trimmed (trim raw) hint

  unfoldable pub format_candidate : PhoneCandidate → Result PhoneFormatError E164Number
  unfolding phone_format
  format_candidate c = phone_format c.raw c.country_hint

  unfoldable pub sanitize_candidates :
      List PhoneCandidate → Result (List (ℕ × PhoneFormatError)) E164Number
  unfolding walk_from format_candidate
  sanitize_candidates cs = walk_from format_candidate 0 [] cs

  unfoldable pub sanitized_for :
      PhoneBook → Table → Text → Uuid → Result PhoneValidationError SanitizedPhone
  unfolding sanitize_candidates exists_active
  sanitized_for book t model res_id =
      map_err (book model res_id) PhoneValidationError.source >>= λ candidates.
      map_err (sanitize_candidates candidates) PhoneValidationError.walk >>= λ number.
      ok (record { number = number; blacklisted = exists_active number.text t })
