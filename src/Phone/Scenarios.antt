-- ===== src/Phone/Scenarios.antt =====
-- A crate that reads numbers as they are written, and the theorems at it.
use backbone_mail.Prelude.{◌≡◌, refl, true, List, [], ◌∷◌, none, some, ok}
use backbone_mail.Prelude.Text.{Text, codes, trim, trim_end, trim_start, is_whitespace, byte_len}
use backbone_mail.Phone.{
  E164Number, PhoneCrate, PhoneCandidate, is_canonical_e164, accept, country_for, parse_in,
  format_in, format_trimmed, phone_format, format_candidate, sanitize_candidates,
}
use backbone_mail.Phone.Canonical.{IsE164, phone_format-IsE164}
use backbone_mail.Phone.Walk.{Walked, first_valid_wins}

abbrev verbatim : PhoneCrate
verbatim = record {
  Country = Text;
  Number = Text;
  country_of = λ name. some name;
  parse = λ country raw. ok raw;
  code_text = λ n. [];
  national_text = λ n. n;
  is_valid = λ n. true;
  format = λ n. n;
  debug = λ t. t;
}

abbrev number : E164Number
number = record { text = codes "+6281234567" }

formats : phone_format verbatim (codes " +6281234567") none ≡ ok number
unfolding phone_format format_trimmed format_in parse_in country_for accept is_canonical_e164
    byte_len trim trim_end trim_start is_whitespace
formats = refl

phone_format-IsE164_example : IsE164 (codes "+6281234567")
phone_format-IsE164_example =
    phone_format-IsE164 verbatim (codes " +6281234567") none number formats

abbrev candidates : List PhoneCandidate
candidates =
    record { raw = codes "0812"; country_hint = none }
    ∷ record { raw = codes "+6281234567"; country_hint = none }
    ∷ []

first_valid_wins_example :
    Walked (format_candidate verbatim) 0 [] candidates (sanitize_candidates verbatim candidates)
first_valid_wins_example = first_valid_wins verbatim candidates
