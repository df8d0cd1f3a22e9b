-- ===== src/Entity/SmsFailureType.antt =====
-- src/domain/entity/sms_failure_type.rs
use backbone_mail.Prelude.{ℕ, if◌then◌else◌, Result, ok, err, ◌++◌}
use backbone_mail.Prelude.Text.{Text, codes, text_eq, to_lowercase}

pub data SmsFailureType : Type 0 where
  sms_number_missing sms_number_format sms_country_not_supported sms_registration_needed sms_credit
        sms_server sms_acc sms_blacklist sms_duplicate sms_optout unknown :
      SmsFailureType

unfoldable pub display : SmsFailureType → Text
display SmsFailureType.sms_number_missing = codes "sms_number_missing"
display SmsFailureType.sms_number_format = codes "sms_number_format"
display SmsFailureType.sms_country_not_supported = codes "sms_country_not_supported"
display SmsFailureType.sms_registration_needed = codes "sms_registration_needed"
display SmsFailureType.sms_credit = codes "sms_credit"
display SmsFailureType.sms_server = codes "sms_server"
display SmsFailureType.sms_acc = codes "sms_acc"
display SmsFailureType.sms_blacklist = codes "sms_blacklist"
display SmsFailureType.sms_duplicate = codes "sms_duplicate"
display SmsFailureType.sms_optout = codes "sms_optout"
display SmsFailureType.unknown = codes "unknown"

unfoldable pub from_str : (ℕ → Text) → Text → Result Text SmsFailureType
from_str unicode s =
    let folded = to_lowercase unicode s in
    if text_eq folded (codes "sms_number_missing")
    then ok SmsFailureType.sms_number_missing
    else if text_eq folded (codes "sms_number_format")
    then ok SmsFailureType.sms_number_format
    else if text_eq folded (codes "sms_country_not_supported")
    then ok SmsFailureType.sms_country_not_supported
    else if text_eq folded (codes "sms_registration_needed")
    then ok SmsFailureType.sms_registration_needed
    else if text_eq folded (codes "sms_credit")
    then ok SmsFailureType.sms_credit
    else if text_eq folded (codes "sms_server")
    then ok SmsFailureType.sms_server
    else if text_eq folded (codes "sms_acc")
    then ok SmsFailureType.sms_acc
    else if text_eq folded (codes "sms_blacklist")
    then ok SmsFailureType.sms_blacklist
    else if text_eq folded (codes "sms_duplicate")
    then ok SmsFailureType.sms_duplicate
    else if text_eq folded (codes "sms_optout")
    then ok SmsFailureType.sms_optout
    else if text_eq folded (codes "unknown")
    then ok SmsFailureType.unknown
    else err (codes "Unknown SmsFailureType variant: " ++ s)

unfoldable pub default_value : SmsFailureType
default_value = SmsFailureType.sms_credit
