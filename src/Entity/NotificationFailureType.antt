-- ===== src/Entity/NotificationFailureType.antt =====
-- src/domain/entity/notification_failure_type.rs
use backbone_mail.Prelude.{ℕ, if◌then◌else◌, Result, ok, err, ◌++◌}
use backbone_mail.Prelude.Text.{Text, codes, text_eq, to_lowercase}

pub data NotificationFailureType : Type 0 where
  mail_smtp mail_email_invalid mail_bounce mail_blacklist mail_recipient mail_server unknown
        sms_number_missing sms_number_format sms_country_not_supported sms_registration_needed
        sms_credit sms_server sms_acc sms_blacklist sms_duplicate sms_optout sms_expired
        sms_invalid_destination sms_not_allowed sms_not_delivered sms_rejected :
      NotificationFailureType

unfoldable pub display : NotificationFailureType → Text
display NotificationFailureType.mail_smtp = codes "mail_smtp"
display NotificationFailureType.mail_email_invalid = codes "mail_email_invalid"
display NotificationFailureType.mail_bounce = codes "mail_bounce"
display NotificationFailureType.mail_blacklist = codes "mail_blacklist"
display NotificationFailureType.mail_recipient = codes "mail_recipient"
display NotificationFailureType.mail_server = codes "mail_server"
display NotificationFailureType.unknown = codes "unknown"
display NotificationFailureType.sms_number_missing = codes "sms_number_missing"
display NotificationFailureType.sms_number_format = codes "sms_number_format"
display NotificationFailureType.sms_country_not_supported = codes "sms_country_not_supported"
display NotificationFailureType.sms_registration_needed = codes "sms_registration_needed"
display NotificationFailureType.sms_credit = codes "sms_credit"
display NotificationFailureType.sms_server = codes "sms_server"
display NotificationFailureType.sms_acc = codes "sms_acc"
display NotificationFailureType.sms_blacklist = codes "sms_blacklist"
display NotificationFailureType.sms_duplicate = codes "sms_duplicate"
display NotificationFailureType.sms_optout = codes "sms_optout"
display NotificationFailureType.sms_expired = codes "sms_expired"
display NotificationFailureType.sms_invalid_destination = codes "sms_invalid_destination"
display NotificationFailureType.sms_not_allowed = codes "sms_not_allowed"
display NotificationFailureType.sms_not_delivered = codes "sms_not_delivered"
display NotificationFailureType.sms_rejected = codes "sms_rejected"

unfoldable pub from_str : (ℕ → Text) → Text → Result Text NotificationFailureType
from_str unicode s =
    let folded = to_lowercase unicode s in
    if text_eq folded (codes "mail_smtp")
    then ok NotificationFailureType.mail_smtp
    else if text_eq folded (codes "mail_email_invalid")
    then ok NotificationFailureType.mail_email_invalid
    else if text_eq folded (codes "mail_bounce")
    then ok NotificationFailureType.mail_bounce
    else if text_eq folded (codes "mail_blacklist")
    then ok NotificationFailureType.mail_blacklist
    else if text_eq folded (codes "mail_recipient")
    then ok NotificationFailureType.mail_recipient
    else if text_eq folded (codes "mail_server")
    then ok NotificationFailureType.mail_server
    else if text_eq folded (codes "unknown")
    then ok NotificationFailureType.unknown
    else if text_eq folded (codes "sms_number_missing")
    then ok NotificationFailureType.sms_number_missing
    else if text_eq folded (codes "sms_number_format")
    then ok NotificationFailureType.sms_number_format
    else if text_eq folded (codes "sms_country_not_supported")
    then ok NotificationFailureType.sms_country_not_supported
    else if text_eq folded (codes "sms_registration_needed")
    then ok NotificationFailureType.sms_registration_needed
    else if text_eq folded (codes "sms_credit")
    then ok NotificationFailureType.sms_credit
    else if text_eq folded (codes "sms_server")
    then ok NotificationFailureType.sms_server
    else if text_eq folded (codes "sms_acc")
    then ok NotificationFailureType.sms_acc
    else if text_eq folded (codes "sms_blacklist")
    then ok NotificationFailureType.sms_blacklist
    else if text_eq folded (codes "sms_duplicate")
    then ok NotificationFailureType.sms_duplicate
    else if text_eq folded (codes "sms_optout")
    then ok NotificationFailureType.sms_optout
    else if text_eq folded (codes "sms_expired")
    then ok NotificationFailureType.sms_expired
    else if text_eq folded (codes "sms_invalid_destination")
    then ok NotificationFailureType.sms_invalid_destination
    else if text_eq folded (codes "sms_not_allowed")
    then ok NotificationFailureType.sms_not_allowed
    else if text_eq folded (codes "sms_not_delivered")
    then ok NotificationFailureType.sms_not_delivered
    else if text_eq folded (codes "sms_rejected")
    then ok NotificationFailureType.sms_rejected
    else err (codes "Unknown NotificationFailureType variant: " ++ s)

unfoldable pub default_value : NotificationFailureType
default_value = NotificationFailureType.unknown
