-- ===== src/Entity/FetchmailState.antt =====
-- src/domain/entity/fetchmail_state.rs
use backbone_mail.Prelude.{ℕ, if◌then◌else◌, Result, ok, err, ◌++◌}
use backbone_mail.Prelude.Text.{Text, codes, text_eq, to_lowercase}

pub data FetchmailState : Type 0 where
  draft done : FetchmailState

unfoldable pub display : FetchmailState → Text
display FetchmailState.draft = codes "draft"
display FetchmailState.done = codes "done"

unfoldable pub from_str : (ℕ → Text) → Text → Result Text FetchmailState
from_str unicode s =
    let folded = to_lowercase unicode s in
    if text_eq folded (codes "draft")
    then ok FetchmailState.draft
    else if text_eq folded (codes "done")
    then ok FetchmailState.done
    else err (codes "Unknown FetchmailState variant: " ++ s)

unfoldable pub default_value : FetchmailState
default_value = FetchmailState.draft
