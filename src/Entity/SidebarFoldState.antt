-- ===== src/Entity/SidebarFoldState.antt =====
-- src/domain/entity/sidebar_fold_state.rs
use backbone_mail.Prelude.{ℕ, if◌then◌else◌, Result, ok, err, ◌++◌}
use backbone_mail.Prelude.Text.{Text, codes, text_eq, to_lowercase}

pub data SidebarFoldState : Type 0 where
  open_fold closed : SidebarFoldState

unfoldable pub display : SidebarFoldState → Text
display SidebarFoldState.open_fold = codes "open"
display SidebarFoldState.closed = codes "closed"

unfoldable pub from_str : (ℕ → Text) → Text → Result Text SidebarFoldState
from_str unicode s =
    let folded = to_lowercase unicode s in
    if text_eq folded (codes "open")
    then ok SidebarFoldState.open_fold
    else if text_eq folded (codes "closed")
    then ok SidebarFoldState.closed
    else err (codes "Unknown SidebarFoldState variant: " ++ s)

unfoldable pub default_value : SidebarFoldState
default_value = SidebarFoldState.open_fold
