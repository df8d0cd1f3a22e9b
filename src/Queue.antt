-- ===== src/Queue.antt =====
-- The pickup that `claim_batch_for_drain` of mail_queue_repository.rs and of sms_queue_repository.rs
-- make in one statement: take at most `batch` eligible rows in the order of their ids, skip those
-- that another transaction holds, mark them, and return them as marked.
pub mod Laws
use backbone_mail.Prelude.{ℕ, zero, suc, Bool, List, [], ◌∷◌, if◌then◌else◌}

module _ {Row : Type 0} (eligible : Row → Bool) (mark : Row → Row) where
  -- the table afterwards, and the rows returned
  unfoldable pub claim : ℕ → List Row → List Row × List Row
  claim zero rows = (rows, [])
  claim (suc n) [] = ([], [])
  claim (suc n) (r ∷ rows) =
      let taken = claim n rows in
      let passed = claim (suc n) rows in
      if eligible r then (mark r ∷ taken.0, mark r ∷ taken.1) else (r ∷ passed.0, passed.1)

-- `UPDATE … WHERE` by a test, and whether a row matched.
module _ {Row : Type 0} (matches : Row → Bool) (write : Row → Row) where
  unfoldable pub update_rows : List Row → List Row
  update_rows [] = []
  update_rows (r ∷ rows) = (if matches r then write r else r) ∷ update_rows rows
