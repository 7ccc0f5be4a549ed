-- ===== src/Db/Audit.antt =====
-- The audit table of admin-web/src/db.js: `audit` appends an entry and drops those that are too old.
use mqtt_trust_gateway.Base.{
  ℕ, ◌+◌, ◌-◌, ◌*◌, String, not, List, [], ◌∷◌, ◌++◌, max, ltb, filter, take_text,
}

pub record Entry : Type 0 where
  pub id : ℕ
  pub at : ℕ
  pub actor : String
  pub action : String
  pub detail : String

-- `SELECT COALESCE(MAX(id), 0)`
unfoldable pub max_id : List Entry → ℕ
max_id [] = 0
max_id (e ∷ es) = max e.id (max_id es)

-- The table assigns one more than the greatest id.
unfoldable pub audit : (now audit_days : ℕ) (actor action detail : String) → List Entry → List Entry
unfolding max_id
audit now audit_days actor action detail es =
    let entry : Entry = record {
      id = max_id es + 1;
      at = now;
      actor = actor;
      action = action;
      detail = take_text 1000 detail;
    } in
    filter (λ (e : Entry). not (ltb e.at (now - audit_days * 86400000))) (es ++ entry ∷ [])
