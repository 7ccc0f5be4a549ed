-- ===== src/Broker/Staging.antt =====
-- What is written for the broker, what waits, and what an apply submits.
use mqtt_trust_gateway.Base.{
  String, ◌≡◌, refl, Bool, true, false, Option, none, some, List, [], ◌∷◌, ◌===◌, arith,
}
use mqtt_trust_gateway.Db.Audit.{max_id}
use mqtt_trust_gateway.Broker.{
  Gateway, Context, acl_text, policy, same_texts, same_policy, sync_broker, stage_broker,
  apply_broker_changes,
}

pub same_texts_eq : (ss ts : List String) → same_texts ss ts ≡ true → ss ≡ ts
same_texts_eq [] [] h = refl
same_texts_eq [] (t ∷ ts) h = cc
same_texts_eq (s ∷ ss) [] h = cc
same_texts_eq (s ∷ ss) (t ∷ ts) h = ground (arith, same_texts_eq ss ts)

same_policy_eq : (p : List String) (q : Option (List String)) → same_policy p q ≡ true → q ≡ some p
same_policy_eq p none h = cc
same_policy_eq p (some q) h = ground (arith, same_texts_eq p q)

-- The database and the audit table stay as they are.
pub sync_broker-db :
    (x : Context) (force defer : Bool) (r : String) (g : Gateway)
    → (sync_broker x force defer r g).db ≡ g.db
unfolding sync_broker
sync_broker-db x force defer r g = ground arith

pub stage_broker-db :
    (x : Context) (force : Bool) (r : String) (g : Gateway) → (stage_broker x force r g).db ≡ g.db
unfolding stage_broker
stage_broker-db x force r g = sync_broker-db x force true r g

pub stage_broker-crl :
    (x : Context) (force : Bool) (r : String) (g : Gateway) → (stage_broker x force r g).crl ≡ g.crl
unfolding stage_broker sync_broker
stage_broker-crl x force r g = ground arith

-- After a synchronisation, forced or not, deferred or not, the files of the broker hold the access
-- list and the serial numbers that the saved database stands for at that time.
pub sync_broker-files :
    (x : Context) (force defer : Bool) (r : String) (g : Gateway)
    → ((sync_broker x force defer r g).broker.acl ≡ acl_text x g.db)
      × ((sync_broker x force defer r g).broker.policy_state ≡ some (policy x.now g.db))
unfolding sync_broker
sync_broker-files x force defer r g =
    ground (arith, same_policy_eq (policy x.now g.db) g.broker.policy_state)

-- Staging never submits: the revision that the broker follows and its audit cursor stay as they are.
-- A forced staging leaves the new revision pending.
pub stage_broker-revision :
    (x : Context) (force : Bool) (r : String) (g : Gateway)
    → ((stage_broker x force r g).broker.revision ≡ g.broker.revision)
      × ((stage_broker x force r g).broker.audit_cursor ≡ g.broker.audit_cursor)
      × ((stage_broker x true r g).broker.pending_revision ≡ some r)
unfolding stage_broker sync_broker
stage_broker-revision x force r g = ground arith

-- Applying after a forced staging submits just the staged revision, with the audit position of that
-- time, and leaves nothing pending; a second apply then changes nothing. The files keep what was
-- staged.
pub apply-stage :
    (x : Context) (r : String) (g : Gateway)
    → (r === "") ≡ false
    → let applied = apply_broker_changes (stage_broker x true r g) in
      (applied.0 ≡ true)
      × (applied.1.broker.revision ≡ some r)
      × (applied.1.broker.audit_cursor ≡ some (r, max_id g.audit_log))
      × (applied.1.broker.pending_revision ≡ none)
      × (applied.1.broker.acl ≡ acl_text x g.db)
      × (apply_broker_changes applied.1 ≡ (false, applied.1))
unfolding stage_broker sync_broker apply_broker_changes
apply-stage x r g h = ground arith
