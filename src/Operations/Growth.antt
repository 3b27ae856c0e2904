-- ===== src/Operations/Growth.antt =====
-- What an evaluation adds to the tables, and how additions follow one another.
use phone_law.Prelude.{
  ◌+◌, String, ◌≡◌, refl, sym, ap, ◌∙◌, Bool, true, List, [], ◌∷◌, ◌++◌, arith, any, length,
  length-append, All, All-map, All-append, any-append_right, append_assoc, map,
}
use phone_law.Operations.Contracts.{
  RetentionResource, audit_metadata, generated_media, invented_transcript, accepted_analysis,
  daily_report, processing_attempt, manual_upload_receipt, reviewer_feedback, playbook_version,
}
use phone_law.Operations.Tables.{Database, JobRow, AuditRow}
use phone_law.Operations.Evaluation.{Tally, Dated, inventory, has_job, is_job_for}

-- New jobs, all with a property, as many as were counted; new audit rows; and nothing else but
-- readings of the clock and identifiers.
pub record Growth (P : JobRow → Type 0) (t t' : Tally) (db db' : Database) : Type 0 where
  pub new : List JobRow
  pub jobs : db'.retention_jobs ≡ new ++ db.retention_jobs
  pub good : All P new
  pub counted : length new + t.scheduled ≡ t'.scheduled
  pub logged : List AuditRow
  pub audits : db'.audit_events ≡ logged ++ db.audit_events
  pub rest : db' ≡ record db {
    retention_jobs = db'.retention_jobs;
    audit_events = db'.audit_events;
    issued = db'.issued;
    ticks = db'.ticks;
  }

pub nothing-Growth :
    (P : JobRow → Type 0) (t t' : Tally) (db : Database)
    → t.scheduled ≡ t'.scheduled
    → Growth P t t' db db
nothing-Growth P t t' db same = record {
  new = [];
  jobs = refl;
  good = tt;
  counted = omega (arith, same);
  logged = [];
  audits = refl;
  rest = refl;
}

pub Growth-Growth :
    (P : JobRow → Type 0) (t t' t'' : Tally) (db db' db'' : Database)
    → Growth P t t' db db'
    → Growth P t' t'' db' db''
    → Growth P t t'' db db''
Growth-Growth P t t' t'' db db' db'' g h = record {
  new = h.new ++ g.new;
  jobs =
      h.jobs ∙ (ap (λ js. h.new ++ js) g.jobs ∙ sym (append_assoc h.new g.new db.retention_jobs));
  good = All-append P h.new g.new h.good g.good;
  counted = omega (arith, length-append h.new g.new, g.counted, h.counted);
  logged = h.logged ++ g.logged;
  audits =
      h.audits
      ∙ (ap (λ xs. h.logged ++ xs) g.audits ∙ sym (append_assoc h.logged g.logged db.audit_events));
  rest =
      h.rest
      ∙ ap
          (λ (d : Database). record d {
            retention_jobs = db''.retention_jobs;
            audit_events = db''.audit_events;
            issued = db''.issued;
            ticks = db''.ticks;
          })
          g.rest;
}

pub map-Growth :
    (P Q : JobRow → Type 0) (t t' : Tally) (db db' : Database)
    → ((j : JobRow) → P j → Q j)
    → Growth P t t' db db'
    → Growth Q t t' db db'
map-Growth P Q t t' db db' f g = record {
  new = g.new;
  jobs = g.jobs;
  good = All-map P Q f g.new g.good;
  counted = g.counted;
  logged = g.logged;
  audits = g.audits;
  rest = g.rest;
}

-- A job stays, and so does what an inventory has.
pub has_job-Growth :
    (P : JobRow → Type 0) (t t' : Tally) (db db' : Database) (resource : RetentionResource)
    (id : String)
    → Growth P t t' db db'
    → has_job resource id db ≡ true
    → has_job resource id db' ≡ true
has_job-Growth P t t' db db' resource id g h =
    rw g.jobs (any-append_right (is_job_for resource id) g.new db.retention_jobs h)

any-dated_right :
    (p : Dated → Bool) (new rows : List AuditRow)
    → any p (map (λ r. record { id = r.id; created_at = r.created_at }) rows) ≡ true
    → any p (map (λ r. record { id = r.id; created_at = r.created_at }) (new ++ rows)) ≡ true
any-dated_right p [] rows h = h
any-dated_right p (x ∷ new) rows h = rw (any-dated_right p new rows h) (ground arith)

All-dated_right :
    (Q : Dated → Type 0) (new rows : List AuditRow)
    → All Q (map (λ r. record { id = r.id; created_at = r.created_at }) (new ++ rows))
    → All Q (map (λ r. record { id = r.id; created_at = r.created_at }) rows)
All-dated_right Q [] rows h = h
All-dated_right Q (x ∷ new) rows h = All-dated_right Q new rows h.1

-- An evaluation leaves every inventory as it is, but for the audit rows that it writes.
pub any-inventory-Growth :
    (P : JobRow → Type 0) (t t' : Tally) (db db' : Database) (p : Dated → Bool)
    (resource : RetentionResource)
    → Growth P t t' db db'
    → any p (inventory resource db) ≡ true
    → any p (inventory resource db') ≡ true
unfolding inventory
any-inventory-Growth P t t' db db' p generated_media g h = rw (ap (λ d. d.media_artifacts) g.rest) h
any-inventory-Growth P t t' db db' p invented_transcript g h = rw (ap (λ d. d.transcripts) g.rest) h
any-inventory-Growth P t t' db db' p accepted_analysis g h = rw (ap (λ d. d.analyses) g.rest) h
any-inventory-Growth P t t' db db' p daily_report g h = rw (ap (λ d. d.daily_reports) g.rest) h
any-inventory-Growth P t t' db db' p processing_attempt g h =
    rw (ap (λ d. d.processing_attempts) g.rest) h
any-inventory-Growth P t t' db db' p manual_upload_receipt g h =
    rw (ap (λ d. d.manual_upload_receipts) g.rest) h
any-inventory-Growth P t t' db db' p reviewer_feedback g h = rw (ap (λ d. d.review_events) g.rest) h
any-inventory-Growth P t t' db db' p playbook_version g h =
    rw (ap (λ d. d.playbook_versions) g.rest) h
any-inventory-Growth P t t' db db' p audit_metadata g h =
    rw g.audits (any-dated_right p g.logged db.audit_events h)

pub All-inventory-Growth :
    (P : JobRow → Type 0) (t t' : Tally) (db db' : Database) (Q : Dated → Type 0)
    (resource : RetentionResource)
    → Growth P t t' db db'
    → All Q (inventory resource db')
    → All Q (inventory resource db)
unfolding inventory
All-inventory-Growth P t t' db db' Q generated_media g h =
    rw (ap (λ d. d.media_artifacts) g.rest) at h
All-inventory-Growth P t t' db db' Q invented_transcript g h =
    rw (ap (λ d. d.transcripts) g.rest) at h
All-inventory-Growth P t t' db db' Q accepted_analysis g h = rw (ap (λ d. d.analyses) g.rest) at h
All-inventory-Growth P t t' db db' Q daily_report g h = rw (ap (λ d. d.daily_reports) g.rest) at h
All-inventory-Growth P t t' db db' Q processing_attempt g h =
    rw (ap (λ d. d.processing_attempts) g.rest) at h
All-inventory-Growth P t t' db db' Q manual_upload_receipt g h =
    rw (ap (λ d. d.manual_upload_receipts) g.rest) at h
All-inventory-Growth P t t' db db' Q reviewer_feedback g h =
    rw (ap (λ d. d.review_events) g.rest) at h
All-inventory-Growth P t t' db db' Q playbook_version g h =
    rw (ap (λ d. d.playbook_versions) g.rest) at h
All-inventory-Growth P t t' db db' Q audit_metadata g h =
    All-dated_right Q g.logged db.audit_events (rw g.audits at h)
