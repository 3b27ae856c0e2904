-- ===== src/Uploads/Sequences.antt =====
-- Sequences of the repository's methods, in any order and with any arguments, but for
-- `confirm_cancel_deletion`, which has no guard of its own: a deletion that failed is recorded of a
-- cancelled receipt only.
use phone_law.Prelude.{ℕ, String, ◌≡◌, Bool, true, false, some, List, []}
use phone_law.Uploads.Receipts.{UploadRow, Uploads, UploadSources}
use phone_law.Uploads.Repository.{
  Completion, is_cancelled, receipt_with, attach_call, claim_processing, complete, cancel,
  confirm_cancel_deletion,
}
use phone_law.Uploads.Submissions.{Submission, create}
use phone_law.Uploads.Paths.{IsSoundUploads}
use phone_law.Uploads.Lifecycle.{
  claim_processing-IsSound, complete-IsSound, cancel-IsSound, confirm_cancel_deletion-IsSound,
  attach_call-IsSound,
}
use phone_law.Uploads.Creation.{create-IsSound}

-- What the tables are after the methods, from empty ones; retention adds tombstones.
-- `confirm_cancel_deletion` with `confirmed` false, which has no guard of its own, is called for a
-- cancelled receipt only, as `ManualUploadService.cancel` does.
pub data Reachable (sources : UploadSources) : Uploads → Type 0 where
  empty : Reachable sources (record { receipts = []; events = []; tombstones = [] })
  created :
      (s : Submission) (looked_up t : Uploads)
      → Reachable sources t
      → Reachable sources (create sources s looked_up t).1
  claimed :
      (event_id upload_id : String) (now : ℕ) (t : Uploads)
      → Reachable sources t
      → Reachable sources (claim_processing sources event_id upload_id now t).1
  attached :
      (upload_id call_id : String) (now : ℕ) (t : Uploads)
      → Reachable sources t
      → Reachable sources (attach_call upload_id call_id now t).1
  completed :
      (event_id upload_id : String) (c : Completion) (now : ℕ) (t : Uploads)
      → Reachable sources t
      → Reachable sources (complete sources event_id upload_id c now t).1
  was_cancelled :
      (event_id upload_id : String) (now : ℕ) (t : Uploads)
      → Reachable sources t
      → Reachable sources (cancel sources event_id upload_id now t).1
  confirmed :
      (event_id upload_id : String) (deleted : Bool) (now : ℕ) (t : Uploads)
      → (deleted ≡ false
          → (row : UploadRow) → receipt_with upload_id t ≡ some row
          → is_cancelled row.state ≡ true)
      → Reachable sources t
      → Reachable sources (confirm_cancel_deletion sources event_id upload_id deleted now t).1
  buried :
      (tombstones : List String) (t : Uploads)
      → Reachable sources t
      → Reachable sources (record t { tombstones = tombstones })

-- After any sequence of the methods, whether they return or raise, in which
-- `confirm_cancel_deletion` records a deletion that failed of a cancelled receipt only (it has no
-- guard of its own; its one caller has just cancelled the receipt): the events of every receipt are a
-- path of the upload states, numbered by the times that it was processed; the receipt is in the state
-- and at the attempt of its last event, at most the third; every event has its receipt; and no two
-- receipts have one submission identifier or one content.
pub Reachable-IsSound :
    (sources : UploadSources) {t : Uploads} → Reachable sources t → IsSoundUploads t
Reachable-IsSound sources empty = record {
  paths = λ k. tt;
  current = tt;
  owned = tt;
  one_submission = tt;
  one_content = tt;
}
Reachable-IsSound sources (created s looked_up t r) =
    create-IsSound sources s looked_up t (Reachable-IsSound sources r)
Reachable-IsSound sources (claimed event_id upload_id now t r) =
    claim_processing-IsSound sources event_id upload_id now t (Reachable-IsSound sources r)
Reachable-IsSound sources (attached upload_id call_id now t r) =
    attach_call-IsSound upload_id call_id now t (Reachable-IsSound sources r)
Reachable-IsSound sources (completed event_id upload_id c now t r) =
    complete-IsSound sources event_id upload_id now t c (Reachable-IsSound sources r)
Reachable-IsSound sources (was_cancelled event_id upload_id now t r) =
    cancel-IsSound sources event_id upload_id now t (Reachable-IsSound sources r)
Reachable-IsSound sources (confirmed event_id upload_id deleted now t was r) =
    confirm_cancel_deletion-IsSound sources event_id upload_id now t deleted was
      (Reachable-IsSound sources r)
Reachable-IsSound sources (buried tombstones t r) =
    let s = Reachable-IsSound sources r in
    record {
      paths = s.paths;
      current = s.current;
      owned = s.owned;
      one_submission = s.one_submission;
      one_content = s.one_content;
    }
