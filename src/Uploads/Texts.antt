-- ===== src/Uploads/Texts.antt =====
-- The texts that an upload's row and receipt are given.
use Prim.Native.String.{String, ◌++◌, slice}
use phone_law.Prelude.{Option, none, some}

-- `source_event_identifier`
abbrev pub source_event_identifier : String → String
source_event_identifier upload_id = "upload-event-" ++ upload_id

-- `content_hash_reference`; a fingerprint is hexadecimal, so that a character is a byte.
abbrev pub content_hash_reference : String → String
content_hash_reference fingerprint = "sha256:" ++ slice fingerprint 0 12

abbrev pub call_path : Option String → Option String
call_path none = none
call_path (some call_id) = some ("/calls/" ++ call_id)

abbrev pub report_path : Option String → (date : String) → Option String
report_path none date = none
report_path (some call_id) date = some ("/reports/" ++ date)
