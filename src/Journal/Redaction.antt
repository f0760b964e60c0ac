-- ===== src/Journal/Redaction.antt =====
-- What the journal's file may hold of a challenge's flag: nothing but a placeholder.
use ctfdpp.Base.{ℕ, sym, ◌∙◌, ◌≡◌, refl, ap, Option, none, some, arith}
use ctfdpp.Base.Json.{
  Value, string, object, Fields, insert_field, modify_field, insert_field-insert_field,
  contains_key-insert_field, modify_field-modify_field,
}
use ctfdpp.Remote.{RemoteResult}
use ctfdpp.Journal.{
  JournalRecord, redacted_flag_value, redact_flag, redact_deployment, redact_payload, redact_option,
  redact_record, Io, JournalFile, JournalIntent, intent, remote_result,
}

redact_flag_idem : (ds : Fields) → redact_flag (redact_flag ds) ≡ redact_flag ds
redact_flag_idem ds = ground (
  arith,
  contains_key-insert_field "flag_value" (string redacted_flag_value) ds,
  insert_field-insert_field "flag_value" (string redacted_flag_value) (string redacted_flag_value)
      ds,
)

redact_deployment_idem : (v : Value) → redact_deployment (redact_deployment v) ≡ redact_deployment v
redact_deployment_idem (object ds) = ap object (redact_flag_idem ds)
redact_deployment_idem _ = refl

pub redact_payload_idem : (v : Value) → redact_payload (redact_payload v) ≡ redact_payload v
unfolding redact_payload
redact_payload_idem (object fs) = ap object (
    modify_field-modify_field "deployment" redact_deployment redact_deployment redact_deployment
      redact_deployment_idem fs)
redact_payload_idem _ = refl

pub redact_option_idem : (v : Option Value) → redact_option (redact_option v) ≡ redact_option v
redact_option_idem none = refl
redact_option_idem (some v) = ap some (redact_payload_idem v)

pub redact_record_idem : (r : JournalRecord) → redact_record (redact_record r) ≡ redact_record r
redact_record_idem r = λ i. record r { payload = redact_option_idem r.payload i }

-- A payload whose deployment carries the given flag value.
abbrev put_flag : Value → Value → Value
put_flag secret (object ds) = object (insert_field "flag_value" secret ds)
put_flag secret v = v

unfoldable pub with_flag : Value → Value → Value
with_flag secret (object fs) = object (modify_field "deployment" (put_flag secret) fs)
with_flag secret v = v

redact-put_flag :
    (s t v : Value) → redact_deployment (put_flag s v) ≡ redact_deployment (put_flag t v)
redact-put_flag s t (object ds) = ap object (
    ground (
      arith,
      contains_key-insert_field "flag_value" s ds,
      contains_key-insert_field "flag_value" t ds,
      insert_field-insert_field "flag_value" (string redacted_flag_value) s ds,
      insert_field-insert_field "flag_value" (string redacted_flag_value) t ds,
    ))
redact-put_flag s t _ = refl

pub redact_payload-with_flag :
    (s t p : Value) → redact_payload (with_flag s p) ≡ redact_payload (with_flag t p)
unfolding redact_payload with_flag
redact_payload-with_flag s t (object fs) = ap object (
    modify_field-modify_field "deployment" redact_deployment (put_flag s)
      (λ v. redact_deployment (put_flag s v)) (λ v. refl) fs
    ∙ sym (
        modify_field-modify_field "deployment" redact_deployment (put_flag t)
          (λ v. redact_deployment (put_flag s v)) (redact-put_flag t s) fs))
redact_payload-with_flag s t _ = refl

abbrev with_payload : JournalIntent → Value → JournalIntent
with_payload i v = record i { payload = v }

-- The flag of a deployment does not reach the journal: whatever two flag values a payload is given,
-- `intent` and `remote_result` leave the same file and the same answer, whatever the file system
-- does.
pub intent_hides_flag :
    (io : Io) (now : ℕ) (i : JournalIntent) (result : RemoteResult) (s t : Value) (f : JournalFile)
    → (intent io now (with_payload i (with_flag s i.payload)) f
        ≡ intent io now (with_payload i (with_flag t i.payload)) f)
      × (remote_result io now (with_payload i (with_flag s i.payload)) result f
          ≡ remote_result io now (with_payload i (with_flag t i.payload)) result f)
unfolding intent remote_result
intent_hides_flag io now i result s t f =
    let same = redact_payload-with_flag s t i.payload in (rw same, rw same)
