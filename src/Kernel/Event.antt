-- ===== src/Kernel/Event.antt =====
-- kernel/events.py: the immutable envelope of an event, and the checks of its constructor.
-- Timestamps are the UTC instants that `_timestamp` leaves, in microseconds.
use blackcell.Prelude.{
  ℕ, String, Bool, false, Option, none, some, not, ltb, str_eq, all, ok, ◌>>◌, raise_if,
  if◌then◌else◌, pos,
}
use blackcell.Prelude.Text.{codes, is_ascii_space}
use blackcell.Json.{Json, null, text, int, obj, Fields, end, field}
use blackcell.Host.{Host, json_digest}
use blackcell.Kernel.Errors.{Result, value_error, event_integrity}

pub record EventEnvelope : Type 0 where
  pub event_id : String
  pub stream_id : String
  pub stream_sequence : ℕ
  pub event_type : String
  pub schema_version : ℕ
  pub recorded_at : ℕ
  pub effective_at : ℕ
  pub correlation_id : String
  pub causation_id : Option String
  pub actor : String
  pub source : String
  pub payload : Fields
  pub payload_hash : String
  pub idempotency_key : Option String
  pub global_position : Option ℕ

module _ (host : Host) where
  is_blank_code : ℕ → Bool
  is_blank_code c = if ltb c 128 then is_ascii_space c else host.is_space c

  -- `not value or not value.strip()`
  unfoldable pub is_blank : String → Bool
  unfolding is_blank_code
  is_blank value = all is_blank_code (codes value)

  blank_option : Option String → Bool
  unfolding is_blank
  blank_option none = false
  blank_option (some value) = is_blank value

  below_one : Option ℕ → Bool
  below_one none = false
  below_one (some n) = ltb n 1

  -- `EventEnvelope.__post_init__`: returns the envelope, or raises
  unfoldable pub post_init : EventEnvelope → Result EventEnvelope
  unfolding is_blank blank_option below_one
  post_init event = do
    raise_if (is_blank event.event_id) value_error
    raise_if (is_blank event.stream_id) value_error
    raise_if (is_blank event.event_type) value_error
    raise_if (is_blank event.correlation_id) value_error
    raise_if (is_blank event.actor) value_error
    raise_if (is_blank event.source) value_error
    raise_if (blank_option event.causation_id) value_error
    raise_if (blank_option event.idempotency_key) value_error
    raise_if (ltb event.stream_sequence 1) value_error
    raise_if (ltb event.schema_version 1) value_error
    raise_if (below_one event.global_position) value_error
    raise_if (not (str_eq event.payload_hash (json_digest host (obj event.payload))))
        event_integrity
    ok event

  option_text : Option String → Json
  option_text none = null
  option_text (some value) = text value

  -- the property `idempotency_hash`
  unfoldable pub idempotency_hash : EventEnvelope → String
  unfolding option_text
  idempotency_hash event = json_digest host (
      obj (
        field "actor" (text event.actor) (
          field "causation_id" (option_text event.causation_id) (
            field "correlation_id" (text event.correlation_id) (
              field "effective_at" (text (host.isoformat event.effective_at)) (
                field "event_type" (text event.event_type) (
                  field "payload_hash" (text event.payload_hash) (
                    field "schema_version" (int (pos event.schema_version)) (
                      field "source" (text event.source)
                        (field "stream_id" (text event.stream_id) end))))))))))
