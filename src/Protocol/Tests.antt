-- ===== src/Protocol/Tests.antt =====
-- Concrete lines of the protocol.
use pi_ipython.Common.{text, text_eq, true, false, none, some, ◌≡◌, ◌⊎◌, ◌↔◌, refl}
use pi_ipython.Protocol.{
  pos, safe, number, string, Fields, field, object, get, as_string, BridgeMessage, Kind, kind_of,
  kind_of_text, kind_name, read_message, as_bridge_message, is_version_value, is_safe_integer,
  invalid_group, unsupported_version, invalid_connection_file, invalid_message_reason,
}
use pi_ipython.Protocol.Schema.{IsMessage, as_bridge_message_iff}
use pi_ipython.Protocol.Reasons.{ready_reason_blames}

abbrev clear_line : Fields
clear_line =
    field (text "type") (string (text "clear"))
      (field (text "request_id") (string (text "call-1")) Fields.end)

-- No connection file.
abbrev half_ready : Fields
half_ready = field (text "type") (string (text "ready")) (
    field (text "protocol") (number (safe (pos 3)))
      (field (text "kernel_pgid") (number (safe (pos 4711))) Fields.end))

half_ready_kind : kind_of half_ready ≡ some Kind.ready
unfolding kind_of kind_of_text kind_name get text text_eq
half_ready_kind = refl

half_ready_message : as_bridge_message (object half_ready) ≡ none
unfolding as_bridge_message read_message kind_of kind_of_text kind_name get text text_eq
half_ready_message = refl

as_bridge_message_iff_example :
    (as_bridge_message (object clear_line) ≡ some (BridgeMessage.clear (text "call-1")))
    ↔ IsMessage (object clear_line) (BridgeMessage.clear (text "call-1"))
as_bridge_message_iff_example =
    as_bridge_message_iff (object clear_line) (BridgeMessage.clear (text "call-1"))

ready_reason_blames_example :
    ((is_version_value (get (text "protocol") half_ready) ≡ false)
      × (invalid_message_reason (object half_ready) ≡ some unsupported_version))
    ⊎ ((is_version_value (get (text "protocol") half_ready) ≡ true)
        × (is_safe_integer (get (text "kernel_pgid") half_ready) ≡ false)
        × (invalid_message_reason (object half_ready) ≡ some invalid_group))
    ⊎ ((is_version_value (get (text "protocol") half_ready) ≡ true)
        × (is_safe_integer (get (text "kernel_pgid") half_ready) ≡ true)
        × (as_string (get (text "connection_file") half_ready) ≡ none)
        × (invalid_message_reason (object half_ready) ≡ some invalid_connection_file))
ready_reason_blames_example = ready_reason_blames half_ready half_ready_kind half_ready_message
