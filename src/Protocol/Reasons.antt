-- ===== src/Protocol/Reasons.antt =====
-- The reason that is given for a line that fails the guard, and what it blames.
use pi_ipython.Common.{
  text, true, false, Option, none, some, ◌≡◌, ◌⊎◌, ◌↔◌, refl, inl, inr, Bool-cases, Option-cases,
}
use pi_ipython.Protocol.{
  Number, JsonValue, Fields, null, boolean, number, string, array, object, get, as_string,
  as_number, Kind, kind_of, read_message, as_bridge_message, is_version_value, is_safe_integer,
  invalid_group, unsupported_version, invalid_connection_file, reason_for, invalid_message_reason,
}

-- A value that the guard rejects has a reason exactly if it is an object of a known message type;
-- any other line is no message of the protocol.
pub invalid_message_reason-none :
    (v : JsonValue)
    → (invalid_message_reason v ≡ none) ↔ ((fs : Fields) → v ≡ object fs → kind_of fs ≡ none)
unfolding invalid_message_reason
invalid_message_reason-none (object fs) = elim (Option-cases (kind_of fs)) [
  | inl e ↦ ((λ _ fs' same. cc), (λ _. rw e))
  | inr (k, e) ↦ ((λ h. cc (rw e at h)), (λ h. cc (h fs refl)))
]
invalid_message_reason-none null = ((λ _ fs e. cc), (λ _. refl))
invalid_message_reason-none (boolean b) = ((λ _ fs e. cc), (λ _. refl))
invalid_message_reason-none (number n) = ((λ _ fs e. cc), (λ _. refl))
invalid_message_reason-none (string s) = ((λ _ fs e. cc), (λ _. refl))
invalid_message_reason-none (array xs) = ((λ _ fs e. cc), (λ _. refl))

as_number_version :
    (v : Option JsonValue) → is_version_value v ≡ true → (n : Number) × (as_number v ≡ some n)
as_number_version (some (number n)) h = (n, refl)
as_number_version none h = cc
as_number_version (some null) h = cc
as_number_version (some (boolean b)) h = cc
as_number_version (some (string s)) h = cc
as_number_version (some (array xs)) h = cc
as_number_version (some (object fs)) h = cc

as_number_integer :
    (v : Option JsonValue) → is_safe_integer v ≡ true → (n : Number) × (as_number v ≡ some n)
as_number_integer (some (number n)) h = (n, refl)
as_number_integer none h = cc
as_number_integer (some null) h = cc
as_number_integer (some (boolean b)) h = cc
as_number_integer (some (string s)) h = cc
as_number_integer (some (array xs)) h = cc
as_number_integer (some (object fs)) h = cc

-- The reason for a `ready` line that the guard rejects is the first fault of: a protocol other
-- than 3, a process group that is no safe integer, a connection file that is no string.
pub ready_reason_blames :
    (fs : Fields)
    → kind_of fs ≡ some Kind.ready
    → as_bridge_message (object fs) ≡ none
    → ((is_version_value (get (text "protocol") fs) ≡ false)
        × (invalid_message_reason (object fs) ≡ some unsupported_version))
      ⊎ ((is_version_value (get (text "protocol") fs) ≡ true)
          × (is_safe_integer (get (text "kernel_pgid") fs) ≡ false)
          × (invalid_message_reason (object fs) ≡ some invalid_group))
      ⊎ ((is_version_value (get (text "protocol") fs) ≡ true)
          × (is_safe_integer (get (text "kernel_pgid") fs) ≡ true)
          × (as_string (get (text "connection_file") fs) ≡ none)
          × (invalid_message_reason (object fs) ≡ some invalid_connection_file))
unfolding invalid_message_reason reason_for as_bridge_message read_message
ready_reason_blames fs k h = elim (Bool-cases (is_version_value (get (text "protocol") fs))) [
  | inr e ↦ inl (e, rw (k, e))
  | inl e ↦ elim (Bool-cases (is_safe_integer (get (text "kernel_pgid") fs))) [
    | inr f ↦ inr (inl (e, f, rw (k, e, f)))
    | inl f ↦
        let (n, p) = as_number_version (get (text "protocol") fs) e in
        let (m, q) = as_number_integer (get (text "kernel_pgid") fs) f in
        elim (Option-cases (as_string (get (text "connection_file") fs))) [
          | inl none_found ↦ inr (inr (e, f, none_found, rw (k, e, f)))
          | inr (file, found) ↦ cc (rw (k, p, q, found) at h)
        ]
  ]
]
