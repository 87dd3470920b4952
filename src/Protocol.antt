-- ===== src/Protocol.antt =====
-- core/kernel-runtime.ts: what the bridge writes on a line, and which lines the runtime accepts.
pub mod Conforms
pub mod Schema
pub mod Reasons
mod Tests
use pi_ipython.Common.{
  ℕ, ◌+◌, Text, text, text_eq, Bool, true, false, ◌&&◌, Option, none, some, List, [], ◌∷◌, ◌++◌,
  ◌==◌, if◌then◌else◌, is_some, ◌>>=◌, join,
}

-- `negsuc n` is -(n + 1).
pub data ℤ : Type 0 where
  pos negsuc : ℕ → ℤ

-- A JavaScript number: a safe integer, or another one, told apart by an index.
pub data Number : Type 0 where
  safe : ℤ → Number
  unsafe : ℕ → Number

-- `JsonValue`. An object lists its fields; the parser leaves one of each name.
mutual
  pub data JsonValue : Type 0 where
    null : JsonValue
    boolean : Bool → JsonValue
    number : Number → JsonValue
    string : Text → JsonValue
    array : Items → JsonValue
    object : Fields → JsonValue

  pub data Items : Type 0 where
    nil : Items
    item : JsonValue → Items → Items

  pub data Fields : Type 0 where
    end : Fields
    field : Text → JsonValue → Fields → Fields

-- `value.name`, with `none` for `undefined`.
unfoldable pub get : Text → Fields → Option JsonValue
get name end = none
get name (field key v rest) = if text_eq key name then some v else get name rest

-- The `typeof` tests, with the value at its narrowed type.
abbrev pub as_string : Option JsonValue → Option Text
as_string (some (string t)) = some t
as_string _ = none

abbrev pub as_number : Option JsonValue → Option Number
as_number (some (number n)) = some n
as_number _ = none

abbrev pub as_boolean : Option JsonValue → Option Bool
as_boolean (some (boolean b)) = some b
as_boolean _ = none

-- A field that may be absent or null.
abbrev pub as_nullable {ℓ} :
    {A : Type ℓ} → (Option JsonValue → Option A) → Option JsonValue → Option (Option A)
as_nullable read none = some none
as_nullable read (some null) = some none
as_nullable read (some v) = read (some v) >>= λ a. some (some a)

pub record BridgeError : Type 0 where
  pub ename : Option Text
  pub evalue : Option Text

pub record BridgeResult : Type 0 where
  pub status : Text
  pub execution_count : Option Number
  pub error : Option BridgeError
  pub output : Text
  pub images : List Text
  pub images_dropped : ℕ

-- The fields `ename` and `evalue` of a result's error, both present.
pub record ErrorValue : Type 0 where
  pub ename : Text
  pub evalue : Text

pub data BridgeMessage : Type 0 where
  kernel_started : Number → BridgeMessage
  ready : Number → Number → Text → BridgeMessage
  fatal : Text → Text → BridgeMessage
  bridge_error : Option Text → Text → Text → BridgeMessage
  clear : Text → BridgeMessage
  image : Text → Text → BridgeMessage
  output : Text → Text → Text → Bool → Bool → BridgeMessage
  result : Text → Text → Option Number → Option JsonValue → Option ErrorValue → BridgeMessage

-- The cases of `switch (value.type)`.
pub data Kind : Type 0 where
  kernel_started ready fatal bridge_error clear image output result : Kind

unfoldable pub kind_name : Kind → Text
kind_name Kind.kernel_started = text "kernel_started"
kind_name Kind.ready = text "ready"
kind_name Kind.fatal = text "fatal"
kind_name Kind.bridge_error = text "bridge_error"
kind_name Kind.clear = text "clear"
kind_name Kind.image = text "image"
kind_name Kind.output = text "output"
kind_name Kind.result = text "result"

-- The case that a string selects, with `none` for `default`.
pub kind_of_text : Text → Option Kind
kind_of_text t =
    if text_eq t (kind_name Kind.kernel_started)
    then some Kind.kernel_started
    else if text_eq t (kind_name Kind.ready)
    then some Kind.ready
    else if text_eq t (kind_name Kind.fatal)
    then some Kind.fatal
    else if text_eq t (kind_name Kind.bridge_error)
    then some Kind.bridge_error
    else if text_eq t (kind_name Kind.clear)
    then some Kind.clear
    else if text_eq t (kind_name Kind.image)
    then some Kind.image
    else if text_eq t (kind_name Kind.output)
    then some Kind.output
    else if text_eq t (kind_name Kind.result)
    then some Kind.result
    else none

unfoldable pub kind_of : Fields → Option Kind
kind_of fs = as_string (get (text "type") fs) >>= kind_of_text

-- `isBridgeErrorValue`.
abbrev pub as_error_value : Option JsonValue → Option ErrorValue
as_error_value (some (object fs)) = do
  ename ← as_string (get (text "ename") fs)
  evalue ← as_string (get (text "evalue") fs)
  some (record { ename = ename; evalue = evalue })
as_error_value _ = none

-- A request ID that is a string or null; it may not be absent.
abbrev pub as_request_id : Option JsonValue → Option (Option Text)
as_request_id (some null) = some none
as_request_id (some (string t)) = some (some t)
as_request_id _ = none

-- A case of `isBridgeMessage`.
pub read_message : Kind → Fields → Option BridgeMessage
read_message Kind.kernel_started fs = do
  pgid ← as_number (get (text "kernel_pgid") fs)
  some (kernel_started pgid)
read_message Kind.ready fs = do
  protocol ← as_number (get (text "protocol") fs)
  pgid ← as_number (get (text "kernel_pgid") fs)
  file ← as_string (get (text "connection_file") fs)
  some (ready protocol pgid file)
read_message Kind.fatal fs = do
  error ← as_string (get (text "error") fs)
  traceback ← as_string (get (text "traceback") fs)
  some (fatal error traceback)
read_message Kind.bridge_error fs = do
  id ← as_request_id (get (text "request_id") fs)
  error ← as_string (get (text "error") fs)
  traceback ← as_string (get (text "traceback") fs)
  some (bridge_error id error traceback)
read_message Kind.clear fs = do id ← as_string (get (text "request_id") fs); some (clear id)
read_message Kind.image fs = do
  id ← as_string (get (text "request_id") fs)
  png ← as_string (get (text "data") fs)
  some (image id png)
read_message Kind.output fs = do
  id ← as_string (get (text "request_id") fs)
  kind ← as_string (get (text "kind") fs)
  chunk ← as_string (get (text "text") fs)
  continuation ← as_boolean (get (text "continuation") fs)
  final ← as_boolean (get (text "final") fs)
  some (output id kind chunk continuation final)
read_message Kind.result fs = do
  id ← as_string (get (text "request_id") fs)
  status ← as_string (get (text "status") fs)
  count ← as_nullable as_number (get (text "execution_count") fs)
  error ← as_nullable as_error_value (get (text "error") fs)
  some (result id status count (get (text "value") fs) error)

-- `isBridgeMessage`: the value at the type that the guard gives it, or `none` where it fails.
unfoldable pub as_bridge_message : JsonValue → Option BridgeMessage
as_bridge_message (object fs) = kind_of fs >>= λ kind. read_message kind fs
as_bridge_message _ = none

pub bridge_protocol_version : Number
bridge_protocol_version = safe (pos 3)

-- `value.protocol !== BRIDGE_PROTOCOL_VERSION` on a number.
abbrev pub is_version : Number → Bool
is_version (safe (pos n)) = n == 3
is_version _ = false

abbrev is_version_value : Option JsonValue → Bool
is_version_value (some (number n)) = is_version n
is_version_value _ = false

-- `Number.isSafeInteger`.
abbrev pub is_safe_integer : Option JsonValue → Bool
is_safe_integer (some (number (safe i))) = true
is_safe_integer _ = false

abbrev pub invalid_group : Text
invalid_group = text "IPython bridge reported an invalid kernel process group"

abbrev pub unsupported_version : Text
unsupported_version = text "IPython bridge reported an unsupported protocol version"

abbrev pub invalid_connection_file : Text
invalid_connection_file = text "IPython bridge reported an invalid kernel connection file"

-- A case of `invalidMessageReason`.
pub reason_for : Kind → Fields → Text
reason_for Kind.kernel_started fs = invalid_group
reason_for Kind.ready fs =
    if is_version_value (get (text "protocol") fs)
    then (if is_safe_integer (get (text "kernel_pgid") fs)
        then invalid_connection_file
        else invalid_group)
    else unsupported_version
reason_for kind fs = text "IPython bridge sent an invalid " ++ (kind_name kind ++ text " message")

-- `invalidMessageReason`.
unfoldable pub invalid_message_reason : JsonValue → Option Text
invalid_message_reason (object fs) = kind_of fs >>= λ kind. some (reason_for kind fs)
invalid_message_reason _ = none

-- The texts of a list that are not empty.
abbrev pub non_empty : List Text → List Text
non_empty [] = []
non_empty ([] ∷ ts) = non_empty ts
non_empty ((c ∷ t) ∷ ts) = (c ∷ t) ∷ non_empty ts

abbrev pub text_or_empty : Option Text → Text
text_or_empty none = []
text_or_empty (some t) = t

-- `describeError`.
unfoldable pub describe_error : Option BridgeError → Text
describe_error none = []
describe_error (some e) =
    join (text ": ") (non_empty (text_or_empty e.ename ∷ text_or_empty e.evalue ∷ []))
