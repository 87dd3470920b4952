-- ===== src/Protocol/Conforms.antt =====
-- core/kernel-runtime.ts: what a message of the bridge looks like as JSON, apart from the code that
-- reads it.
use pi_ipython.Common.{
  Text, text, text_eq, text_eq_iff, Bool, Option, none, some, ◌≡◌, ◌⊎◌, refl, ap, ◌∙◌, arith, inl,
  inr, >>=-some, subst, some_inj,
}
use pi_ipython.Protocol.{
  Number, JsonValue, Fields, null, boolean, number, string, array, object, get, as_string,
  as_number, as_boolean, as_nullable, ErrorValue, BridgeMessage, Kind, kind_name, kind_of_text,
  kind_of, as_error_value, as_request_id,
}

abbrev pub IsNull : Option JsonValue → Type 0
IsNull v = (v ≡ none) ⊎ (v ≡ some null)

abbrev pub IsErrorValue : Option JsonValue → ErrorValue → Type 0
IsErrorValue v e =
    (fs : Fields) × (v ≡ some (object fs))
    × (get (text "ename") fs ≡ some (string e.ename))
    × (get (text "evalue") fs ≡ some (string e.evalue))

abbrev pub IsCount : Option JsonValue → Option Number → Type 0
IsCount v none = IsNull v
IsCount v (some n) = v ≡ some (number n)

abbrev pub IsError : Option JsonValue → Option ErrorValue → Type 0
IsError v none = IsNull v
IsError v (some e) = IsErrorValue v e

abbrev pub IsRequestId : Option JsonValue → Option Text → Type 0
IsRequestId v none = v ≡ some null
IsRequestId v (some id) = v ≡ some (string id)

-- The type of a message, and the fields that it must have.
abbrev pub Conforms : Fields → BridgeMessage → Type 0
Conforms fs (BridgeMessage.kernel_started pgid) =
    (get (text "type") fs ≡ some (string (text "kernel_started")))
    × (get (text "kernel_pgid") fs ≡ some (number pgid))
Conforms fs (BridgeMessage.ready protocol pgid file) =
    (get (text "type") fs ≡ some (string (text "ready")))
    × (get (text "protocol") fs ≡ some (number protocol))
    × (get (text "kernel_pgid") fs ≡ some (number pgid))
    × (get (text "connection_file") fs ≡ some (string file))
Conforms fs (BridgeMessage.fatal error traceback) =
    (get (text "type") fs ≡ some (string (text "fatal")))
    × (get (text "error") fs ≡ some (string error))
    × (get (text "traceback") fs ≡ some (string traceback))
Conforms fs (BridgeMessage.bridge_error id error traceback) =
    (get (text "type") fs ≡ some (string (text "bridge_error")))
    × IsRequestId (get (text "request_id") fs) id
    × (get (text "error") fs ≡ some (string error))
    × (get (text "traceback") fs ≡ some (string traceback))
Conforms fs (BridgeMessage.clear id) =
    (get (text "type") fs ≡ some (string (text "clear")))
    × (get (text "request_id") fs ≡ some (string id))
Conforms fs (BridgeMessage.image id png) =
    (get (text "type") fs ≡ some (string (text "image")))
    × (get (text "request_id") fs ≡ some (string id))
    × (get (text "data") fs ≡ some (string png))
Conforms fs (BridgeMessage.output id kind chunk continuation final) =
    (get (text "type") fs ≡ some (string (text "output")))
    × (get (text "request_id") fs ≡ some (string id))
    × (get (text "kind") fs ≡ some (string kind))
    × (get (text "text") fs ≡ some (string chunk))
    × (get (text "continuation") fs ≡ some (boolean continuation))
    × (get (text "final") fs ≡ some (boolean final))
Conforms fs (BridgeMessage.result id status count value error) =
    (get (text "type") fs ≡ some (string (text "result")))
    × (get (text "request_id") fs ≡ some (string id))
    × (get (text "status") fs ≡ some (string status))
    × IsCount (get (text "execution_count") fs) count
    × (get (text "value") fs ≡ value)
    × IsError (get (text "error") fs) error

pub kind_of_text-some : (t : Text) (k : Kind) → kind_of_text t ≡ some k → t ≡ kind_name k
unfolding kind_of_text
kind_of_text-some t k h = ground (
  arith,
  text_eq_iff t (kind_name Kind.kernel_started),
  text_eq_iff t (kind_name Kind.ready),
  text_eq_iff t (kind_name Kind.fatal),
  text_eq_iff t (kind_name Kind.bridge_error),
  text_eq_iff t (kind_name Kind.clear),
  text_eq_iff t (kind_name Kind.image),
  text_eq_iff t (kind_name Kind.output),
  text_eq_iff t (kind_name Kind.result),
)

pub kind_of_text-name : (k : Kind) → kind_of_text (kind_name k) ≡ some k
unfolding kind_of_text kind_name text text_eq
kind_of_text-name Kind.kernel_started = refl
kind_of_text-name Kind.ready = refl
kind_of_text-name Kind.fatal = refl
kind_of_text-name Kind.bridge_error = refl
kind_of_text-name Kind.clear = refl
kind_of_text-name Kind.image = refl
kind_of_text-name Kind.output = refl
kind_of_text-name Kind.result = refl

pub as_string-some : (v : Option JsonValue) (t : Text) → as_string v ≡ some t → v ≡ some (string t)
as_string-some (some (string s)) t h = ground arith
as_string-some none t h = cc
as_string-some (some null) t h = cc
as_string-some (some (boolean b)) t h = cc
as_string-some (some (number n)) t h = cc
as_string-some (some (array xs)) t h = cc
as_string-some (some (object fs)) t h = cc

pub kind_of-some :
    (fs : Fields) (k : Kind)
    → kind_of fs ≡ some k
    → get (text "type") fs ≡ some (string (kind_name k))
unfolding kind_of
kind_of-some fs k h =
    let (t, e, found) = >>=-some (as_string (get (text "type") fs)) kind_of_text h in
    as_string-some _ t e ∙ ap (λ x. some (string x)) (kind_of_text-some t k found)

pub as_number-some :
    (v : Option JsonValue) (n : Number) → as_number v ≡ some n → v ≡ some (number n)
as_number-some (some (number m)) n h = ground arith
as_number-some none n h = cc
as_number-some (some null) n h = cc
as_number-some (some (boolean b)) n h = cc
as_number-some (some (string s)) n h = cc
as_number-some (some (array xs)) n h = cc
as_number-some (some (object fs)) n h = cc

pub as_boolean-some :
    (v : Option JsonValue) (b : Bool) → as_boolean v ≡ some b → v ≡ some (boolean b)
as_boolean-some (some (boolean c)) b h = ground arith
as_boolean-some none b h = cc
as_boolean-some (some null) b h = cc
as_boolean-some (some (number n)) b h = cc
as_boolean-some (some (string s)) b h = cc
as_boolean-some (some (array xs)) b h = cc
as_boolean-some (some (object fs)) b h = cc

pub as_request_id-some :
    (v : Option JsonValue) (o : Option Text) → as_request_id v ≡ some o → IsRequestId v o
as_request_id-some (some null) o h = subst (IsRequestId (some null)) (some_inj h) refl
as_request_id-some (some (string s)) o h = subst (IsRequestId (some (string s))) (some_inj h) refl
as_request_id-some none o h = cc
as_request_id-some (some (number n)) o h = cc
as_request_id-some (some (boolean b)) o h = cc
as_request_id-some (some (array xs)) o h = cc
as_request_id-some (some (object fs)) o h = cc

pub as-IsCount-some :
    (v : Option JsonValue) (o : Option Number) → as_nullable as_number v ≡ some o → IsCount v o
as-IsCount-some none o h = subst (IsCount none) (some_inj h) (inl refl)
as-IsCount-some (some null) o h = subst (IsCount (some null)) (some_inj h) (inr refl)
as-IsCount-some (some (number n)) o h = subst (IsCount (some (number n))) (some_inj h) refl
as-IsCount-some (some (string s)) o h = cc
as-IsCount-some (some (boolean b)) o h = cc
as-IsCount-some (some (array xs)) o h = cc
as-IsCount-some (some (object fs)) o h = cc

pub as_error_value-some :
    (v : Option JsonValue) (e : ErrorValue) → as_error_value v ≡ some e → IsErrorValue v e
as_error_value-some (some (object fs)) e h =
    let (name, p, h1) = >>=-some (as_string (get (text "ename") fs)) _ h in
    let (value, q, h2) = >>=-some (as_string (get (text "evalue") fs)) _ h1 in
    subst (IsErrorValue (some (object fs))) (some_inj h2)
      (fs, refl, as_string-some _ name p, as_string-some _ value q)
as_error_value-some none e h = cc
as_error_value-some (some null) e h = cc
as_error_value-some (some (number n)) e h = cc
as_error_value-some (some (string s)) e h = cc
as_error_value-some (some (boolean b)) e h = cc
as_error_value-some (some (array xs)) e h = cc

pub as-IsError-some :
    (v : Option JsonValue) (o : Option ErrorValue)
    → as_nullable as_error_value v ≡ some o
    → IsError v o
as-IsError-some none o h = subst (IsError none) (some_inj h) (inl refl)
as-IsError-some (some null) o h = subst (IsError (some null)) (some_inj h) (inr refl)
as-IsError-some (some (object fs)) o h =
    let (e, p, q) = >>=-some (as_error_value (some (object fs))) _ h in
    subst (IsError (some (object fs))) (some_inj q) (as_error_value-some (some (object fs)) e p)
as-IsError-some (some (number n)) o h = cc
as-IsError-some (some (string s)) o h = cc
as-IsError-some (some (boolean b)) o h = cc
as-IsError-some (some (array xs)) o h = cc
