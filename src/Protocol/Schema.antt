-- ===== src/Protocol/Schema.antt =====
-- The protocol's schema, field by field, and that the guard decides it.
use pi_ipython.Common.{
  Text, text, Option, none, some, ◌≡◌, ◌↔◌, refl, inl, inr, >>=-some, subst, some_inj,
}
use pi_ipython.Protocol.{
  Number, JsonValue, Fields, null, boolean, number, string, array, object, get, as_string,
  as_number, as_boolean, as_nullable, ErrorValue, BridgeMessage, Kind, kind_name, kind_of,
  as_error_value, as_request_id, read_message, as_bridge_message,
}
use pi_ipython.Protocol.Conforms.{
  IsNull, IsCount, IsError, IsRequestId, Conforms, kind_of_text-name, as_string-some, kind_of-some,
  as_number-some, as_boolean-some, as_request_id-some, as-IsCount-some, as-IsError-some,
}

read_message-Conforms :
    (k : Kind) (fs : Fields) (m : BridgeMessage)
    → get (text "type") fs ≡ some (string (kind_name k))
    → read_message k fs ≡ some m
    → Conforms fs m
unfolding read_message kind_name
read_message-Conforms Kind.kernel_started fs m ty h =
    let (pgid, p0, h0) = >>=-some (as_number (get (text "kernel_pgid") fs)) _ h in
    subst (Conforms fs) (some_inj h0) (ty, as_number-some _ pgid p0)
read_message-Conforms Kind.ready fs m ty h =
    let (protocol, p0, h0) = >>=-some (as_number (get (text "protocol") fs)) _ h in
    let (pgid, p1, h1) = >>=-some (as_number (get (text "kernel_pgid") fs)) _ h0 in
    let (file, p2, h2) = >>=-some (as_string (get (text "connection_file") fs)) _ h1 in
    subst (Conforms fs) (some_inj h2)
      (ty, as_number-some _ protocol p0, as_number-some _ pgid p1, as_string-some _ file p2)
read_message-Conforms Kind.fatal fs m ty h =
    let (error, p0, h0) = >>=-some (as_string (get (text "error") fs)) _ h in
    let (traceback, p1, h1) = >>=-some (as_string (get (text "traceback") fs)) _ h0 in
    subst (Conforms fs) (some_inj h1) (ty, as_string-some _ error p0, as_string-some _ traceback p1)
read_message-Conforms Kind.bridge_error fs m ty h =
    let (id, p0, h0) = >>=-some (as_request_id (get (text "request_id") fs)) _ h in
    let (error, p1, h1) = >>=-some (as_string (get (text "error") fs)) _ h0 in
    let (traceback, p2, h2) = >>=-some (as_string (get (text "traceback") fs)) _ h1 in
    subst (Conforms fs) (some_inj h2)
      (ty, as_request_id-some _ id p0, as_string-some _ error p1, as_string-some _ traceback p2)
read_message-Conforms Kind.clear fs m ty h =
    let (id, p0, h0) = >>=-some (as_string (get (text "request_id") fs)) _ h in
    subst (Conforms fs) (some_inj h0) (ty, as_string-some _ id p0)
read_message-Conforms Kind.image fs m ty h =
    let (id, p0, h0) = >>=-some (as_string (get (text "request_id") fs)) _ h in
    let (png, p1, h1) = >>=-some (as_string (get (text "data") fs)) _ h0 in
    subst (Conforms fs) (some_inj h1) (ty, as_string-some _ id p0, as_string-some _ png p1)
read_message-Conforms Kind.output fs m ty h =
    let (id, p0, h0) = >>=-some (as_string (get (text "request_id") fs)) _ h in
    let (kind, p1, h1) = >>=-some (as_string (get (text "kind") fs)) _ h0 in
    let (chunk, p2, h2) = >>=-some (as_string (get (text "text") fs)) _ h1 in
    let (continuation, p3, h3) = >>=-some (as_boolean (get (text "continuation") fs)) _ h2 in
    let (final, p4, h4) = >>=-some (as_boolean (get (text "final") fs)) _ h3 in
    subst (Conforms fs) (some_inj h4) (
      ty,
      as_string-some _ id p0,
      as_string-some _ kind p1,
      as_string-some _ chunk p2,
      as_boolean-some _ continuation p3,
      as_boolean-some _ final p4,
    )
read_message-Conforms Kind.result fs m ty h =
    let (id, p0, h0) = >>=-some (as_string (get (text "request_id") fs)) _ h in
    let (status, p1, h1) = >>=-some (as_string (get (text "status") fs)) _ h0 in
    let (count, p2, h2) = >>=-some (as_nullable as_number (get (text "execution_count") fs)) _ h1 in
    let (error, p3, h3) = >>=-some (as_nullable as_error_value (get (text "error") fs)) _ h2 in
    subst (Conforms fs) (some_inj h3) (
      ty,
      as_string-some _ id p0,
      as_string-some _ status p1,
      as-IsCount-some _ count p2,
      refl,
      as-IsError-some _ error p3,
    )

-- Absent or null.
as_nullable_null {ℓ} :
    {A : Type ℓ} (read : Option JsonValue → Option A) (v : Option JsonValue)
    → IsNull v
    → as_nullable read v ≡ some none
as_nullable_null read v (inl e) = rw e
as_nullable_null read v (inr e) = rw e

as_count-IsCount :
    (v : Option JsonValue) (o : Option Number) → IsCount v o → as_nullable as_number v ≡ some o
as_count-IsCount v none h = as_nullable_null as_number v h
as_count-IsCount v (some n) h = rw h

as_error-IsError :
    (v : Option JsonValue) (o : Option ErrorValue)
    → IsError v o
    → as_nullable as_error_value v ≡ some o
as_error-IsError v none h = as_nullable_null as_error_value v h
as_error-IsError v (some e) (fs, p, q, r) = rw p (rw (q, r))

as_request_id-IsRequestId :
    (v : Option JsonValue) (o : Option Text) → IsRequestId v o → as_request_id v ≡ some o
as_request_id-IsRequestId v none h = rw h
as_request_id-IsRequestId v (some id) h = rw h

kind_of-name :
    (fs : Fields) (k : Kind)
    → get (text "type") fs ≡ some (string (kind_name k))
    → kind_of fs ≡ some k
unfolding kind_of
kind_of-name fs k h = rw h (kind_of_text-name k)

Conforms-kind :
    (fs : Fields) (m : BridgeMessage) → Conforms fs m → as_bridge_message (object fs) ≡ some m
unfolding as_bridge_message read_message
Conforms-kind fs (BridgeMessage.kernel_started pgid) (ty, p0) =
    rw (kind_of-name fs Kind.kernel_started (unfold kind_name in ty)) (rw (p0))
Conforms-kind fs (BridgeMessage.ready protocol pgid file) (ty, p0, p1, p2) =
    rw (kind_of-name fs Kind.ready (unfold kind_name in ty)) (rw (p0, p1, p2))
Conforms-kind fs (BridgeMessage.fatal error traceback) (ty, p0, p1) =
    rw (kind_of-name fs Kind.fatal (unfold kind_name in ty)) (rw (p0, p1))
Conforms-kind fs (BridgeMessage.bridge_error id error traceback) (ty, p0, p1, p2) =
    rw (kind_of-name fs Kind.bridge_error (unfold kind_name in ty))
      (rw (as_request_id-IsRequestId _ id p0, p1, p2))
Conforms-kind fs (BridgeMessage.clear id) (ty, p0) =
    rw (kind_of-name fs Kind.clear (unfold kind_name in ty)) (rw (p0))
Conforms-kind fs (BridgeMessage.image id png) (ty, p0, p1) =
    rw (kind_of-name fs Kind.image (unfold kind_name in ty)) (rw (p0, p1))
Conforms-kind fs (BridgeMessage.output id kind chunk continuation final) (ty, p0, p1, p2, p3, p4) =
    rw (kind_of-name fs Kind.output (unfold kind_name in ty)) (rw (p0, p1, p2, p3, p4))
Conforms-kind fs (BridgeMessage.result id status count value error) (ty, p0, p1, p2, pv, p3) =
    rw (kind_of-name fs Kind.result (unfold kind_name in ty))
      (rw (p0, p1, as_count-IsCount _ count p2, as_error-IsError _ error p3, pv))

-- A value that is an object, and conforms to the schema as this message.
unfoldable pub IsMessage : JsonValue → BridgeMessage → Type 0
IsMessage (object fs) m = Conforms fs m
IsMessage null m = ⊥
IsMessage (boolean b) m = ⊥
IsMessage (number n) m = ⊥
IsMessage (string t) m = ⊥
IsMessage (array vs) m = ⊥

object_iff :
    (fs : Fields) (m : BridgeMessage) → (as_bridge_message (object fs) ≡ some m) ↔ Conforms fs m
object_iff fs m = (sound, Conforms-kind fs m)
  where
    sound : as_bridge_message (object fs) ≡ some m → Conforms fs m
    sound h =
        unfold as_bridge_message in
        let (k, e, found) = >>=-some (kind_of fs) _ h in
        read_message-Conforms k fs m (kind_of-some fs k e) found

-- The guard decides the protocol's schema: of all JSON values it passes exactly the objects that
-- conform to it, as the message that they conform to. It passes no null, array or primitive value.
pub as_bridge_message_iff :
    (v : JsonValue) (m : BridgeMessage) → (as_bridge_message v ≡ some m) ↔ IsMessage v m
unfolding as_bridge_message IsMessage
as_bridge_message_iff (object fs) m = object_iff fs m
as_bridge_message_iff null m = ((λ h. cc), (λ h. absurd h))
as_bridge_message_iff (boolean b) m = ((λ h. cc), (λ h. absurd h))
as_bridge_message_iff (number n) m = ((λ h. cc), (λ h. absurd h))
as_bridge_message_iff (string t) m = ((λ h. cc), (λ h. absurd h))
as_bridge_message_iff (array vs) m = ((λ h. cc), (λ h. absurd h))
