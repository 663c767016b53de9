-- ===== src/JsonRpc/Rejected.antt =====
-- How `parse_request` answers an envelope that it does not accept.
use server_mcp_bridge.Base.{
  ◌≡◌, refl, ◌⊎◌, inl, inr, Bool, true, false, Option, none, some, arith, Text, codes, Bool-cases,
}
use server_mcp_bridge.Json.{Json, null, integer, real, str, arr, obj, Fields, get}
use server_mcp_bridge.JsonRpc.{
  rejected, make_error, invalid_request, parse_request, with_params, with_id, with_method,
  is_version,
}

-- The field of an object, and nothing of another value.
abbrev pub field_of : Text → Json → Option Json
field_of k (obj fs) = get k fs
field_of k _ = none

-- An error response with the code for an invalid request, and with the identifier of the request
-- where it had one that could be read.
pub record IsRefusal (given : Option Json) (e : Json) : Type 0 where
  pub id : Json
  pub message : Text
  pub envelope : e ≡ make_error id invalid_request message
  pub known : (id ≡ null) ⊎ (given ≡ some id)

with_params-rejected :
    (m : Text) (id : Json) (has_id : Bool) (p : Option Json) (given : Option Json) (e : Json)
    → (id ≡ null) ⊎ (given ≡ some id)
    → with_params m id has_id p ≡ rejected e
    → IsRefusal given e
unfolding with_params
with_params-rejected m id has_id none given e k h = cc
with_params-rejected m id has_id (some (obj fs)) given e k h = cc
with_params-rejected m id has_id (some (arr xs)) given e k h = cc
with_params-rejected m id has_id (some _) given e k h = record {
  id = id;
  message = codes "params must be an object or array";
  envelope = ground arith;
  known = k;
}

with_id-rejected :
    (fs : Fields) (m : Text) (i : Option Json) (e : Json)
    → with_id fs m i ≡ rejected e
    → IsRefusal i e
unfolding with_id
with_id-rejected fs m none e h = with_params-rejected m null false _ none e (inl refl) h
with_id-rejected fs m (some null) e h =
    with_params-rejected m null false _ (some null) e (inl refl) h
with_id-rejected fs m (some (str s)) e h =
    with_params-rejected m (str s) true _ (some (str s)) e (inr refl) h
with_id-rejected fs m (some (integer n)) e h =
    with_params-rejected m (integer n) true _ (some (integer n)) e (inr refl) h
with_id-rejected fs m (some (real n)) e h =
    with_params-rejected m (real n) true _ (some (real n)) e (inr refl) h
with_id-rejected fs m (some _) e h = record {
  id = null;
  message = codes "id must be a string or number";
  envelope = ground arith;
  known = inl refl;
}

with_method-rejected :
    (fs : Fields) (o : Option Json) (e : Json)
    → with_method fs o ≡ rejected e
    → IsRefusal (get (codes "id") fs) e
unfolding with_method
with_method-rejected fs (some (str m)) e h = with_id-rejected fs m _ e h
with_method-rejected fs none e h = record {
  id = null;
  message = codes "method must be a string";
  envelope = ground arith;
  known = inl refl;
}
with_method-rejected fs (some _) e h = record {
  id = null;
  message = codes "method must be a string";
  envelope = ground arith;
  known = inl refl;
}

object-rejected :
    (fs : Fields) (e : Json)
    → parse_request (obj fs) ≡ rejected e
    → IsRefusal (get (codes "id") fs) e
unfolding parse_request
object-rejected fs e h = elim (Bool-cases (is_version (get (codes "jsonrpc") fs))) [
  | inl v ↦ with_method-rejected fs (get (codes "method") fs) e (ground arith)
  | inr v ↦ record {
    id = null;
    message = codes "jsonrpc must be \"2.0\"";
    envelope = ground arith;
    known = inl refl;
  }
]

-- An envelope that is not accepted is answered by an error with the code -32600, whose identifier is
-- null or the one that the envelope carries.
pub parse_request-IsRefusal :
    (doc e : Json) → parse_request doc ≡ rejected e → IsRefusal (field_of (codes "id") doc) e
unfolding parse_request
parse_request-IsRefusal (obj fs) e h = object-rejected fs e h
parse_request-IsRefusal (arr xs) e h = record {
  id = null;
  message = codes "batch requests are not supported";
  envelope = ground arith;
  known = inl refl;
}
parse_request-IsRefusal _ e h = record {
  id = null;
  message = codes "request must be a JSON object";
  envelope = ground arith;
  known = inl refl;
}
