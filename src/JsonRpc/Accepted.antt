-- ===== src/JsonRpc/Accepted.antt =====
-- Which envelopes `parse_request` accepts, as what, and how it answers the others.
use server_mcp_bridge.Base.{
  ◌≡◌, refl, ◌↔◌, inl, inr, Bool, true, false, Option, none, some, arith, Text, codes, text_eq_iff,
  Bool-cases,
}
use server_mcp_bridge.Json.{Json, null, integer, real, str, arr, obj, Fields, end, get, lit}
use server_mcp_bridge.JsonRpc.{
  Request, accepted, parse_request, with_params, with_id, with_method, is_version,
}

-- The identifier of a request, from its field: absent and null make a notification.
abbrev pub IdOf : Option Json → Json → Bool → Type 0
IdOf none id has_id = (id ≡ null) × (has_id ≡ false)
IdOf (some null) id has_id = (id ≡ null) × (has_id ≡ false)
IdOf (some (str s)) id has_id = (id ≡ str s) × (has_id ≡ true)
IdOf (some (integer n)) id has_id = (id ≡ integer n) × (has_id ≡ true)
IdOf (some (real n)) id has_id = (id ≡ real n) × (has_id ≡ true)
IdOf (some _) id has_id = ⊥

-- The parameters of a request, from its field.
abbrev pub ParamsOf : Option Json → Json → Type 0
ParamsOf none params = params ≡ obj end
ParamsOf (some (obj fs)) params = params ≡ obj fs
ParamsOf (some (arr xs)) params = params ≡ arr xs
ParamsOf (some _) params = ⊥

-- A JSON-RPC 2.0 request object, as what the program takes it.
pub record IsEnvelope (fs : Fields) (r : Request) : Type 0 where
  pub version : get (codes "jsonrpc") fs ≡ some (lit "2.0")
  pub method : get (codes "method") fs ≡ some (str r.method)
  pub id : IdOf (get (codes "id") fs) r.id r.has_id
  pub params : ParamsOf (get (codes "params") fs) r.params

abbrev pub IsRequest : Json → Request → Type 0
IsRequest (obj fs) r = IsEnvelope fs r
IsRequest _ r = ⊥

with_params-accepted :
    (m : Text) (id : Json) (has_id : Bool) (p : Option Json) (r : Request)
    → with_params m id has_id p ≡ accepted r
    → ParamsOf p r.params × (r.method ≡ m) × (r.id ≡ id) × (r.has_id ≡ has_id)
unfolding with_params
with_params-accepted m id has_id none r h = ground arith
with_params-accepted m id has_id (some (obj fs)) r h = ground arith
with_params-accepted m id has_id (some (arr xs)) r h = ground arith
with_params-accepted m id has_id (some _) r h = cc

with_params_complete :
    (m : Text) (id : Json) (has_id : Bool) (p : Option Json) (r : Request)
    → ParamsOf p r.params
    → r.method ≡ m
    → r.id ≡ id
    → r.has_id ≡ has_id
    → with_params m id has_id p ≡ accepted r
unfolding with_params
with_params_complete m id has_id none r h a b c = ground arith
with_params_complete m id has_id (some (obj fs)) r h a b c = ground arith
with_params_complete m id has_id (some (arr xs)) r h a b c = ground arith
with_params_complete m id has_id (some _) r h a b c = absurd h

with_id-accepted :
    (fs : Fields) (m : Text) (i : Option Json) (r : Request)
    → with_id fs m i ≡ accepted r
    → IdOf i r.id r.has_id × ParamsOf (get (codes "params") fs) r.params × (r.method ≡ m)
unfolding with_id
with_id-accepted fs m none r h =
    let p = with_params-accepted m null false _ r h in ((p.2, p.3), p.0, p.1)
with_id-accepted fs m (some null) r h =
    let p = with_params-accepted m null false _ r h in ((p.2, p.3), p.0, p.1)
with_id-accepted fs m (some (str s)) r h =
    let p = with_params-accepted m (str s) true _ r h in ((p.2, p.3), p.0, p.1)
with_id-accepted fs m (some (integer n)) r h =
    let p = with_params-accepted m (integer n) true _ r h in ((p.2, p.3), p.0, p.1)
with_id-accepted fs m (some (real n)) r h =
    let p = with_params-accepted m (real n) true _ r h in ((p.2, p.3), p.0, p.1)
with_id-accepted fs m (some _) r h = cc

with_id_complete :
    (fs : Fields) (m : Text) (i : Option Json) (r : Request)
    → IdOf i r.id r.has_id
    → ParamsOf (get (codes "params") fs) r.params
    → r.method ≡ m
    → with_id fs m i ≡ accepted r
unfolding with_id
with_id_complete fs m none r h p e = with_params_complete m null false _ r p e h.0 h.1
with_id_complete fs m (some null) r h p e = with_params_complete m null false _ r p e h.0 h.1
with_id_complete fs m (some (str s)) r h p e = with_params_complete m (str s) true _ r p e h.0 h.1
with_id_complete fs m (some (integer n)) r h p e =
    with_params_complete m (integer n) true _ r p e h.0 h.1
with_id_complete fs m (some (real n)) r h p e = with_params_complete m (real n) true _ r p e h.0 h.1
with_id_complete fs m (some _) r h p e = absurd h

is_version_lem : (o : Option Json) → is_version o ≡ true → o ≡ some (lit "2.0")
unfolding is_version
is_version_lem (some (str v)) h = ground (arith, text_eq_iff v (codes "2.0"))
is_version_lem none h = cc
is_version_lem (some _) h = cc

with_method-accepted :
    (fs : Fields) (o : Option Json) (r : Request)
    → with_method fs o ≡ accepted r
    → (o ≡ some (str r.method))
      × IdOf (get (codes "id") fs) r.id r.has_id
      × ParamsOf (get (codes "params") fs) r.params
unfolding with_method
with_method-accepted fs (some (str m)) r h =
    let p = with_id-accepted fs m _ r h in (rw p.2, p.0, p.1)
with_method-accepted fs none r h = cc
with_method-accepted fs (some _) r h = cc

parse_object : (fs : Fields) (r : Request) → parse_request (obj fs) ≡ accepted r → IsEnvelope fs r
unfolding parse_request
parse_object fs r h = elim (Bool-cases (is_version (get (codes "jsonrpc") fs))) [
  | inl v ↦
      let p = with_method-accepted fs (get (codes "method") fs) r (ground (arith, h)) in
      record { version = is_version_lem _ v; method = p.0; id = p.1; params = p.2 }
  | inr v ↦ absurd (ground (arith, h))
]

sound : (doc : Json) (r : Request) → parse_request doc ≡ accepted r → IsRequest doc r
unfolding parse_request
sound (obj fs) r h = parse_object fs r h
sound (arr xs) r h = cc
sound _ r h = cc

complete : (doc : Json) (r : Request) → IsRequest doc r → parse_request doc ≡ accepted r
unfolding parse_request with_method is_version
complete (obj fs) r v =
    rw (v.version, v.method) (with_id_complete fs r.method _ r v.id v.params refl)
complete (arr xs) r v = absurd v
complete _ r v = absurd v

-- `parse_request` accepts exactly the JSON-RPC 2.0 request objects: `jsonrpc` is "2.0", `method` a
-- string, `id` a string, a number, null or absent, and `params` an object, an array or absent. It
-- takes a null `id` for a notification, and absent `params` for an empty object.
pub parse_request_iff :
    (doc : Json) (r : Request) → (parse_request doc ≡ accepted r) ↔ IsRequest doc r
parse_request_iff doc r = (sound doc r, complete doc r)
