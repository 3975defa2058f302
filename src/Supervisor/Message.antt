-- ===== src/Supervisor/Message.antt =====
-- The JSON-RPC messages of resources/scripts/napseer_mcp_supervisor.py: what is read off a line.
use Prim.Native.Char.{code}
use nap_cli.Prelude.{
  ℕ, String, Bool, true, false, Option, none, some, List, [], ◌∷◌, ◌++◌, ◌==◌ as nat_eq, string_eq,
  ◌=?◌, if◌then◌else◌,
}
use nap_cli.Prelude.Int.{ℤ, negsuc}
use nap_cli.Prelude.Json.{Json, null, num, str, obj, Fields, end, field, get, get_or_null, truthy}

abbrev pub Bytes : Type 0
Bytes = List ℕ

-- The code points of an ASCII text, its bytes.
abbrev pub bytes_of : String → Bytes
bytes_of String.[] = []
bytes_of (String.◌∷◌ c s) = code c ∷ bytes_of s

-- Python's json: `loads` gives `none` for a ValueError, `dumps` is the compact form in UTF-8.
-- `text` is str() of a value. `max_in_flight` is MAX_IN_FLIGHT_REQUESTS.
pub record Config : Type 0 where
  pub loads : Bytes → Option Json
  pub dumps : Json → Bytes
  pub text : Json → String
  pub max_in_flight : ℕ

abbrev pub newline : ℕ
newline = 10

abbrev pub ends_with_newline : Bytes → Bool
ends_with_newline [] = false
ends_with_newline (b ∷ []) = nat_eq b newline
ends_with_newline (b ∷ c ∷ bytes) = ends_with_newline (c ∷ bytes)

-- `line if line.endswith(b"\n") else line + b"\n"`
abbrev pub with_newline : Bytes → Bytes
with_newline line = if ends_with_newline line then line else line ++ newline ∷ []

abbrev as_dict : Option Json → Option Fields
as_dict (some (obj fields)) = some fields
as_dict (some _) = none
as_dict none = none

module _ (c : Config) where
  unfoldable pub parse_message : Bytes → Option Fields
  parse_message message = as_dict (c.loads message)

  unfoldable pub request_id : Bytes → Json
  unfolding parse_message
  request_id message = elim (parse_message message) [
    | none ↦ null
    | some payload ↦ get_or_null "id" payload
  ]

  unfoldable pub request_key : Json → Bytes
  request_key value = c.dumps value

  -- `str(payload.get("method") or "")`
  abbrev pub method_of : Fields → String
  method_of payload =
      let value = get_or_null "method" payload in if truthy value then c.text value else ""

  unfoldable pub request_method : Bytes → String
  unfolding parse_message
  request_method message = elim (parse_message message) [
    | none ↦ ""
    | some payload ↦ method_of payload
  ]

  unfoldable pub is_notification : Bytes → Bool
  unfolding parse_message
  is_notification message = elim (parse_message message) [
    | none ↦ false
    | some payload ↦ elim (get "id" payload) [ none ↦ true | some _ ↦ false ]
  ]

  -- `payload.get("method") == text`
  abbrev pub is_method : String → Fields → Bool
  is_method text payload = elim (get_or_null "method" payload) [ str s ↦ s =? text | _ ↦ false ]

  -- `params = payload.get("params") or {}`, and its "requestId" if it is a dict that has one
  abbrev pub params_request_id : Fields → Option Json
  params_request_id payload =
      let value = get_or_null "params" payload in
      if truthy value then elim value [ obj params ↦ get "requestId" params | _ ↦ none ] else none

  -- `none` for (False, None)
  unfoldable pub cancelled_request_id : Bytes → Option Json
  unfolding parse_message
  cancelled_request_id message = elim (parse_message message) [
    | none ↦ none
    | some payload ↦
        if is_method "notifications/cancelled" payload then params_request_id payload else none
  ]

  abbrev error_code : Bool → ℤ
  error_code true = negsuc 32096
  error_code false = negsuc 32097

  abbrev error_message : Bool → String
  error_message true =
      "Napseer MCP is busy or this request id is still active. This request was not started; retry later."
  error_message false =
      "Napseer MCP could not complete this request. The outcome may be uncertain; inspect state before retrying a mutation."

  abbrev pub error_payload : Json → Bool → Json
  error_payload id rejected = obj (
      field "jsonrpc" (str "2.0") (
        field "id" id (
          field "error"
            (obj (
              field "code" (num (error_code rejected))
                (field "message" (str (error_message rejected)) end)))
            end)))

  unfoldable pub worker_error : Bytes → Bool → Bytes
  unfolding request_id
  worker_error message rejected =
      c.dumps (error_payload (request_id message) rejected) ++ newline ∷ []
