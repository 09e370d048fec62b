-- ===== src/Rpc/Dispatch.antt =====
-- crates/mlink-core/src/api/rpc.rs, dispatch_request: a request is decoded, given to its handler, and
-- answered. MessagePack, the bytes of a text and the text of an error are the codec's.
use mlink.Prelude.{ℕ, String, List, Option, none, some}
use mlink.Protocol.Errors.{Result, ok, err, MlinkError, unknown_method}
use mlink.Rpc.{
  RpcRequest, RpcResponse, RpcRegistry, handle_request, rpc_status_ok, rpc_status_error,
}

pub record RpcCodec : Type 0 where
  pub encode_request : RpcRequest → Result (List ℕ)
  pub decode_request : List ℕ → Result RpcRequest
  pub encode_response : RpcResponse → Result (List ℕ)
  pub decode_response : List ℕ → Result RpcResponse
  pub bytes_of_text : String → List ℕ
  pub from_utf8 : List ℕ → Option String
  pub display : MlinkError → String

-- An unknown method is answered by its name alone.
abbrev pub text_of : RpcCodec → MlinkError → String
text_of codec (unknown_method m) = m
text_of codec e = codec.display e

-- The status and the bytes for what the handler gave.
abbrev pub replied : RpcCodec → Result (List ℕ) → ℕ × List ℕ
replied codec (ok out) = (rpc_status_ok, out)
replied codec (err e) = (rpc_status_error, codec.bytes_of_text (text_of codec e))

abbrev pub response_to : RpcCodec → RpcRegistry → RpcRequest → RpcResponse
unfolding handle_request
response_to codec g req =
    let (status, out) = replied codec (handle_request g req.method req.bytes) in
    record { request_id = req.request_id; status = status; bytes = out }

abbrev pub responded :
    (List ℕ → Result (Unit {0})) → Result (List ℕ) → Option (List ℕ) × Result (Unit {0})
responded send (err e) = (none, err e)
responded send (ok payload) = (some payload, send payload)

abbrev pub decoded :
    RpcCodec
    → RpcRegistry
    → (List ℕ → Result (Unit {0}))
    → Result RpcRequest
    → Option (List ℕ) × Result (Unit {0})
unfolding response_to
decoded codec g send (err e) = (none, err e)
decoded codec g send (ok req) = responded send (codec.encode_response (response_to codec g req))

-- The payload that was given to the node, if any, and the answer.
unfoldable pub dispatch_request :
    RpcCodec
    → RpcRegistry
    → (List ℕ → Result (Unit {0}))
    → List ℕ
    → Option (List ℕ) × Result (Unit {0})
unfolding decoded
dispatch_request codec g send bytes = decoded codec g send (codec.decode_request bytes)
