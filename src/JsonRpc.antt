-- ===== src/JsonRpc.antt =====
-- What the program uses of the package `jsonrpc` of the Darknode, which the repository does not
-- hold: the responses with their errors, as an interface that the components take as a parameter.
use lightnode.Common.{String, ◌≡◌, Option}
use lightnode.Common.Eq.{Eq}

-- jsonrpc.ErrorCodeInternal, ErrorCodeInvalidParams and ErrorCodeInvalidRequest.
pub data ErrorCode : Type 0 where
  internal invalid_params invalid_request : ErrorCode

-- The fields of jsonrpc.Error that the program sets; `Data` is always nil.
pub record Error : Type 0 where
  pub code : ErrorCode
  pub message : String

-- A response is made by `NewResponse` from the id of the request, a result and an error. Reading
-- the error or the id of a response gives back what it was made from.
pub record JsonRpc : Type 1 where
  pub RequestId : Type 0
  pub Value : Type 0
  pub Response : Type 0
  pub response_eq : Eq Response
  pub new_response : RequestId → Option Value → Option Error → Response
  pub error : Response → Option Error
  pub result : Response → Option Value
  pub id : Response → RequestId
  pub error-new_response :
      (i : RequestId) (v : Option Value) (e : Option Error) → error (new_response i v e) ≡ e
  pub result-new_response :
      (i : RequestId) (v : Option Value) (e : Option Error) → result (new_response i v e) ≡ v
  pub id-new_response :
      (i : RequestId) (v : Option Value) (e : Option Error) → id (new_response i v e) ≡ i
