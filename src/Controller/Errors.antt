-- ===== src/Controller/Errors.antt =====
-- internal/controller/operations.go, controller.go, internal/openbao/client.go and
-- internal/events/event.go: the failures of operations. An error keeps its code, its marks and its
-- part, and not its text.
use wyrwood.Base.{Bool, false, Option, none}
use wyrwood.Policy.Types.{Part}
use wyrwood.Store.Tables.{StoreError}

-- openbao.Category; CategoryOf of any error is one of them.
pub data Category : Type 0 where
  unavailable denied timeout invalid not_found : Category

-- The codes that the controller gives; ErrorNone is no code here.
pub data ErrorCode : Type 0 where
  controller_unavailable openbao_unavailable openbao_denied openbao_timeout : ErrorCode
  not_bound policy_denied operator_not_allowed recreate_not_allowed outside_grant : ErrorCode
  protocol internal : ErrorCode

pub record OperationError : Type 0 where
  pub code : ErrorCode
  pub token_live : Bool
  pub policy_missing : Bool
  pub policy_bound : Bool
  pub part : Option Part

-- operationError
abbrev pub operation_error : ErrorCode → OperationError
operation_error code = record {
  code = code;
  token_live = false;
  policy_missing = false;
  policy_bound = false;
  part = none;
}

-- partOperationError
abbrev pub part_error : Option Part → ErrorCode → OperationError
part_error part code = record (operation_error code) { part = part }

-- What applyBinding and the retirement of identities return: an error of OpenBao, an error of the
-- store, or one of their own.
pub data Trouble : Type 0 where
  bao : Category → Trouble
  disk : StoreError → Trouble
  own : Trouble

-- CategoryOf
abbrev pub category_of : Trouble → Category
category_of (bao c) = c
category_of (disk _) = unavailable
category_of own = unavailable

-- openBaoError
unfoldable pub open_bao_error : Category → ErrorCode
open_bao_error Category.denied = openbao_denied
open_bao_error Category.timeout = openbao_timeout
open_bao_error Category.invalid = policy_denied
open_bao_error Category.not_found = policy_denied
open_bao_error Category.unavailable = openbao_unavailable
