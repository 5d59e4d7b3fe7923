-- ===== src/Protected.antt =====
-- protected.go: the storage below the policy layers. The policy engine of package access decides
-- what is executed; here are the operations that it inspects, and their evidence.
pub mod Definition
pub mod Revision
pub mod Prepare
pub mod Execution
use dalgo2ingitdb.Base.{String, Bool, true, false, Option, List}
use dalgo2ingitdb.Base.Value.{Fields}
use dalgo2ingitdb.Base.Result.{Error}
use dalgo2ingitdb.Schema.{Bytes}
use dalgo2ingitdb.Records.{Key}
use dalgo2ingitdb.Updates.{NewValue}

-- `Action()` of an operation
pub data OpAction : Type 0 where
  insert set update delete other : OpAction

-- One update of an operation; no path is empty.
pub record FieldChange : Type 0 where
  pub path : List String
  pub value : NewValue
  pub delete : Bool

-- `access.ProtectedOperation`; the data may be nil
pub record ProtectedOperation : Type 0 where
  pub id : String
  pub action : OpAction
  pub key : Key
  pub canonical_target : String
  pub data' : Option Fields
  pub updates : List FieldChange

-- `access.ProtectedEvidence`. Values do not change, so that the copies of the images are left out.
pub record ProtectedEvidence : Type 0 where
  pub operation_id : String
  pub canonical_target : String
  pub snapshot_token : String
  pub exists : Bool
  pub pre_image : Option Fields
  pub candidate_image : Option Fields
  pub data_revision : String
  pub candidate_revision : String
  pub complete : Bool

-- HMAC-SHA-256 of a message under a secret, as hexadecimal text, the bytes of a string, and
-- `os.IsNotExist`.
pub record Secrets : Type 0 where
  pub hmac_text : Bytes → Bytes → String
  pub text_bytes : String → Bytes
  pub is_not_exist : Error → Bool

abbrev pub is_delete : OpAction → Bool
is_delete OpAction.delete = true
is_delete action = false

abbrev pub is_update : OpAction → Bool
is_update OpAction.update = true
is_update action = false
