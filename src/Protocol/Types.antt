-- ===== src/Protocol/Types.antt =====
-- internal/protocol/protocol.go: the parts of the messages. Go's closed vocabularies are texts,
-- as in the source; the validation of a message refuses any other text.
use wyrwood.Base.{List}
use wyrwood.Base.Text.{Text}

pub record Key : Type 0 where
  pub kind : Text
  pub value : Text

pub record Mount : Type 0 where
  pub source : Text
  pub target : Text

pub record Container : Type 0 where
  pub id : Text
  pub name : Text
  pub state : Text
  pub image : Text
  pub consumer_directory : Text
  pub keys : List Key
  pub mounts : List Mount
  pub env_names : List Text

pub record ContractResult : Type 0 where
  pub binding : Text
  pub outcome : Text
  pub failed_items : List Text
  pub container_id : Text
  pub reason : Text
