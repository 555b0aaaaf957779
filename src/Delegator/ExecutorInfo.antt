-- ===== src/Delegator/ExecutorInfo.antt =====
-- src/delegator/executor_info.rs and src/delegator/key_gen/initial_pinner_info.rs
use gluon_actor.Base.{String}
use gluon_actor.Base.Bytes.{Bytes}

pub record ExecutorInfo : Type 0 where
  pub peer_id : String
  pub rsa_pub_key : Bytes

pub record InitialPinnerInfo : Type 0 where
  pub peer_id : String
  pub rsa_pub_key : Bytes

-- `From<ExecutorInfo> for InitialPinnerInfo`
abbrev pub from_executor : ExecutorInfo → InitialPinnerInfo
from_executor exe = record { peer_id = exe.peer_id; rsa_pub_key = exe.rsa_pub_key }
