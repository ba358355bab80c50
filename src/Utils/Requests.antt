-- ===== src/Utils/Requests.antt =====
-- utils/utils.go and utils/commit.go: what the nodes send to one another.
use drb_node.Base.{Bytes}
use drb_node.Base.Maps.{Map}

pub record RegistrationRequest : Type 0 where
  pub eoa_address : Bytes
  pub signature : Bytes
  pub peer_id : Bytes

pub record SecretValueRequest : Type 0 where
  pub eoa_address : Bytes
  pub round : Bytes
  pub signature : Bytes
  pub secret_value : Bytes

pub record CommitRequest : Type 0 where
  pub round : Bytes
  pub cvs : Bytes
  pub eoa_address : Bytes
  pub signature : Bytes
  pub sign : Map Bytes Bytes

pub record CosRequest : Type 0 where
  pub round : Bytes
  pub cos : Bytes
  pub eoa_address : Bytes
  pub signature : Bytes

pub record Request : Type 0 where
  pub round : Bytes
  pub eoa_address : Bytes
  pub signature : Bytes
