-- ===== src/Mpt/Node.antt =====
-- The decoded trie nodes of mpt.go. A Go slice is a list of bytes; where nil and the empty slice
-- differ for a caller, which is the value of a leaf alone, it is an `Option`.
use ioswarm.Common.{Bytes, Option, Map}

-- mptExtNode
pub record MptExtNode : Type 0 where
  pub path : Bytes
  pub child_hash : Bytes

-- mptLeafNode
pub record MptLeafNode : Type 0 where
  pub key : Bytes
  pub value : Option Bytes

-- What decodeNodePb returns: a node type and the one of its three results that the type is for.
pub data Node : Type 0 where
  branch : Map Bytes → Node
  extension : MptExtNode → Node
  leaf : MptLeafNode → Node
