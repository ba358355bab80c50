-- ===== src/Leader/Nodes.antt =====
-- nodes/leaderNode_helper/registration_helper.go: the file registered_nodes.json.
use drb_node.Base.{Bytes, Option, []}
use drb_node.Base.Maps.{Map}
use drb_node.Go.File.{JsonFile, Error, not_exist, Result, ok, err, read_file, create_file}
use drb_node.Leader.State.{NodeInfo}

unfoldable pub nodes_or_empty : Result (Map Bytes NodeInfo) → Result (Map Bytes NodeInfo)
nodes_or_empty (err not_exist) = ok []
nodes_or_empty (err e) = err e
nodes_or_empty (ok m) = ok m

-- LoadRegisteredNodes
unfoldable pub load_registered_nodes :
    JsonFile NodeInfo → Result (Map Bytes NodeInfo) × JsonFile NodeInfo
unfolding nodes_or_empty
load_registered_nodes file = let (r, file') = read_file file in (nodes_or_empty r, file')

-- SaveRegisteredNodes
unfoldable pub save_registered_nodes :
    Map Bytes NodeInfo → JsonFile NodeInfo → Option Error × JsonFile NodeInfo
save_registered_nodes nodes file = create_file nodes file
