-- ===== src/User/Api/Tests.antt =====
-- A node that is pushed on an empty path.
use os_agent.Base.{◌-◌, ◌≡◌, refl, some, List, [], ◌∷◌, ◌++◌, length, arith}
use os_agent.Base.Bytes.{UserMemory}
use os_agent.Base.Results.{ok}
use os_agent.Ext.{AgentExt, PathNodeMeta, normal}
use os_agent.Ext
use os_agent.Path.{push_node, node_total_size}
use os_agent.Path.Evict.{IsValid}
use os_agent.User.Api.{read_path_node_zero_copy}
use os_agent.User.Api.Node.{read_path_node_zero_copy-push_node}

abbrev agent : AgentExt
agent = Ext.new normal 0x8000_0000 65536 128 16384

abbrev blank : UserMemory
blank x = 0

agent-IsValid : IsValid 0 agent
unfolding Ext.new
agent-IsValid = omega arith

read_path_node_zero_copy-push_node_example :
    (ext' : AgentExt) × (mem' : UserMemory) × (front : List PathNodeMeta) × (last : PathNodeMeta)
    × (push_node agent blank 8 (1 ∷ []) (2 ∷ 3 ∷ []) ≡ ok (length ext'.path_meta - 1, ext', mem'))
    × (ext'.path_meta ≡ front ++ (last ∷ []))
    × (read_path_node_zero_copy mem' last ≡ some (1 ∷ [], 2 ∷ 3 ∷ []))
unfolding node_total_size Ext.new
read_path_node_zero_copy-push_node_example =
    read_path_node_zero_copy-push_node 0 8 agent blank (1 ∷ []) (2 ∷ 3 ∷ []) agent-IsValid
      (omega arith) (omega arith) (omega arith) (omega arith) refl
