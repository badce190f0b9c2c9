-- ===== src/Calls/Paths.antt =====
-- The calls on the context path: with the checks and copies of the call around it, the path behaves
-- as its abstract specification says.
use Prim.Native.Nat.{◌-◌}
use os_agent.Base.{
  ℕ, zero, suc, ◌+◌, ◌≤◌, ◌<◌, ◌≡◌, refl, ap, ◌∙◌, false, some, List, length, replicate, get_or,
  ◌==◌, if◌then◌else◌, ltb, u64_mod, arith,
}
use os_agent.Base.Bytes.{UserMemory, length-read_user_bytes, get_or-read_user_bytes}
use os_agent.Base.Results.{pos}
use os_agent.Ext.{AgentExt}
use os_agent.Path.{node_total_size}
use os_agent.Path.Evict.{IsValid}
use os_agent.Path.Push.{IsPushed, push_node-refines}
use os_agent.Path.Rollback.{IsRolledBack, rollback-refines}
use os_agent.Calls.{
  System, ext_of, with_ext, set_memory, copy_or_zero, pushed_to, rolled_to, sys_context_push,
  sys_context_rollback,
}
use os_agent.Calls.Agents.{on_agent-some, own_ext}

length-replicate : (n b : ℕ) → length (replicate n b) ≡ n
length-replicate zero b = refl
length-replicate (suc n) b = ap suc (length-replicate n b)

length-copy_or_zero : (mem : UserMemory) (ptr len : ℕ) → length (copy_or_zero mem ptr len) ≡ len
unfolding copy_or_zero
length-copy_or_zero mem ptr len =
    ground (arith, length-read_user_bytes mem ptr len, length-replicate len 0)

-- The text of `len` bytes at `ptr`, which is all zeros where the pointer is null.
pub record IsText (mem : UserMemory) (ptr len : ℕ) (text : List ℕ) : Type 0 where
  pub size : length text ≡ len
  pub byte : (i : ℕ) → i < len → get_or text i 0 ≡ (if ptr == 0 then 0 else mem (ptr + i))

zero_byte : (n i : ℕ) → ◌≡◌ {A = ℕ} (get_or (replicate n 0) i 0) 0
zero_byte zero i = refl
zero_byte (suc n) zero = refl
zero_byte (suc n) (suc i) = zero_byte n i

copy_or_zero-IsText :
    (mem : UserMemory) (ptr len : ℕ) → IsText mem ptr len (copy_or_zero mem ptr len)
unfolding copy_or_zero
copy_or_zero-IsText mem ptr len = record {
  size = length-copy_or_zero mem ptr len;
  byte = copied mem ptr len;
}
  where
    copied :
        (mem : UserMemory) (ptr len i : ℕ)
        → i < len
        → get_or (copy_or_zero mem ptr len) i 0 ≡ (if ptr == 0 then 0 else mem (ptr + i))
    copied mem ptr len i h =
        ground (arith, h, get_or-read_user_bytes mem ptr len i h, zero_byte len i)

own_memory : (memories : ℕ → UserMemory) (me : ℕ) (m : UserMemory) → set_memory memories me m me ≡ m
own_memory memories me m = ground arith

-- A push by an agent with a valid path succeeds, if the texts are at most 4096 bytes long and the
-- node fits in the quota: the call returns the index of the new last node, and the agent and its
-- memory are those that the push of the two texts leaves. A text is the bytes at its pointer, or zeros
-- where the pointer is null. The clock does not run backwards, and
-- the number of the node does not wrap.
pub sys_context_push-refines :
    (s : System) (me t now req_ptr req_len resp_ptr resp_len : ℕ) (ext : AgentExt)
    → ext_of s me ≡ some ext
    → IsValid t ext
    → t ≤ now
    → ext.next_seq + 1 < u64_mod
    → 0 < ext.path_quota.max_nodes
    → node_total_size req_len resp_len ≤ ext.path_quota.max_bytes
    → req_len ≤ 4096
    → resp_len ≤ 4096
    → let (r, s') = sys_context_push s me now req_ptr req_len resp_ptr resp_len in
      (ext' : AgentExt) × (r ≡ pos (length ext'.path_meta - 1))
      × (ext_of s' me ≡ some ext')
      × ((req : List ℕ) × (resp : List ℕ) × IsText (s.memories me) req_ptr req_len req
          × IsText (s.memories me) resp_ptr resp_len resp
          × IsPushed now ext (s.memories me) req resp ext' (s'.memories me))
unfolding sys_context_push pushed_to
sys_context_push-refines s me t now req_ptr req_len resp_ptr resp_len ext is_agent h later seq_fits
      some_node fits req_short resp_short =
    let mem = s.memories me in
    let req = copy_or_zero mem req_ptr req_len in
    let resp = copy_or_zero mem resp_ptr resp_len in
    let same_size : node_total_size (length req) (length resp) ≡ node_total_size req_len resp_len =
      ap (λ n. node_total_size n (length resp)) (length-copy_or_zero mem req_ptr req_len)
      ∙ ap (node_total_size req_len) (length-copy_or_zero mem resp_ptr resp_len) in
    let (ext', mem', run, p) =
      push_node-refines t now ext mem req resp h later seq_fits some_node
        (omega (arith, same_size, fits)) in
    let short : ltb 4096 req_len ≡ false = ground (arith, req_short) in
    let short' : ltb 4096 resp_len ≡ false = ground (arith, resp_short) in
    let called : sys_context_push s me now req_ptr req_len resp_ptr resp_len ≡ (
      pos (length ext'.path_meta - 1),
      record (with_ext s me ext') { memories = set_memory s.memories me mem' },
    ) =
      rw (short, short') (on_agent-some s me _ ext is_agent ∙ ap (pushed_to s me) run) in
    rw (called, own_memory s.memories me mem')
      (
        ext',
        refl,
        own_ext s me ext',
        (
          req,
          resp,
          copy_or_zero-IsText mem req_ptr req_len,
          copy_or_zero-IsText mem resp_ptr resp_len,
          p,
        ),
      )

-- Going back to at most as many nodes as there are succeeds for an agent with a valid path: the agent
-- and its memory are those that the rollback leaves.
pub sys_context_rollback-refines :
    (s : System) (me t n : ℕ) (ext : AgentExt)
    → ext_of s me ≡ some ext
    → IsValid t ext
    → n ≤ length ext.path_meta
    → let (r, s') = sys_context_rollback s me n in
      (r ≡ pos 0)
      × ((ext' : AgentExt) × (ext_of s' me ≡ some ext')
          × IsRolledBack t ext (s.memories me) n ext' (s'.memories me))
unfolding sys_context_rollback rolled_to
sys_context_rollback-refines s me t n ext is_agent h enough =
    let (ext', mem', run, p) = rollback-refines t ext (s.memories me) n h enough in
    let called : sys_context_rollback s me n
        ≡ (pos 0, record (with_ext s me ext') { memories = set_memory s.memories me mem' }) =
      on_agent-some s me _ ext is_agent ∙ ap (rolled_to s me) run in
    rw (called, own_memory s.memories me mem') (refl, (ext', own_ext s me ext', p))
