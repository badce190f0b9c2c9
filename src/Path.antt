-- ===== src/Path.antt =====
-- os/src/agent/context_path.rs: the context path of an agent. The metadata of its nodes stands in
-- the kernel (`AgentExt`), their bytes in the path buffer of the agent's context area. A function
-- that takes the user's token takes the address space instead, and returns the new one.
pub mod Shift
pub mod Layout
pub mod Spec
pub mod Evict
pub mod Room
pub mod Append
pub mod Push
pub mod Rollback
mod Tests
use os_agent.Base.{
  ℕ, zero, suc, ◌+◌, ◌-◌, ◌%◌, Bool, true, false, ◌||◌, Option, none, some, List, [], ◌∷◌, ◌++◌,
  map, length, get_elem?, take, erase_idx, add32, sub32, add64, u32_mod, ltb, leb, ◌==◌,
  if◌then◌else◌,
}
use os_agent.Base.Bytes.{UserMemory, read_user_bytes, write_user_bytes, to_le_bytes}
use os_agent.Base.Results.{AgentResult, ok, err, quota_exceeded, not_found, internal_error, ◌>>=◌}
use os_agent.Ext.{EvictPolicy, fifo, lru, PathNodeMeta, AgentExt, path_buffer_off, path_buffer_len}

abbrev pub node_header_size : ℕ
node_header_size = 24

unfoldable pub node_total_size : ℕ → ℕ → ℕ
node_total_size req_len resp_len = node_header_size + req_len + resp_len

-- `path_used_bytes` at offset 36 of the area, `path_node_count` at 40.
unfoldable pub sync_header : AgentExt → UserMemory → UserMemory
sync_header ext mem =
    let base = ext.context_area_base in
    let count = length ext.path_meta % u32_mod in
    write_user_bytes (write_user_bytes mem (base + 36) (to_le_bytes 4 ext.path_used_bytes))
      (base + 40) (to_le_bytes 4 count)

-- The four fields of a node's header.
unfoldable pub node_header : ℕ → ℕ → ℕ → ℕ → List ℕ
node_header seq ts req_len resp_len =
    to_le_bytes 8 seq ++ (to_le_bytes 8 ts ++ (to_le_bytes 4 req_len ++ to_le_bytes 4 resp_len))

unfoldable pub write_node_at : UserMemory → ℕ → ℕ → ℕ → ℕ → List ℕ → List ℕ → UserMemory
write_node_at mem path_buffer_va offset seq ts req resp =
    let header = node_header seq ts (length req % u32_mod) (length resp % u32_mod) in
    let abs = path_buffer_va + offset in
    let m1 = write_user_bytes mem abs header in
    let m2 = write_user_bytes m1 (abs + node_header_size) req in
    write_user_bytes m2 (abs + node_header_size + length req) resp

abbrev pub chunk : ℕ
chunk = 256

-- `((len - copied) as usize).min(CHUNK)`
unfoldable pub chunk_size : ℕ → ℕ → ℕ
chunk_size len copied = if ltb (sub32 len copied) chunk then sub32 len copied else chunk

-- The loop of `shift_path_buffer_left`, a chunk of at most 256 bytes a round.
unfoldable pub shift_loop : ℕ → UserMemory → ℕ → ℕ → ℕ → ℕ → ℕ → UserMemory
shift_loop zero mem path_buffer_va from len shift copied = mem
shift_loop (suc fuel) mem path_buffer_va from len shift copied =
    let n = chunk_size len copied in
    let buf = read_user_bytes mem (path_buffer_va + add32 from copied) n in
    let mem' = write_user_bytes mem (path_buffer_va + sub32 (add32 from copied) shift) buf in
    let rest = shift_loop fuel mem' path_buffer_va from len shift (add32 copied n) in
    if ltb copied len then rest else mem

-- A round copies a byte at least, so `len` rounds are enough.
unfoldable pub shift_path_buffer_left : UserMemory → ℕ → ℕ → ℕ → ℕ → UserMemory
shift_path_buffer_left mem path_buffer_va from len shift =
    if len == 0 || shift == 0 then mem else shift_loop len mem path_buffer_va from len shift 0

-- `enumerate().min_by_key(write_time)`: the first index that has the least time.
unfoldable pub min_by_write_time : List PathNodeMeta → ℕ → ℕ → ℕ → ℕ
min_by_write_time [] i best least = best
min_by_write_time (m ∷ ms) i best least =
    let earlier = ltb m.write_time least in
    min_by_write_time ms (i + 1) (if earlier then i else best)
      (if earlier then m.write_time else least)

unfoldable pub pick_by : EvictPolicy → List PathNodeMeta → Option ℕ
pick_by policy [] = none
pick_by fifo (m ∷ ms) = some 0
pick_by lru (m ∷ ms) = some (min_by_write_time ms 1 0 m.write_time)

unfoldable pub pick_victim : AgentExt → Option ℕ
unfolding pick_by
pick_victim ext = pick_by ext.path_quota.policy ext.path_meta

-- `m.offset_in_buffer -= victim.len` for the nodes at or behind `move_from`.
unfoldable pub move_down : ℕ → ℕ → PathNodeMeta → PathNodeMeta
move_down move_from len m =
    if leb move_from m.offset_in_buffer
    then record m { offset_in_buffer = sub32 m.offset_in_buffer len }
    else m

-- The removal of the node at a given index: its bytes, its metadata, the count of bytes.
unfoldable pub evict_node : AgentExt → UserMemory → ℕ → PathNodeMeta → AgentExt × UserMemory
evict_node ext mem victim_idx victim =
    let path_buffer_va = ext.context_area_base + path_buffer_off in
    let move_from = add32 victim.offset_in_buffer victim.len in
    let move_len = ext.path_used_bytes - move_from in
    (
      record ext {
        path_meta = map (move_down move_from victim.len) (erase_idx ext.path_meta victim_idx);
        path_used_bytes = ext.path_used_bytes - victim.len;
      },
      shift_path_buffer_left mem path_buffer_va move_from move_len victim.len,
    )

-- `path_meta[victim_idx]` out of range would panic: `internal_error` stands for that.
unfoldable pub evict_at : AgentExt → UserMemory → Option ℕ → AgentResult (AgentExt × UserMemory)
evict_at ext mem none = err not_found
evict_at ext mem (some victim_idx) = elim (get_elem? ext.path_meta victim_idx) [
  | none ↦ err internal_error
  | some victim ↦ ok (evict_node ext mem victim_idx victim)
]

unfoldable pub evict_one : AgentExt → UserMemory → AgentResult (AgentExt × UserMemory)
unfolding evict_at
evict_one ext mem = evict_at ext mem (pick_victim ext)

-- The test of the eviction loop of `push_node`.
unfoldable pub must_evict : AgentExt → ℕ → Bool
must_evict ext size =
    ltb ext.path_quota.max_bytes (add32 ext.path_used_bytes size)
    || leb ext.path_quota.max_nodes (length ext.path_meta % u32_mod)

unfoldable pub is_empty {ℓ} : {A : Type ℓ} → List A → Bool
is_empty [] = true
is_empty (x ∷ xs) = false

-- The eviction loop of `push_node`. Every round removes a node, so one round more than there are
-- nodes is enough; `internal_error` on no fuel is never reached from there.
unfoldable pub make_room : ℕ → AgentExt → UserMemory → ℕ → AgentResult (AgentExt × UserMemory)
make_room zero ext mem size = err internal_error
make_room (suc fuel) ext mem size =
    let more = (do (a, m) ← evict_one ext mem; make_room fuel a m size) in
    if must_evict ext size
    then (if is_empty ext.path_meta then err internal_error else more)
    else ok (ext, mem)

-- What `push_node` does once there is room; the index of the new node comes first.
unfoldable pub append_node :
    AgentExt → UserMemory → ℕ → ℕ → List ℕ → List ℕ → ℕ × AgentExt × UserMemory
append_node ext mem now size req resp =
    let offset = ext.path_used_bytes in
    let path_buffer_va = ext.context_area_base + path_buffer_off in
    let written = write_node_at mem path_buffer_va offset ext.next_seq now req resp in
    let node : PathNodeMeta = record {
      offset_in_buffer = offset;
      len = size;
      write_time = now;
      seq = ext.next_seq;
    } in
    let ext' = record ext {
      path_meta = ext.path_meta ++ (node ∷ []);
      path_used_bytes = add32 ext.path_used_bytes size;
      next_seq = add64 ext.next_seq 1;
    } in
    (length ext'.path_meta - 1, ext', sync_header ext' written)

-- `now` is what `get_time()` returns.
unfoldable pub push_node :
    AgentExt → UserMemory → ℕ → List ℕ → List ℕ → AgentResult (ℕ × AgentExt × UserMemory)
unfolding append_node
push_node ext mem now req resp =
    let size = node_total_size (length req) (length resp) % u32_mod in
    if ltb path_buffer_len size
    then err quota_exceeded
    else if ltb ext.path_quota.max_bytes size
    then err quota_exceeded
    else do
      (ext', mem') ← make_room (suc (length ext.path_meta)) ext mem size
      ok (append_node ext' mem' now size req resp)

-- `path_meta[node_count - 1]` is in range where it is read.
unfoldable pub end_of : Option PathNodeMeta → ℕ
end_of none = 0
end_of (some last) = add32 last.offset_in_buffer last.len

unfoldable pub rollback : AgentExt → UserMemory → ℕ → AgentResult (AgentExt × UserMemory)
unfolding end_of
rollback ext mem node_count =
    if ltb (length ext.path_meta) node_count
    then err not_found
    else let kept =
        if node_count == 0 then record ext { path_meta = []; path_used_bytes = 0 } else record ext {
          path_meta = take node_count ext.path_meta;
          path_used_bytes = end_of (get_elem? ext.path_meta (node_count - 1));
        } in
      ok (kept, sync_header kept mem)

unfoldable pub clear : AgentExt → UserMemory → AgentExt × UserMemory
clear ext mem =
    let cleared = record ext { path_meta = []; path_used_bytes = 0 } in
    (cleared, sync_header cleared mem)
