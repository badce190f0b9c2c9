-- ===== src/Path/Evict.antt =====
-- The invariant of a context path, and the eviction of a node.
use os_agent.Base.{
  ℕ, suc, ◌+◌, ◌-◌, ◌≤◌, ◌<◌, ◌≡◌, refl, ap, ◌∙◌, fun_ext, false, some, List, [], ◌∷◌, map, length,
  get_elem?, drop, erase_idx, add32, u32_mod, ltb, arith, length-map,
}
use os_agent.Base.Bytes.{UserMemory}
use os_agent.Base.Results.{ok}
use os_agent.Ext.{EvictPolicy, fifo, lru, PathNodeMeta, AgentExt, path_buffer_off, path_buffer_len}
use os_agent.Path.{
  shift_path_buffer_left, min_by_write_time, pick_by, pick_victim, move_down, evict_node, evict_one,
}
use os_agent.Path.Spec.{AbstractPath}
use os_agent.Path.Shift.{moved, shift-eq-moved}
use mathlib.Core.Path.{subst}
use os_agent.Path.Layout.{IsLaid, contents, IsLaid-get_elem?, IsLaid-evict, contents-evict}

-- Sequence numbers grow along the path, from `lo` on and below `next`.
abbrev pub IsNumbered : ℕ → List PathNodeMeta → ℕ → Type 0
IsNumbered lo [] next = lo ≤ next
IsNumbered lo (m ∷ ms) next = (lo ≤ m.seq) × IsNumbered (m.seq + 1) ms next

-- Write times do not fall along the path, and none is later than `t`.
abbrev pub IsTimed : ℕ → List PathNodeMeta → ℕ → Type 0
IsTimed lo [] t = lo ≤ t
IsTimed lo (m ∷ ms) t = (lo ≤ m.write_time) × IsTimed m.write_time ms t

-- A path as the kernel keeps it, at a time `t` of the clock. `sys_agent_create` gives a quota of
-- 16 KB, within the buffer's 32 KB.
pub record IsValid (t : ℕ) (ext : AgentExt) : Type 0 where
  pub laid : IsLaid 0 ext.path_meta ext.path_used_bytes
  pub numbered : IsNumbered 0 ext.path_meta ext.next_seq
  pub timed : IsTimed 0 ext.path_meta t
  pub bytes_in_quota : ext.path_used_bytes ≤ ext.path_quota.max_bytes
  pub nodes_in_quota : length ext.path_meta ≤ ext.path_quota.max_nodes
  pub quota_in_buffer : ext.path_quota.max_bytes ≤ path_buffer_len
  pub count_fits : ext.path_quota.max_nodes < u32_mod

abbrev pub path_contents : UserMemory → AgentExt → AbstractPath
path_contents mem ext = contents mem (ext.context_area_base + path_buffer_off) ext.path_meta

-- A lower bound may be lowered.
pub IsNumbered-weaken :
    (lo lo' : ℕ) (ms : List PathNodeMeta) (n : ℕ)
    → lo' ≤ lo
    → IsNumbered lo ms n
    → IsNumbered lo' ms n
IsNumbered-weaken lo lo' [] n h p = omega arith
IsNumbered-weaken lo lo' (m ∷ ms) n h p = (omega arith, p.1)

pub IsTimed-weaken :
    (lo lo' : ℕ) (ms : List PathNodeMeta) (n : ℕ) → lo' ≤ lo → IsTimed lo ms n → IsTimed lo' ms n
IsTimed-weaken lo lo' [] n h p = omega arith
IsTimed-weaken lo lo' (m ∷ ms) n h p = (omega arith, p.1)

-- With a clock that does not run backwards the first node has the least time.
pub min_by_write_time-first :
    (ms : List PathNodeMeta) (i least t : ℕ)
    → IsTimed least ms t
    → min_by_write_time ms i 0 least ≡ 0
unfolding min_by_write_time
min_by_write_time-first [] i least t h = refl
min_by_write_time-first (m ∷ ms) i least t h =
    rw (not_earlier m.write_time least h.0)
      (min_by_write_time-first ms (i + 1) least t (IsTimed-weaken m.write_time least ms t h.0 h.1))
  where
    not_earlier : (a b : ℕ) → b ≤ a → ltb a b ≡ false
    not_earlier a b p = ground arith

-- Either policy evicts the oldest node.
pub pick_by-oldest :
    (policy : EvictPolicy) (m : PathNodeMeta) (ms : List PathNodeMeta) (t : ℕ)
    → IsTimed 0 (m ∷ ms) t
    → pick_by policy (m ∷ ms) ≡ some 0
unfolding pick_by
pick_by-oldest fifo m ms t h = refl
pick_by-oldest lru m ms t h = ap some (min_by_write_time-first ms 1 m.write_time t h.1)

pub seq-move_down : (mf len : ℕ) (m : PathNodeMeta) → (move_down mf len m).seq ≡ m.seq
unfolding move_down
seq-move_down mf len m = ground arith

pub write_time-move_down :
    (mf len : ℕ) (m : PathNodeMeta) → (move_down mf len m).write_time ≡ m.write_time
unfolding move_down
write_time-move_down mf len m = ground arith

pub IsNumbered-move_down :
    (mf len lo : ℕ) (ms : List PathNodeMeta) (n : ℕ)
    → IsNumbered lo ms n
    → IsNumbered lo (map (move_down mf len) ms) n
IsNumbered-move_down mf len lo [] n h = h
IsNumbered-move_down mf len lo (m ∷ ms) n h =
    rw seq-move_down (h.0, IsNumbered-move_down mf len (m.seq + 1) ms n h.1)

pub IsTimed-move_down :
    (mf len lo : ℕ) (ms : List PathNodeMeta) (n : ℕ)
    → IsTimed lo ms n
    → IsTimed lo (map (move_down mf len) ms) n
IsTimed-move_down mf len lo [] n h = h
IsTimed-move_down mf len lo (m ∷ ms) n h =
    rw write_time-move_down (h.0, IsTimed-move_down mf len m.write_time ms n h.1)

-- Whichever node is evicted, what stays is laid out from the start of the buffer, and each node
-- that stays has the bytes that it had.
pub evict_node_lem :
    (ext : AgentExt) (mem : UserMemory) (k : ℕ) (v : PathNodeMeta)
    → IsLaid 0 ext.path_meta ext.path_used_bytes
    → ext.path_used_bytes < u32_mod
    → get_elem? ext.path_meta k ≡ some v
    → let (ext', mem') = evict_node ext mem k v in
      IsLaid 0 ext'.path_meta ext'.path_used_bytes
      × (path_contents mem' ext' ≡ erase_idx (path_contents mem ext) k)
unfolding evict_node
evict_node_lem ext mem k v l small e = rw no_wrap (
  IsLaid-evict u small 0 ext.path_meta k v l e,
  ap (λ m. contents m va (map (move_down mf v.len) (erase_idx ext.path_meta k))) (fun_ext shifted)
      ∙ contents-evict u small mem va 0 ext.path_meta k v l e,
)
  where
    u : ℕ
    u = ext.path_used_bytes

    va : ℕ
    va = ext.context_area_base + path_buffer_off

    mf : ℕ
    mf = v.offset_in_buffer + v.len

    no_wrap : add32 v.offset_in_buffer v.len ≡ v.offset_in_buffer + v.len
    no_wrap = omega (arith, IsLaid-get_elem? 0 ext.path_meta u k l e)

    shifted :
        (x : ℕ)
        → shift_path_buffer_left mem va mf (u - mf) v.len x
          ≡ moved mem (va + v.offset_in_buffer) (u - mf) v.len x
    shifted x =
        let b = IsLaid-get_elem? 0 ext.path_meta u k l e in
        shift-eq-moved mem va mf (u - mf) v.len x (omega arith) (omega (arith, b))
        ∙ ap (λ low. moved mem low (u - mf) v.len x) (omega arith)

-- A path that is not empty loses its oldest node, and stays valid.
pub evict_one-oldest :
    (t : ℕ) (ext : AgentExt) (mem : UserMemory) (v : PathNodeMeta) (ms : List PathNodeMeta)
    → IsValid t ext
    → ext.path_meta ≡ v ∷ ms
    → evict_one ext mem ≡ ok (evict_node ext mem 0 v)
unfolding evict_one pick_victim
evict_one-oldest t ext mem v ms h e =
    rw (e, pick_by-oldest ext.path_quota.policy v ms t (subst (λ l. IsTimed 0 l t) e h.timed))

module _ (t : ℕ) (ext : AgentExt) (mem : UserMemory) (v : PathNodeMeta) (ms : List PathNodeMeta)
    (h : IsValid t ext) (e : ext.path_meta ≡ v ∷ ms) where
  evict_small : ext.path_used_bytes < u32_mod
  evict_small = omega (arith, h)

  evict_front : get_elem? ext.path_meta 0 ≡ some v
  evict_front = rw e

  pub evict_oldest :
      path_contents (evict_node ext mem 0 v).1 (evict_node ext mem 0 v).0
      ≡ drop 1 (path_contents mem ext)
  evict_oldest =
      (evict_node_lem ext mem 0 v h.laid evict_small evict_front).1
      ∙ erase_first (path_contents mem ext)
    where
      erase_first : (l : List (List ℕ)) → erase_idx l 0 ≡ drop 1 l
      erase_first [] = refl
      erase_first (x ∷ xs) = refl

  evict-meta :
      (evict_node ext mem 0 v).0.path_meta
      ≡ map (move_down (add32 v.offset_in_buffer v.len) v.len) ms
  unfolding evict_node
  evict-meta = rw e

  oldest-IsNumbered : IsNumbered 0 (v ∷ ms) ext.next_seq
  oldest-IsNumbered = subst (λ l. IsNumbered 0 l ext.next_seq) e h.numbered

  oldest-IsTimed : IsTimed 0 (v ∷ ms) t
  oldest-IsTimed = subst (λ l. IsTimed 0 l t) e h.timed

  pub length-evict : suc (length (evict_node ext mem 0 v).0.path_meta) ≡ length ext.path_meta
  length-evict = rw (evict-meta, e) (ap suc (length-map _ ms))

  pub evict-IsValid : IsValid t (evict_node ext mem 0 v).0
  unfolding evict_node
  evict-IsValid = record {
    laid = (evict_node_lem ext mem 0 v h.laid evict_small evict_front).0;
    numbered = rw evict-meta (
        IsNumbered-move_down _ _ 0 ms _
          (IsNumbered-weaken (v.seq + 1) 0 ms ext.next_seq (omega arith) oldest-IsNumbered.1));
    timed = rw evict-meta (
        IsTimed-move_down _ _ 0 ms _
          (IsTimed-weaken v.write_time 0 ms t (omega arith) oldest-IsTimed.1));
    bytes_in_quota = omega (arith, h.bytes_in_quota);
    nodes_in_quota = omega (arith, h.nodes_in_quota, length-evict);
    quota_in_buffer = h.quota_in_buffer;
    count_fits = h.count_fits;
  }

-- Nothing but the path changes.
abbrev pub OnlyPath : AgentExt → AgentExt → Type 0
OnlyPath ext ext' =
    ext' ≡ record ext { path_meta = ext'.path_meta; path_used_bytes = ext'.path_used_bytes }

pub OnlyPath-trans : (a b c : AgentExt) → OnlyPath a b → OnlyPath b c → OnlyPath a c
OnlyPath-trans a b c p q =
    q
    ∙ ap
        (λ (r : AgentExt). record r {
          path_meta = c.path_meta;
          path_used_bytes = c.path_used_bytes;
        })
        p

pub evict-OnlyPath :
    (ext : AgentExt) (mem : UserMemory) (k : ℕ) (v : PathNodeMeta)
    → OnlyPath ext (evict_node ext mem k v).0
unfolding evict_node
evict-OnlyPath ext mem k v = refl
