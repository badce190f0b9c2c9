-- ===== src/Path/Rollback.antt =====
-- `rollback` and `clear` against the list of the nodes' bytes.
use os_agent.Base.{
  ℕ, zero, suc, ◌+◌, ◌-◌, ◌≤◌, ◌<◌, ◌≡◌, refl, ap, ◌∙◌, false, List, [], ◌∷◌, length, get_elem?,
  take, u32_mod, ltb, leb, ◌&&◌, ◌%◌, arith, length-take, lt→ltb, ◌==◌,
}
use os_agent.Base.Bytes.{
  UserMemory, read_user_bytes, write_user_bytes, to_le_bytes, from_le_bytes, length-to_le_bytes,
  from_le-to_le, read-write_self, read-write_below,
}
use os_agent.Base.Results.{ok, err, not_found}
use os_agent.Ext.{PathNodeMeta, AgentExt}
use os_agent.Path.{end_of, sync_header, rollback, clear}
use os_agent.Path.Layout.{IsLaid, IsLaid-le, contents}
use os_agent.Path.Evict.{IsValid, IsNumbered, IsTimed, path_contents, OnlyPath}
use os_agent.Path.Append.{path_contents-sync_header}

-- The first nodes are laid out up to the end of the last of them.
IsLaid-take :
    (o : ℕ) (ms : List PathNodeMeta) (u n : ℕ)
    → u < u32_mod
    → n < length ms
    → IsLaid o ms u
    → IsLaid o (take (suc n) ms) (end_of (get_elem? ms n))
unfolding end_of
IsLaid-take o [] u n small h l = absurd (omega arith)
IsLaid-take o (m ∷ ms) u zero small h l = omega (arith, IsLaid-le (o + m.len) ms u l.2)
IsLaid-take o (m ∷ ms) u (suc n) small h l =
    (l.0, l.1, IsLaid-take (o + m.len) ms u n small (omega arith) l.2)

end_of-le :
    (o : ℕ) (ms : List PathNodeMeta) (u n : ℕ)
    → u < u32_mod
    → IsLaid o ms u
    → end_of (get_elem? ms n) ≤ u
unfolding end_of
end_of-le o [] u n small l = omega arith
end_of-le o (m ∷ ms) u zero small l = omega (arith, IsLaid-le (o + m.len) ms u l.2)
end_of-le o (m ∷ ms) u (suc n) small l = end_of-le (o + m.len) ms u n small l.2

IsNumbered-take :
    (lo : ℕ) (ms : List PathNodeMeta) (next n : ℕ)
    → IsNumbered lo ms next
    → IsNumbered lo (take n ms) next
IsNumbered-take lo [] next zero h = h
IsNumbered-take lo [] next (suc n) h = h
IsNumbered-take lo (m ∷ ms) next zero h =
    omega (arith, IsNumbered-take (m.seq + 1) ms next zero h.1)
IsNumbered-take lo (m ∷ ms) next (suc n) h = (h.0, IsNumbered-take (m.seq + 1) ms next n h.1)

IsTimed-take :
    (lo : ℕ) (ms : List PathNodeMeta) (t n : ℕ) → IsTimed lo ms t → IsTimed lo (take n ms) t
IsTimed-take lo [] t zero h = h
IsTimed-take lo [] t (suc n) h = h
IsTimed-take lo (m ∷ ms) t zero h = omega (arith, IsTimed-take m.write_time ms t zero h.1)
IsTimed-take lo (m ∷ ms) t (suc n) h = (h.0, IsTimed-take m.write_time ms t n h.1)

contents-take :
    (mem : UserMemory) (va n : ℕ) (ms : List PathNodeMeta)
    → contents mem va (take n ms) ≡ take n (contents mem va ms)
contents-take mem va zero ms = refl
contents-take mem va (suc n) [] = refl
contents-take mem va (suc n) (m ∷ ms) =
    ap (◌∷◌ (read_user_bytes mem (va + m.offset_in_buffer) m.len)) (contents-take mem va n ms)

-- The path cut to its first `n` nodes.
abbrev cut : AgentExt → ℕ → ℕ → AgentExt
cut ext n used = record ext { path_meta = take n ext.path_meta; path_used_bytes = used }

module _ (t : ℕ) (ext : AgentExt) (h : IsValid t ext) where
  cut-IsValid :
      (n used : ℕ)
      → IsLaid 0 (take n ext.path_meta) used
      → used ≤ ext.path_used_bytes
      → IsValid t (cut ext n used)
  cut-IsValid n used l fewer = record {
    laid = l;
    numbered = IsNumbered-take 0 ext.path_meta ext.next_seq n h.numbered;
    timed = IsTimed-take 0 ext.path_meta t n h.timed;
    bytes_in_quota = omega (arith, h);
    nodes_in_quota = omega (arith, h, length-take n ext.path_meta);
    quota_in_buffer = h.quota_in_buffer;
    count_fits = h.count_fits;
  }

not_below : (a b : ℕ) → b ≤ a → ltb a b ≡ false
not_below a b p = ground arith

suc_not_zero : (n : ℕ) → (suc n == 0) ≡ false
suc_not_zero n = ground arith

pred_suc : (n : ℕ) → suc n - 1 ≡ n
pred_suc n = omega arith

-- The header of the area says how many bytes and nodes the path `ext` has; no other byte differs.
pub record IsSynced (ext : AgentExt) (mem mem' : UserMemory) : Type 0 where
  pub used_field :
      from_le_bytes (read_user_bytes mem' (ext.context_area_base + 36) 4) ≡ ext.path_used_bytes
  pub count_field :
      from_le_bytes (read_user_bytes mem' (ext.context_area_base + 40) 4) ≡ length ext.path_meta
  pub others :
      (x : ℕ)
      → (leb (ext.context_area_base + 36) x && ltb x (ext.context_area_base + 44)) ≡ false
      → mem' x ≡ mem x

sync_header-IsSynced :
    (t : ℕ) (ext : AgentExt) (mem : UserMemory)
    → IsValid t ext
    → IsSynced ext mem (sync_header ext mem)
unfolding sync_header write_user_bytes
sync_header-IsSynced t ext mem h =
    let base = ext.context_area_base in
    let used = to_le_bytes 4 ext.path_used_bytes in
    let count = length ext.path_meta % u32_mod in
    let m1 = write_user_bytes mem (base + 36) used in
    let four = length-to_le_bytes 4 ext.path_used_bytes in
    let four' = length-to_le_bytes 4 count in
    let back = read-write_self mem (base + 36) used in
    let back' = read-write_self m1 (base + 40) (to_le_bytes 4 count) in
    record {
      used_field =
          ap from_le_bytes (
            read-write_below m1 (base + 40) (to_le_bytes 4 count) (base + 36) 4 (omega arith)
            ∙ rw four at back)
          ∙ from_le-to_le 4 ext.path_used_bytes
              (omega (arith, h.bytes_in_quota, h.quota_in_buffer));
      count_field =
          ap from_le_bytes (rw four' at back')
          ∙ from_le-to_le 4 count (omega arith)
          ∙ omega (arith, h.nodes_in_quota, h.count_fits);
      others = λ x out. rw (four, four') (ground (arith, out));
    }

-- What `rollback` gives.
pub record IsRolledBack (t : ℕ) (ext : AgentExt) (mem : UserMemory) (n : ℕ) (ext' : AgentExt)
    (mem' : UserMemory) : Type 0 where
  pub valid : IsValid t ext'
  pub contents_take : path_contents mem' ext' ≡ take n (path_contents mem ext)
  pub only_path : OnlyPath ext ext'
  pub synced : IsSynced ext' mem mem'

-- Going back to the first `n` nodes of a valid path that has so many succeeds and keeps those nodes with
-- their bytes. The path stays valid, and nothing else of the agent changes. In the user memory the header
-- of the area then says how many bytes and nodes the path has, and no other byte changes.
pub rollback-refines :
    (t : ℕ) (ext : AgentExt) (mem : UserMemory) (n : ℕ)
    → IsValid t ext
    → n ≤ length ext.path_meta
    → (ext' : AgentExt) × (mem' : UserMemory) × (rollback ext mem n ≡ ok (ext', mem'))
      × IsRolledBack t ext mem n ext' mem'
unfolding rollback
rollback-refines t ext mem zero h enough = (
  cut ext 0 0,
  sync_header (cut ext 0 0) mem,
  ground arith,
  record {
    valid = cut-IsValid t ext h 0 0 refl (omega arith);
    contents_take = path_contents-sync_header (cut ext 0 0) mem;
    only_path = refl;
    synced = sync_header-IsSynced t (cut ext 0 0) mem (cut-IsValid t ext h 0 0 refl (omega arith));
  },
)
rollback-refines t ext mem (suc n) h enough = (
  ext',
  sync_header ext' mem,
  rw (not_below _ _ enough, suc_not_zero n, pred_suc n),
  record {
    valid = still;
    contents_take = path_contents-sync_header ext' mem ∙ contents-take mem _ (suc n) ext.path_meta;
    only_path = refl;
    synced = sync_header-IsSynced t ext' mem still;
  },
)
  where
    used : ℕ
    used = end_of (get_elem? ext.path_meta n)

    ext' : AgentExt
    ext' = cut ext (suc n) used

    still : IsValid t ext'
    still =
        cut-IsValid t ext h (suc n) used
          (IsLaid-take 0 ext.path_meta _ n (omega (arith, h)) (omega arith) h.laid)
          (end_of-le 0 ext.path_meta _ n (omega (arith, h)) h.laid)

-- Going back to more nodes than there are is refused.
pub rollback-not_found :
    (ext : AgentExt) (mem : UserMemory) (n : ℕ)
    → length ext.path_meta < n
    → rollback ext mem n ≡ err not_found
unfolding rollback
rollback-not_found ext mem n h = rw (lt→ltb _ _ h)

-- `clear` is going back to no node.
pub clear-eq-rollback :
    (ext : AgentExt) (mem : UserMemory) → rollback ext mem 0 ≡ ok (clear ext mem)
unfolding rollback clear
clear-eq-rollback ext mem = ground arith
