-- ===== src/Path/Push.antt =====
-- `push_node` against the list of the nodes' bytes.
use mathlib.Core.List.{map-append}
use os_agent.Base.{
  ℕ, suc, ◌+◌, ◌-◌, ◌≤◌, ◌<◌, ◌≡◌, refl, ap, ap₂, ◌∙◌, sym, inl, inr, ◌⊎◌, Bool, true, false, List,
  [], ◌∷◌, ◌++◌, length, ◌%◌, add32, add64, u32_mod, u64_mod, ltb, if◌then◌else◌, arith,
  length-append, lt→ltb,
}
use os_agent.Base.Bytes.{UserMemory, read_user_bytes}
use os_agent.Base.Results.{AgentResult, ok, err, quota_exceeded}
use os_agent.Ext.{AgentExt, path_buffer_off, path_buffer_len}
use os_agent.Path.{
  node_header_size, node_total_size, node_header, write_node_at, append_node, make_room, push_node,
  must_evict,
}
use os_agent.Path.Spec.{trim, push}
use os_agent.Path.Layout.{IsLaid-append}
use os_agent.Path.Evict.{IsValid, path_contents}
use os_agent.Path.Room.{make_room_lem}
use os_agent.Path.Append.{
  node_bytes, length-node_header, path_contents-sync_header, read-write_node_at,
  contents-write_node_at, IsNumbered-append, IsTimed-append,
}

-- What `append_node` does to a path that has room.
module _ (t now size : ℕ) (ext : AgentExt) (mem : UserMemory) (req resp : List ℕ)
    (h : IsValid t ext) (later : t ≤ now) (room : must_evict ext size ≡ false)
    (seq_fits : ext.next_seq + 1 < u64_mod)
    (sized : size ≡ node_header_size + length req + length resp)
    (small : size ≤ path_buffer_len) where
  -- The test of the loop, read as two bounds.
  has_room :
      (ext.path_used_bytes + size ≤ ext.path_quota.max_bytes)
      × (length ext.path_meta < ext.path_quota.max_nodes)
  unfolding must_evict
  has_room = ground (arith, h)

  no_wrap : add32 ext.path_used_bytes size ≡ ext.path_used_bytes + size
  no_wrap = omega (arith, has_room, h)

  next_no_wrap : add64 ext.next_seq 1 ≡ ext.next_seq + 1
  next_no_wrap = omega arith

  append_node-IsValid : IsValid now (append_node ext mem now size req resp).1
  unfolding append_node
  append_node-IsValid = record {
    laid =
        rw no_wrap (IsLaid-append 0 ext.path_meta ext.path_used_bytes _ h.laid refl (omega arith));
    numbered = rw next_no_wrap (IsNumbered-append 0 ext.path_meta _ h.numbered);
    timed = IsTimed-append 0 ext.path_meta _ t h.timed later;
    bytes_in_quota = rw no_wrap has_room.0;
    nodes_in_quota = rw length-append (omega (arith, has_room));
    quota_in_buffer = h.quota_in_buffer;
    count_fits = h.count_fits;
  }

  path_contents-append_node :
      path_contents
        (append_node ext mem now size req resp).2
        (append_node ext mem now size req resp).1
      ≡ path_contents mem ext ++ (node_bytes ext.next_seq now req resp ∷ [])
  unfolding append_node
  path_contents-append_node =
      path_contents-sync_header _ written
      ∙ map-append _ ext.path_meta _
      ∙ ap₂ ◌++◌ (contents-write_node_at mem va used seq now req resp ext.path_meta h.laid) (
          ap (λ b. b ∷ [])
            (ap (read_user_bytes written (va + used)) sized
              ∙ read-write_node_at mem va used seq now req resp (omega arith) (omega arith)))
    where
      va : ℕ
      va = ext.context_area_base + path_buffer_off

      used : ℕ
      used = ext.path_used_bytes

      seq : ℕ
      seq = ext.next_seq

      written : UserMemory
      written = write_node_at mem va used seq now req resp

  -- Only the path and the sequence number change.
  append_node-frame : (append_node ext mem now size req resp).1 ≡ record ext {
    path_meta = (append_node ext mem now size req resp).1.path_meta;
    path_used_bytes = (append_node ext mem now size req resp).1.path_used_bytes;
    next_seq = ext.next_seq + 1;
  }
  unfolding append_node
  append_node-frame = rw next_no_wrap

-- What a successful `push_node` gives, for a path that was valid at `t`, at the time `now`.
pub record IsPushed (now : ℕ) (ext : AgentExt) (mem : UserMemory) (req resp : List ℕ)
    (ext' : AgentExt) (mem' : UserMemory) : Type 0 where
  pub valid : IsValid now ext'
  pub contents_push :
      path_contents mem' ext'
      ≡ push ext.path_quota.max_bytes ext.path_quota.max_nodes
          (node_bytes ext.next_seq now req resp)
          (path_contents mem ext)
  pub frame : ext' ≡ record ext {
    path_meta = ext'.path_meta;
    path_used_bytes = ext'.path_used_bytes;
    next_seq = ext.next_seq + 1;
  }

length-node_bytes :
    (seq now : ℕ) (req resp : List ℕ)
    → length (node_bytes seq now req resp) ≡ node_total_size (length req) (length resp)
unfolding node_total_size
length-node_bytes seq now req resp = omega (
  arith,
  length-append (node_header seq now (length req) (length resp)) (req ++ resp),
  length-append req resp,
  length-node_header seq now (length req) (length resp),
)

-- With room, `push_node` is `append_node`.
push_node-eq-append_node :
    (ext roomy : AgentExt) (mem m : UserMemory) (now : ℕ) (req resp : List ℕ)
    → node_total_size (length req) (length resp) ≤ ext.path_quota.max_bytes
    → ext.path_quota.max_bytes ≤ path_buffer_len
    → make_room (suc (length ext.path_meta)) ext mem (node_total_size (length req) (length resp))
      ≡ ok (roomy, m)
    → push_node ext mem now req resp
      ≡ ok (append_node roomy m now (node_total_size (length req) (length resp)) req resp)
unfolding push_node
push_node-eq-append_node ext roomy mem m now req resp fits quota run =
    rw (no_wrap, not_below _ _ in_buffer, not_below _ _ fits, run)
  where
    size : ℕ
    size = node_total_size (length req) (length resp)

    in_buffer : size ≤ path_buffer_len
    in_buffer = omega arith

    no_wrap : size % u32_mod ≡ size
    no_wrap = omega arith

    not_below : (a b : ℕ) → b ≤ a → ltb a b ≡ false
    not_below a b p = ground arith

-- A node within the quota is always pushed: the call succeeds with the index of the last node, the
-- path stays valid, and its nodes' bytes are those of the abstract `push`: the oldest nodes are
-- dropped until the new one fits, every node that stays keeps its bytes, and the new node, header,
-- request and response, comes last. Nothing else of the agent changes but its next number. The
-- clock does not run backwards, and the number does not wrap.
pub push_node-refines :
    (t now : ℕ) (ext : AgentExt) (mem : UserMemory) (req resp : List ℕ)
    → IsValid t ext
    → t ≤ now
    → ext.next_seq + 1 < u64_mod
    → 0 < ext.path_quota.max_nodes
    → node_total_size (length req) (length resp) ≤ ext.path_quota.max_bytes
    → (ext' : AgentExt) × (mem' : UserMemory) × (push_node ext mem now req resp
        ≡ ok (length ext'.path_meta - 1, ext', mem'))
      × IsPushed now ext mem req resp ext' mem'
push_node-refines t now ext mem req resp h later seq_fits some_node fits =
    let (roomy, m, run, r) =
      make_room_lem (suc (length ext.path_meta)) t ext mem size h fits some_node (omega arith) in
    let same_seq : roomy.next_seq ≡ ext.next_seq = ap (λ (x : AgentExt). x.next_seq) r.only_path in
    let bound : size ≤ path_buffer_len = omega (arith, h) in
    let a = append_node roomy m now size req resp in
    (
      a.1,
      a.2,
      push_node-eq-append_node ext roomy mem m now req resp fits h.quota_in_buffer run
          ∙ ap ok (index roomy m),
      record {
        valid =
            append_node-IsValid t now size roomy m req resp r.valid later r.room
              (rw same_seq seq_fits) sized bound;
        contents_push =
            path_contents-append_node t now size roomy m req resp r.valid later r.room
              (rw same_seq seq_fits) sized bound
            ∙ ap₂ (λ path (seq : ℕ). path ++ (node_bytes seq now req resp ∷ [])) r.rest same_seq
            ∙ ap
                (λ s.
                  trim ext.path_quota.max_bytes ext.path_quota.max_nodes s (path_contents mem ext)
                  ++ (node_bytes ext.next_seq now req resp ∷ []))
                (sym (length-node_bytes ext.next_seq now req resp));
        frame =
            append_node-frame t now size roomy m req resp r.valid later r.room
              (rw same_seq seq_fits) sized bound
            ∙ ap
                (λ (x : AgentExt). record x {
                  path_meta = a.1.path_meta;
                  path_used_bytes = a.1.path_used_bytes;
                  next_seq = x.next_seq + 1;
                })
                r.only_path;
      },
    )
  where
    size : ℕ
    size = node_total_size (length req) (length resp)

    sized : size ≡ node_header_size + length req + length resp
    sized = unfold node_total_size in refl

    index :
        (roomy : AgentExt) (m : UserMemory)
        → append_node roomy m now size req resp ≡ (
          length (append_node roomy m now size req resp).1.path_meta - 1,
          (append_node roomy m now size req resp).1,
          (append_node roomy m now size req resp).2,
        )
    index roomy m = unfold append_node in refl

-- A node larger than the quota or than the buffer is refused, whatever the path holds, and so
-- before anything is written.
pub push_node-refuses :
    (ext : AgentExt) (mem : UserMemory) (now : ℕ) (req resp : List ℕ)
    → node_total_size (length req) (length resp) < u32_mod
    → (path_buffer_len < node_total_size (length req) (length resp))
      ⊎ (ext.path_quota.max_bytes < node_total_size (length req) (length resp))
    → push_node ext mem now req resp ≡ err quota_exceeded
unfolding push_node
push_node-refuses ext mem now req resp small (inl big) =
    let e : node_total_size (length req) (length resp) % u32_mod
        ≡ node_total_size (length req) (length resp) =
      omega arith in
    rw (e, lt→ltb _ _ big)
push_node-refuses ext mem now req resp small (inr big) =
    let e : node_total_size (length req) (length resp) % u32_mod
        ≡ node_total_size (length req) (length resp) =
      omega arith in
    rw (e, lt→ltb _ _ big)
      (if_same (ltb path_buffer_len (node_total_size (length req) (length resp))))
  where
    if_same : (b : Bool) {r : AgentResult (ℕ × AgentExt × UserMemory)} → (if b then r else r) ≡ r
    if_same true = refl
    if_same false = refl
