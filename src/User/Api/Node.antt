-- ===== src/User/Api/Node.antt =====
-- A node of the path that the kernel wrote is what the program reads, and so is the state of the agent.
use mathlib.Core.List.{append_assoc}
use os_agent.Base.{
  ℕ, ◌+◌, ◌<◌, ◌≤◌, ◌≡◌, ◌∙◌, ◌-◌, sym, refl, ap, ap₂, false, some, List, [], ◌∷◌, ◌++◌, length,
  length-append, take, drop, take-exact, drop-exact, ltb, arith, u32_mod, u64_mod,
}
use os_agent.Base.Bytes.{
  UserMemory, read_user_bytes, to_le_bytes, from_le-to_le, read-append, length-read_user_bytes,
}
use os_agent.Ext.{AgentExt, PathNodeMeta, context_area_base_va, path_buffer_off}
use os_agent.Path.{node_total_size, push_node, node_header}
use os_agent.Path.Evict.{IsValid, path_contents}
use os_agent.Path.Spec.{trim}
use os_agent.Path.Push.{push_node-refines}
use os_agent.Base.Results.{ok}
use os_agent.Path.Layout.{contents}
use os_agent.Path.Append.{node_bytes, length-node_header}
use os_agent.User.Api.{read_path_node_zero_copy, u32_at}

-- Two pieces of known lengths are apart again.
append_parts :
    (xs ys xs' ys' : List ℕ)
    → length xs ≡ length xs'
    → xs ++ ys ≡ xs' ++ ys'
    → (xs ≡ xs') × (ys ≡ ys')
append_parts xs ys xs' ys' len e = (
  sym (take-exact (length xs') xs ys len)
      ∙ ap (take (length xs')) e
      ∙ take-exact (length xs') xs' ys' refl,
  sym (drop-exact (length xs') xs ys len)
      ∙ ap (drop (length xs')) e
      ∙ drop-exact (length xs') xs' ys' refl,
)

header_words :
    (seq now m n : ℕ)
    → m < u32_mod
    → n < u32_mod
    → (u32_at (node_header seq now m n) 16 ≡ m) × (u32_at (node_header seq now m n) 20 ≡ n)
unfolding node_header to_le_bytes
header_words seq now m n hm hn =
    (from_le-to_le 4 m (omega (arith, hm)), from_le-to_le 4 n (omega (arith, hn)))

abbrev place : ℕ → ℕ
place offset = context_area_base_va + path_buffer_off + offset

-- From a node with the bytes that the kernel writes, `read_path_node_zero_copy` gets its request and its
-- response.
read_path_node-node_bytes :
    (mem : UserMemory) (meta : PathNodeMeta) (seq now : ℕ) (req resp : List ℕ)
    → length req < u32_mod
    → length resp < u32_mod
    → 24 ≤ meta.len
    → read_user_bytes mem (place meta.offset_in_buffer) (24 + length req + length resp)
      ≡ node_bytes seq now req resp
    → read_path_node_zero_copy mem meta ≡ some (req, resp)
unfolding read_path_node_zero_copy
read_path_node-node_bytes mem meta seq now req resp hr hs long e =
    let base = place meta.offset_in_buffer in
    let header = node_header seq now (length req) (length resp) in
    let whole =
      sym (read-append mem base (24 + length req) (length resp))
      ∙ e
      ∙ sym (append_assoc header req resp) in
    let (front, resp_eq) =
      append_parts (read_user_bytes mem base (24 + length req))
        (read_user_bytes mem (base + (24 + length req)) (length resp)) (header ++ req) resp
        (omega (
          arith,
          length-read_user_bytes mem base (24 + length req),
          length-append header req,
          length-node_header seq now (length req) (length resp),
        ))
        whole in
    let (header_eq, req_eq) =
      append_parts (read_user_bytes mem base 24) (read_user_bytes mem (base + 24) (length req))
        header req
        (omega (
          arith,
          length-read_user_bytes mem base 24,
          length-node_header seq now (length req) (length resp),
        ))
        (sym (read-append mem base 24 (length req)) ∙ front) in
    let (m, n) = header_words seq now (length req) (length resp) hr hs in
    let there : ltb meta.len 24 ≡ false = ground (arith, long) in
    let at_resp : base + 24 + length req ≡ base + (24 + length req) = omega arith in
    rw (there, header_eq, m, n, at_resp, req_eq, resp_eq) refl

-- The last of the nodes' bytes belongs to the last of the nodes.
last_of_contents :
    (mem : UserMemory) (va : ℕ) (ms : List PathNodeMeta) (path : List (List ℕ)) (node : List ℕ)
    → contents mem va ms ≡ path ++ (node ∷ [])
    → (front : List PathNodeMeta) × (m : PathNodeMeta) × (ms ≡ front ++ (m ∷ []))
      × (read_user_bytes mem (va + m.offset_in_buffer) m.len ≡ node)
unfolding contents
last_of_contents mem va [] [] node e = absurd (ground (arith, e))
last_of_contents mem va [] (b ∷ path) node e = absurd (ground (arith, e))
last_of_contents mem va (m ∷ []) [] node e = ([], m, refl, cc e)
last_of_contents mem va (m ∷ m' ∷ ms) [] node e = ground (arith, e)
last_of_contents mem va (m ∷ ms) (b ∷ path) node e =
    let rest : contents mem va ms ≡ path ++ (node ∷ []) = cc e in
    let (front, last, split, same) = last_of_contents mem va ms path node rest in
    (m ∷ front, last, ap (λ xs. m ∷ xs) split, same)

-- After a push of a node within the quota the last node of the path is one from which the program reads,
-- without a copy, the request and the response that were pushed.
pub read_path_node_zero_copy-push_node :
    (t now : ℕ) (ext : AgentExt) (mem : UserMemory) (req resp : List ℕ)
    → IsValid t ext
    → t ≤ now
    → ext.next_seq + 1 < u64_mod
    → 0 < ext.path_quota.max_nodes
    → node_total_size (length req) (length resp) ≤ ext.path_quota.max_bytes
    → ext.context_area_base ≡ context_area_base_va
    → (ext' : AgentExt) × (mem' : UserMemory) × (front : List PathNodeMeta) × (last : PathNodeMeta)
      × (push_node ext mem now req resp ≡ ok (length ext'.path_meta - 1, ext', mem'))
      × (ext'.path_meta ≡ front ++ (last ∷ []))
      × (read_path_node_zero_copy mem' last ≡ some (req, resp))
unfolding node_total_size
read_path_node_zero_copy-push_node t now ext mem req resp h later seq_fits some_node fits based =
    let (ext', mem', e, is) =
      push_node-refines t now ext mem req resp h later seq_fits some_node fits in
    let node = node_bytes ext.next_seq now req resp in
    let kept =
      trim ext.path_quota.max_bytes ext.path_quota.max_nodes (length node)
        (path_contents mem ext) in
    let (front, last, split, same) =
      last_of_contents mem' (ext'.context_area_base + path_buffer_off) ext'.path_meta kept node
        is.contents_push in
    let base : ext'.context_area_base ≡ context_area_base_va =
      ap (λ (x : AgentExt). x.context_area_base) is.frame ∙ based in
    let long : last.len ≡ 24 + length req + length resp = omega (
      arith,
      ap length same,
      length-read_user_bytes mem' (ext'.context_area_base + path_buffer_off + last.offset_in_buffer)
          last.len,
      length-append (node_header ext.next_seq now (length req) (length resp)) (req ++ resp),
      length-append req resp,
      length-node_header ext.next_seq now (length req) (length resp),
    ) in
    let here : read_user_bytes mem' (place last.offset_in_buffer) (24 + length req + length resp)
        ≡ node =
      ap₂ (λ (b n : ℕ). read_user_bytes mem' (b + path_buffer_off + last.offset_in_buffer) n)
        (sym base) (sym long)
      ∙ same in
    (
      ext',
      mem',
      front,
      last,
      e,
      split,
      read_path_node-node_bytes mem' last ext.next_seq now req resp
          (omega (arith, fits, h.quota_in_buffer)) (omega (arith, fits, h.quota_in_buffer))
          (omega (arith, long)) here,
    )
