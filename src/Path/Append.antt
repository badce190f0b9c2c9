-- ===== src/Path/Append.antt =====
-- The writes of a node and of the header, and the bytes of the nodes that they leave.
use mathlib.Core.List.{append_assoc}
use os_agent.Base.{
  ℕ, ◌+◌, ◌≤◌, ◌<◌, ◌≡◌, refl, ap, ap₂, ◌∙◌, sym, List, [], ◌∷◌, ◌++◌, length, ◌%◌, u32_mod, arith,
  length-append,
}
use os_agent.Base.Bytes.{
  UserMemory, read_user_bytes, write_user_bytes, to_le_bytes, length-to_le_bytes, read-append,
  read-write_self, read-write_below, read-write_above,
}
use os_agent.Ext.{PathNodeMeta, AgentExt, path_buffer_off}
use os_agent.Path.{node_header_size, node_header, write_node_at, sync_header}
use os_agent.Path.Layout.{IsLaid, IsLaid-le, contents}
use os_agent.Path.Evict.{IsNumbered, IsTimed, path_contents}

-- The bytes of a node: its header, the request and the response.
abbrev pub node_bytes : ℕ → ℕ → List ℕ → List ℕ → List ℕ
node_bytes seq now req resp = node_header seq now (length req) (length resp) ++ (req ++ resp)

pub length-node_header : (seq ts m n : ℕ) → length (node_header seq ts m n) ≡ node_header_size
unfolding node_header
length-node_header seq ts m n = simp (length-append, length-to_le_bytes)

-- Nodes below a write keep their bytes.
pub contents-write_above :
    (mem : UserMemory) (va o : ℕ) (ms : List PathNodeMeta) (u a : ℕ) (bytes : List ℕ)
    → IsLaid o ms u
    → va + u ≤ a
    → contents (write_user_bytes mem a bytes) va ms ≡ contents mem va ms
contents-write_above mem va o [] u a bytes l h = refl
contents-write_above mem va o (m ∷ ms) u a bytes l h =
    ap₂ ◌∷◌
      (read-write_below mem a bytes (va + m.offset_in_buffer) m.len
        (omega (arith, IsLaid-le (o + m.len) ms u l.2)))
      (contents-write_above mem va (o + m.len) ms u a bytes l.2 h)

-- A write below the buffer changes no node.
pub contents-write_below :
    (mem : UserMemory) (va : ℕ) (ms : List PathNodeMeta) (a : ℕ) (bytes : List ℕ)
    → a + length bytes ≤ va
    → contents (write_user_bytes mem a bytes) va ms ≡ contents mem va ms
contents-write_below mem va [] a bytes h = refl
contents-write_below mem va (m ∷ ms) a bytes h =
    ap₂ ◌∷◌ (read-write_above mem a bytes (va + m.offset_in_buffer) m.len (omega arith))
      (contents-write_below mem va ms a bytes h)

-- The header of the area stands below the buffer.
pub path_contents-sync_header :
    (ext : AgentExt) (mem : UserMemory)
    → path_contents (sync_header ext mem) ext ≡ path_contents mem ext
unfolding sync_header
path_contents-sync_header ext mem =
    contents-write_below _ va ext.path_meta _ (to_le_bytes 4 _)
      (omega (arith, length-to_le_bytes 4 (length ext.path_meta % u32_mod)))
    ∙ contents-write_below mem va ext.path_meta _ (to_le_bytes 4 _)
        (omega (arith, length-to_le_bytes 4 ext.path_used_bytes))
  where
    va : ℕ
    va = ext.context_area_base + path_buffer_off

-- A write right behind what is read extends it.
pub read-write_behind :
    (mem : UserMemory) (a n b : ℕ) (xs ys : List ℕ)
    → read_user_bytes mem a n ≡ xs
    → a + n ≡ b
    → read_user_bytes (write_user_bytes mem b ys) a (n + length ys) ≡ xs ++ ys
read-write_behind mem a n b xs ys r e =
    read-append _ a n (length ys)
    ∙ ap₂ ◌++◌ (read-write_below mem b ys a n (omega arith) ∙ r) (
        ap (λ c. read_user_bytes (write_user_bytes mem b ys) c (length ys)) e
        ∙ read-write_self mem b ys)

-- The node that is written reads back whole.
pub read-write_node_at :
    (mem : UserMemory) (va o seq ts : ℕ) (req resp : List ℕ)
    → length req < u32_mod
    → length resp < u32_mod
    → read_user_bytes
        (write_node_at mem va o seq ts req resp)
        (va + o)
        (node_header_size + length req + length resp)
      ≡ node_bytes seq ts req resp
unfolding write_node_at
read-write_node_at mem va o seq ts req resp hr hs =
    read-write_behind _ a (node_header_size + length req) _ (header ++ req) resp
      (read-write_behind _ a node_header_size _ header req written refl) (omega arith)
    ∙ append_assoc header req resp
    ∙ ap₂ (λ m n. node_header seq ts m n ++ (req ++ resp)) (omega arith) (omega arith)
  where
    a : ℕ
    a = va + o

    header : List ℕ
    header = node_header seq ts (length req % u32_mod) (length resp % u32_mod)

    written : read_user_bytes (write_user_bytes mem a header) a node_header_size ≡ header
    written =
        ap (read_user_bytes (write_user_bytes mem a header) a)
          (sym (length-node_header seq ts (length req % u32_mod) (length resp % u32_mod)))
        ∙ read-write_self mem a header

-- The write of a node leaves the nodes below it as they were.
pub contents-write_node_at :
    (mem : UserMemory) (va o seq ts : ℕ) (req resp : List ℕ) (ms : List PathNodeMeta)
    → IsLaid 0 ms o
    → contents (write_node_at mem va o seq ts req resp) va ms ≡ contents mem va ms
unfolding write_node_at
contents-write_node_at mem va o seq ts req resp ms l =
    contents-write_above _ va 0 ms o _ resp l (omega arith)
    ∙ contents-write_above _ va 0 ms o _ req l (omega arith)
    ∙ contents-write_above mem va 0 ms o _ _ l (omega arith)

pub IsNumbered-append :
    (lo : ℕ) (ms : List PathNodeMeta) (m : PathNodeMeta)
    → IsNumbered lo ms m.seq
    → IsNumbered lo (ms ++ (m ∷ [])) (m.seq + 1)
IsNumbered-append lo [] m h = (h, omega arith)
IsNumbered-append lo (n ∷ ms) m h = (h.0, IsNumbered-append (n.seq + 1) ms m h.1)

pub IsTimed-append :
    (lo : ℕ) (ms : List PathNodeMeta) (m : PathNodeMeta) (t : ℕ)
    → IsTimed lo ms t
    → t ≤ m.write_time
    → IsTimed lo (ms ++ (m ∷ [])) m.write_time
IsTimed-append lo [] m t h e = (omega arith, omega arith)
IsTimed-append lo (n ∷ ms) m t h e = (h.0, IsTimed-append n.write_time ms m t h.1 e)
