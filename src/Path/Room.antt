-- ===== src/Path/Room.antt =====
-- The eviction loop of `push_node`: it ends, and leaves room for the new node.
use os_agent.Base.{
  ℕ, zero, suc, ◌+◌, ◌≤◌, ◌<◌, ◌≡◌, refl, ap, ap₂, ◌∙◌, sym, inl, inr, ◌⊎◌, true, false, Bool-cases,
  List, [], ◌∷◌, length, ◌||◌, drop, ltb, leb, arith, length-map,
}
use os_agent.Base.Bytes.{UserMemory, read_user_bytes, length-read_user_bytes}
use os_agent.Base.Results.{ok}
use os_agent.Ext.{PathNodeMeta, PathQuota, AgentExt, path_buffer_off}
use os_agent.Path.{evict_node, must_evict, make_room, is_empty}
use os_agent.Path.Spec.{AbstractPath, total, is_full, trim}
use mathlib.Core.Path.{subst}
use mathlib.Core.Bool.{false≢true}
use os_agent.Path.Layout.{IsLaid, contents}
use os_agent.Path.Evict.{
  evict_oldest, length-evict, evict-IsValid, IsValid, path_contents, evict_one-oldest, OnlyPath,
  OnlyPath-trans, evict-OnlyPath,
}

-- The count of bytes in use is the sum of the nodes' sizes.
total-contents :
    (mem : UserMemory) (va o : ℕ) (ms : List PathNodeMeta) (u : ℕ)
    → IsLaid o ms u
    → o + total (contents mem va ms) ≡ u
total-contents mem va o [] u h = omega arith
total-contents mem va o (m ∷ ms) u h = omega (
  arith,
  total-contents mem va (o + m.len) ms u h.2,
  length-read_user_bytes mem (va + m.offset_in_buffer) m.len,
)

-- The test of the loop is that of the abstract path.
must_evict-eq-is_full :
    (t : ℕ) (ext : AgentExt) (mem : UserMemory) (size : ℕ)
    → IsValid t ext
    → size ≤ ext.path_quota.max_bytes
    → must_evict ext size
      ≡ is_full ext.path_quota.max_bytes ext.path_quota.max_nodes size (path_contents mem ext)
unfolding must_evict
must_evict-eq-is_full t ext mem size h fits =
    ap₂ ◌||◌
      (ap (ltb ext.path_quota.max_bytes)
        (omega (arith, h, total-contents mem va 0 ext.path_meta ext.path_used_bytes h.laid)))
      (ap (leb ext.path_quota.max_nodes) (
        omega (
          arith,
          h,
          length-map (λ (m : PathNodeMeta). read_user_bytes mem (va + m.offset_in_buffer) m.len)
              ext.path_meta,
        )))
  where
    va : ℕ
    va = ext.context_area_base + path_buffer_off

-- What the eviction loop gives: the path trimmed, with room for `size` bytes.
pub record HasRoom (t : ℕ) (ext : AgentExt) (mem : UserMemory) (size : ℕ) (ext' : AgentExt)
    (mem' : UserMemory) : Type 0 where
  pub valid : IsValid t ext'
  pub only_path : OnlyPath ext ext'
  pub room : must_evict ext' size ≡ false
  pub rest :
      path_contents mem' ext'
      ≡ trim ext.path_quota.max_bytes ext.path_quota.max_nodes size (path_contents mem ext)

trim_full :
    (max_bytes max_nodes size : ℕ) (path : AbstractPath)
    → is_full max_bytes max_nodes size path ≡ true
    → trim max_bytes max_nodes size path ≡ trim max_bytes max_nodes size (drop 1 path)
trim_full b n size [] h = refl
trim_full b n size (x ∷ xs) h = rw h

trim_fits :
    (max_bytes max_nodes size : ℕ) (path : AbstractPath)
    → is_full max_bytes max_nodes size path ≡ false
    → trim max_bytes max_nodes size path ≡ path
trim_fits b n size [] h = refl
trim_fits b n size (x ∷ xs) h = rw h

List-cases {ℓ} : {A : Type ℓ} (xs : List A) → (xs ≡ []) ⊎ ((x : A) × (ys : List A) × (xs ≡ x ∷ ys))
List-cases [] = inl refl
List-cases (x ∷ xs) = inr (x, xs, refl)

-- An empty path has room for a node that is within its quota.
empty_has_room :
    (t : ℕ) (ext : AgentExt) (size : ℕ)
    → IsValid t ext
    → ext.path_meta ≡ []
    → size ≤ ext.path_quota.max_bytes
    → 0 < ext.path_quota.max_nodes
    → must_evict ext size ≡ false
unfolding must_evict
empty_has_room t ext size h e fits some_node = rw e (ground (arith, none_used, h))
  where
    none_used : 0 ≡ ext.path_used_bytes
    none_used = subst (λ l. IsLaid 0 l ext.path_used_bytes) e h.laid

quota-evict :
    (ext : AgentExt) (mem : UserMemory) (k : ℕ) (v : PathNodeMeta)
    → (evict_node ext mem k v).0.path_quota ≡ ext.path_quota
unfolding evict_node
quota-evict ext mem k v = refl

not_empty {ℓ} : {A : Type ℓ} {xs : List A} {x : A} {ys : List A} → xs ≡ x ∷ ys → is_empty xs ≡ false
unfolding is_empty
not_empty e = rw e

-- The loop ends, in as many rounds as there are nodes, and leaves room.
pub make_room_lem :
    (fuel t : ℕ) (ext : AgentExt) (mem : UserMemory) (size : ℕ)
    → IsValid t ext
    → size ≤ ext.path_quota.max_bytes
    → 0 < ext.path_quota.max_nodes
    → length ext.path_meta < fuel
    → (ext' : AgentExt) × (mem' : UserMemory) × (make_room fuel ext mem size ≡ ok (ext', mem'))
      × HasRoom t ext mem size ext' mem'
unfolding make_room
make_room_lem zero t ext mem size h fits some_node enough = elim enough [ ]
make_room_lem (suc fuel) t ext mem size h fits some_node enough =
    elim (Bool-cases (must_evict ext size)) [
      | inr stop ↦ (
        ext,
        mem,
        rw stop,
        record {
          valid = h;
          only_path = refl;
          room = stop;
          rest =
              sym (trim_fits _ _ size _ (sym (must_evict-eq-is_full t ext mem size h fits) ∙ stop));
        },
      )
      | inl more ↦ elim (List-cases ext.path_meta) [
        | inl nothing ↦
            absurd (false≢true (sym (empty_has_room t ext size h nothing fits some_node) ∙ more))
        | inr (v, ms, e) ↦
            let gone = (evict_node ext mem 0 v).0 in
            let (ext', mem', run, r) =
              make_room_lem fuel t gone (evict_node ext mem 0 v).1 size
                (evict-IsValid t ext mem v ms h e) (rw quota-evict fits) (rw quota-evict some_node)
                (omega (arith, length-evict t ext mem v ms h e)) in
            (
              ext',
              mem',
              rw (more, not_empty e, evict_one-oldest t ext mem v ms h e) run,
              record {
                valid = r.valid;
                only_path = OnlyPath-trans ext gone ext' (evict-OnlyPath ext mem 0 v) r.only_path;
                room = r.room;
                rest =
                    r.rest
                    ∙ ap
                        (λ (q : PathQuota).
                          trim q.max_bytes q.max_nodes size
                            (path_contents (evict_node ext mem 0 v).1 gone))
                        (quota-evict ext mem 0 v)
                    ∙ ap (trim _ _ size) (evict_oldest t ext mem v ms h e)
                    ∙ sym (
                        trim_full _ _ size _
                          (sym (must_evict-eq-is_full t ext mem size h fits) ∙ more));
              },
            )
      ]
    ]
