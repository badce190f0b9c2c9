-- ===== src/Tool/Result.antt =====
-- Where a tool call puts the result of the tool in the user memory.
use os_agent.Base.{
  ℕ, ◌+◌, ◌*◌, ◌%◌, ◌^◌, ◌≤◌, ◌<◌, ◌≡◌, refl, ap, sym, ◌∙◌, false, Option-cases, ◌⊎◌, inl, inr,
  some, List, length, ltb, ◌==◌, arith, u32_mod,
}
use mathlib.Core.Path.{subst}
use os_agent.Base.Bytes.{
  UserMemory, read_user_bytes, write_user_bytes, to_le_bytes, from_le_bytes, from_le-to_le,
  length-to_le_bytes, read-write_self, read-write_below, read-write_above,
}
use os_agent.Base.Results.{ok, ISize, pos}
use os_agent.Ext.{AgentExt, calling, tool_result_off, tool_result_len}
use os_agent.Proto.{ToolRequest, tool_ok, decoded, decode_frame}
use os_agent.Calls.{System, set_memory, with_ext, ext_of}
use os_agent.Calls.Agents.{on_agent-some}
use os_agent.Tool.{Postcard, DispatchResult, dispatch}
use os_agent.Tool.Serve.{admissible}
use os_agent.Tool.Call.{
  write_memory, write_out, observe, respond, answer, dispatched, received, sys_tool_call, is_empty,
}

-- The four bytes at an address, as a word.
abbrev pub word_at : UserMemory → ℕ → ℕ
word_at mem a = from_le_bytes (read_user_bytes mem a 4)

-- Two ranges of addresses share none.
abbrev pub IsApart : ℕ → ℕ → ℕ → ℕ → Type 0
IsApart a n b k = (a + n ≤ b) ⊎ (b + k ≤ a)

IsApart-sym : (a n b k : ℕ) → IsApart a n b k → IsApart b k a n
IsApart-sym a n b k (inl h) = inr h
IsApart-sym a n b k (inr h) = inl h

read-write_apart :
    (mem : UserMemory) (a b n : ℕ) (bytes : List ℕ)
    → IsApart a (length bytes) b n
    → read_user_bytes (write_user_bytes mem a bytes) b n ≡ read_user_bytes mem b n
read-write_apart mem a b n bytes (inl h) = read-write_above mem a bytes b n h
read-write_apart mem a b n bytes (inr h) = read-write_below mem a bytes b n h

word_at-written :
    (mem : UserMemory) (a v : ℕ)
    → v < 2 ^ 32
    → word_at (write_user_bytes mem a (to_le_bytes 4 v)) a ≡ v
word_at-written mem a v h =
    let whole = read-write_self mem a (to_le_bytes 4 v) in
    let back : read_user_bytes (write_user_bytes mem a (to_le_bytes 4 v)) a 4 ≡ to_le_bytes 4 v =
      rw (length-to_le_bytes 4 v) at whole in
    ap from_le_bytes back ∙ from_le-to_le 4 v (omega (arith, h))

-- The memory after a call that was answered: the ring holds the body, and the words at the two out
-- pointers say where and how long.
pub record IsServed (mem : UserMemory) (base p q : ℕ) (body : List ℕ) : Type 0 where
  pub body_eq : read_user_bytes mem (base + tool_result_off) (length body) ≡ body
  pub offset_eq : word_at mem p ≡ tool_result_off
  pub len_eq : word_at mem q ≡ length body

served_lem :
    (mem : UserMemory) (base p q : ℕ) (body : List ℕ)
    → length body ≤ tool_result_len
    → IsApart p 4 q 4
    → IsApart p 4 (base + tool_result_off) (length body)
    → IsApart q 4 (base + tool_result_off) (length body)
    → IsServed
        (write_user_bytes
          (write_user_bytes
            (write_user_bytes mem (base + tool_result_off) body)
            p
            (to_le_bytes 4 tool_result_off))
          q
          (to_le_bytes 4 (length body)))
        base
        p
        q
        body
served_lem mem base p q body fits pq pr qr =
    let m1 = write_user_bytes mem (base + tool_result_off) body in
    let m2 = write_user_bytes m1 p (to_le_bytes 4 tool_result_off) in
    let four = length-to_le_bytes 4 (length body) in
    let four' = length-to_le_bytes 4 tool_result_off in
    record {
      body_eq =
          read-write_apart m2 q (base + tool_result_off) (length body) (to_le_bytes 4 (length body))
            (rw four qr)
          ∙ read-write_apart m1 p (base + tool_result_off) (length body)
              (to_le_bytes 4 tool_result_off) (rw four' pr)
          ∙ read-write_self mem (base + tool_result_off) body;
      offset_eq =
          ap from_le_bytes (
            read-write_apart m2 q p 4 (to_le_bytes 4 (length body))
              (rw four (IsApart-sym p 4 q 4 pq)))
          ∙ word_at-written m1 p tool_result_off (omega arith);
      len_eq = word_at-written m2 q (length body) (omega (arith, fits));
    }

own_memory : (memories : ℕ → UserMemory) (me : ℕ) (m : UserMemory) → set_memory memories me m me ≡ m
own_memory memories me m = ground arith

observe_memory : (s : System) (me q : ℕ) → (observe s me).memories q ≡ s.memories q
unfolding observe
observe_memory s me q = elim (Option-cases (ext_of s me)) [
  | inl e ↦ rw (e, observe) refl
  | inr (x, e) ↦ rw (e, observe) refl
]

write_out_memory :
    (s : System) (me ptr value : ℕ)
    → 0 < ptr
    → (write_out s me ptr value).memories me
      ≡ write_user_bytes (s.memories me) ptr (to_le_bytes 4 value)
unfolding write_out
write_out_memory s me ptr value h =
    let given : (ptr == 0) ≡ false = ground (arith, h) in
    rw (given, write_out)
      (own_memory s.memories me (write_user_bytes (s.memories me) ptr (to_le_bytes 4 value)))

answer-IsServed :
    (s : System) (me base id : ℕ) (dr : DispatchResult) (p q : ℕ)
    → dr.status ≡ tool_ok
    → is_empty dr.body ≡ false
    → length dr.body ≤ tool_result_len
    → 0 < p
    → 0 < q
    → IsApart p 4 q 4
    → IsApart p 4 (base + tool_result_off) (length dr.body)
    → IsApart q 4 (base + tool_result_off) (length dr.body)
    → ((answer s me base id dr p q).0 ≡ pos 0)
      × IsServed ((answer s me base id dr p q).1.memories me) base p q dr.body
unfolding answer respond
answer-IsServed s me base id dr p q good full fits a b pq pr qr =
    let short : ltb tool_result_len (length dr.body) ≡ false = ground (arith, fits) in
    let word : length dr.body % u32_mod ≡ length dr.body = omega (arith, fits) in
    let s0 = write_memory s me (base + tool_result_off) dr.body in
    let s1 = write_out s0 me p tool_result_off in
    let s2 = write_out s1 me q (length dr.body) in
    let mem0 : s0.memories me ≡ write_user_bytes (s.memories me) (base + tool_result_off) dr.body =
      own_memory s.memories me _ in
    let mem1 = write_out_memory s0 me p tool_result_off a in
    let mem2 = write_out_memory s1 me q (length dr.body) b in
    let all : (observe s2 me).memories me
        ≡ write_user_bytes
            (write_user_bytes (write_user_bytes (s.memories me) (base + tool_result_off) dr.body) p
              (to_le_bytes 4 tool_result_off))
            q (to_le_bytes 4 (length dr.body)) =
      observe_memory s2 me me
      ∙ mem2
      ∙ ap (λ (m : UserMemory). write_user_bytes m q (to_le_bytes 4 (length dr.body)))
          (mem1
            ∙ ap (λ (m : UserMemory). write_user_bytes m p (to_le_bytes 4 tool_result_off)) mem0) in
    let served = served_lem (s.memories me) base p q dr.body fits pq pr qr in
    let there : IsServed ((observe s2 me).memories me) base p q dr.body =
      subst (λ (m : UserMemory). IsServed m base p q dr.body) (sym all) served in
    rw (good, full, answer, short, word) (refl, there)

-- An agent calls with a request of an admissible length that decodes to `req`, on which the tool
-- succeeds with a body that is not empty and fits in the ring, and with two out pointers that are not
-- null and share no byte with each other or with the place of the body. Then the call returns 0, the
-- ring holds the body, and the words at the pointers say where it starts in the context area and how
-- long it is.
pub sys_tool_call-IsServed :
    (pc : Postcard) (s : System) (me : ℕ) (all : List ℕ) (now req_ptr req_len p q : ℕ)
    (ext : AgentExt) (req : ToolRequest) (dr : DispatchResult) (s2 : System)
    → ext_of s me ≡ some ext
    → 0 < req_ptr
    → 0 < req_len
    → req_len ≤ 64 * 1024
    → decode_frame pc.requests (read_user_bytes (s.memories me) req_ptr req_len) ≡ decoded req
    → dispatch pc (with_ext s me (record ext { loop_state = calling })) all now req ≡ (ok dr, s2)
    → dr.status ≡ tool_ok
    → is_empty dr.body ≡ false
    → length dr.body ≤ tool_result_len
    → 0 < p
    → 0 < q
    → IsApart p 4 q 4
    → IsApart p 4 (ext.context_area_base + tool_result_off) (length dr.body)
    → IsApart q 4 (ext.context_area_base + tool_result_off) (length dr.body)
    → let (r, s') = sys_tool_call pc s me all now req_ptr req_len p q in
      (r ≡ pos 0) × IsServed (s'.memories me) ext.context_area_base p q dr.body
unfolding sys_tool_call received dispatched
sys_tool_call-IsServed pc s me all now req_ptr req_len p q ext req dr s2 is_agent a b c decodes runs
      good full fits pp qq pq pr qr =
    let s1 = with_ext s me (record ext { loop_state = calling }) in
    let base = ext.context_area_base in
    let whole : sys_tool_call pc s me all now req_ptr req_len p q
        ≡ answer s2 me base req.req_id dr p q =
      rw (admissible req_ptr req_len a b c, sys_tool_call)
        (on_agent-some s me _ ext is_agent ∙ rw (decodes, received, runs, dispatched) refl) in
    let served = answer-IsServed s2 me base req.req_id dr p q good full fits pp qq pq pr qr in
    subst (λ (r : ISize × System). (r.0 ≡ pos 0) × IsServed (r.1.memories me) base p q dr.body)
      (sym whole) served
