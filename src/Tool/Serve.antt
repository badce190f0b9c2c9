-- ===== src/Tool/Serve.antt =====
-- What a tool call leaves behind: the state of the agent's loop, and the result in its memory.
use os_agent.Base.{
  ℕ, ◌+◌, ◌*◌, ◌≤◌, ◌<◌, ◌≡◌, ◌≢◌, refl, sym, ◌∙◌, true, false, Bool-cases, Option-cases, ◌||◌,
  ◌&&◌, not, inl, inr, some, List, length, ltb, ◌==◌, if◌then◌else◌, arith,
}
use mathlib.Core.Path.{subst}
use os_agent.Base.Bytes.{read_user_bytes}
use os_agent.Base.Results.{
  AgentResult, ok, err, ISize, into_isize, AgentError, bad_user_pointer, buffer_too_small,
  protocol_malformed, not_an_agent, quota_exceeded, not_found, permission_denied, internal_error,
}
use os_agent.Ext.{AgentExt, LoopState, calling, observing, tool_result_off, tool_result_len}
use os_agent.Events.{deliver_message, push_message, is_listed, set_ext}
use os_agent.Events.Visit.{wake-ext}
use os_agent.Proto.{
  ToolRequest, ToolResponse, ToolParams, ToolName, system_status, query_process, read_context,
  send_message, query_file, system_status_params, query_process_params, read_context_params,
  send_message_params, query_file_params, Decoded, decoded, frame, postcard, decode_frame,
}
use os_agent.Calls.{System, with_ext, ext_of, on_agent}
use os_agent.Calls.Agents.{is_negative, own_ext, on_agent-some}
use os_agent.Tool.{Postcard, DispatchResult, dispatch, handle_send_message}
use os_agent.Tool.Call.{
  write_memory, write_out, observe, respond, answer, dispatched, received, sys_tool_call, is_ok,
  is_empty,
}

-- Every tool but `send_message` only reads: the system stays as it is.
pub dispatch-reads :
    (pc : Postcard) (s : System) (all : List ℕ) (now : ℕ) (req : ToolRequest)
    → req.tool ≢ send_message
    → (dispatch pc s all now req).1 ≡ s
unfolding dispatch
dispatch-reads pc s all now req other = go req.tool refl
  where
    go : (t : ToolName) → req.tool ≡ t → (dispatch pc s all now req).1 ≡ s
    go system_status e = rw (e, dispatch) refl
    go query_process e = rw (e, dispatch) refl
    go read_context e = rw (e, dispatch) refl
    go send_message e = absurd (other e)
    go query_file e = rw (e, dispatch) refl

-- The agent's loop state after a step is as said, and the task still is an agent.
pub record HasLoopState (s : System) (me : ℕ) (st : LoopState) : Type 0 where
  pub ext : AgentExt
  pub ext_eq : ext_of s me ≡ some ext
  pub state_eq : ext.loop_state ≡ st

HasLoopState-deliver :
    (s : System) (me : ℕ) (all : List ℕ) (target : ℕ) (payload : List ℕ) (st : LoopState)
    → HasLoopState s me st
    → HasLoopState (record s { kernel = (deliver_message s.kernel all target payload).0 }) me st
unfolding deliver_message push_message
HasLoopState-deliver s me all target payload st h = elim (Bool-cases (is_listed all target)) [
  | inr unlisted ↦ record {
    ext = h.ext;
    ext_eq = rw (unlisted, deliver_message) h.ext_eq;
    state_eq = h.state_eq;
  }
  | inl listed ↦ elim (Option-cases (s.kernel.tasks target).agent_ext) [
    | inl no_one ↦ record {
      ext = h.ext;
      ext_eq = rw (listed, deliver_message, no_one) h.ext_eq;
      state_eq = h.state_eq;
    }
    | inr (x, e) ↦
        let there =
          wake-ext
            (record s.kernel { tasks = set_ext s.kernel.tasks target (push_message x payload) })
            target me in
        elim (Bool-cases (me == target)) [
          | inl mine ↦ record {
            ext = push_message x payload;
            ext_eq = rw (listed, deliver_message, e) (there ∙ ground (arith, mine));
            state_eq = ground (arith, h.ext_eq, e, mine, h.state_eq);
          }
          | inr other ↦ record {
            ext = h.ext;
            ext_eq = rw (listed, deliver_message, e) (there ∙ ground (arith, other, h.ext_eq));
            state_eq = h.state_eq;
          }
        ]
  ]
]

HasLoopState-send :
    (s : System) (me : ℕ) (all : List ℕ) (params : ToolParams) (st : LoopState)
    → HasLoopState s me st
    → HasLoopState (handle_send_message s all params).1 me st
unfolding handle_send_message
HasLoopState-send s me all (send_message_params target payload) st h =
    HasLoopState-deliver s me all target payload st h
HasLoopState-send s me all system_status_params st h = h
HasLoopState-send s me all (query_process_params a b) st h = h
HasLoopState-send s me all (read_context_params a b) st h = h
HasLoopState-send s me all (query_file_params a b c d) st h = h

HasLoopState-dispatch :
    (pc : Postcard) (s : System) (me : ℕ) (all : List ℕ) (now : ℕ) (req : ToolRequest)
    (st : LoopState)
    → HasLoopState s me st
    → HasLoopState (dispatch pc s all now req).1 me st
unfolding dispatch
HasLoopState-dispatch pc s me all now req st h = go req.tool refl
  where
    go : (t : ToolName) → req.tool ≡ t → HasLoopState (dispatch pc s all now req).1 me st
    go system_status e = rw (e, dispatch) h
    go query_process e = rw (e, dispatch) h
    go read_context e = rw (e, dispatch) h
    go send_message e = rw (e, dispatch) (HasLoopState-send s me all req.params st h)
    go query_file e = rw (e, dispatch) h

write_out_ext : (s : System) (me ptr value q : ℕ) → ext_of (write_out s me ptr value) q ≡ ext_of s q
unfolding write_out
write_out_ext s me ptr value q = ground arith

HasLoopState-observe :
    (s : System) (me : ℕ) (st : LoopState)
    → HasLoopState s me st
    → HasLoopState (observe s me) me observing
unfolding observe
HasLoopState-observe s me st h = record {
  ext = record h.ext { loop_state = observing };
  ext_eq = rw (h.ext_eq, observe) (own_ext s me (record h.ext { loop_state = observing }));
  state_eq = refl;
}

-- The state that fits the result.
abbrev pub state_after : ISize → LoopState
state_after r = if is_negative r then calling else observing

pub record IsLoopKept (r : ISize × System) (me : ℕ) : Type 0 where
  pub state : HasLoopState r.1 me (state_after r.0)

IsLoopKept-respond :
    (s : System) (me : ℕ) (resp : ToolResponse) (p q : ℕ) (st : LoopState)
    → HasLoopState s me st
    → IsLoopKept (respond s me resp p q) me
unfolding respond
IsLoopKept-respond s me resp p q st h =
    let s1 = write_out s me p resp.result_offset in
    let s2 = write_out s1 me q resp.result_len in
    record {
      state = HasLoopState-observe s2 me st (record {
        ext = h.ext;
        ext_eq =
            write_out_ext s1 me q resp.result_len me
            ∙ write_out_ext s me p resp.result_offset me
            ∙ h.ext_eq;
        state_eq = h.state_eq;
      });
    }

HasLoopState-written :
    (s : System) (me at : ℕ) (bytes : List ℕ) (st : LoopState)
    → HasLoopState s me st
    → HasLoopState (write_memory s me at bytes) me st
HasLoopState-written s me at bytes st h = record {
  ext = h.ext;
  ext_eq = h.ext_eq;
  state_eq = h.state_eq;
}

IsLoopKept-answer :
    (s : System) (me base id : ℕ) (dr : DispatchResult) (p q : ℕ)
    → HasLoopState s me calling
    → IsLoopKept (answer s me base id dr p q) me
unfolding answer
IsLoopKept-answer s me base id dr p q h =
    let kept = HasLoopState-written s me (base + tool_result_off) dr.body calling h in
    elim (Bool-cases (is_ok dr.status && not (is_empty dr.body))) [
      | inr e ↦ rw (e, answer) (IsLoopKept-respond s me _ p q calling h)
      | inl e ↦ elim (Bool-cases (ltb tool_result_len (length dr.body))) [
        | inl long ↦ rw (e, answer, long) (record { state = h })
        | inr fits ↦
            rw (e, answer, fits)
              (IsLoopKept-respond (write_memory s me (base + tool_result_off) dr.body) me _ p q
                calling kept)
      ]
    ]

into_isize_negative : (e : AgentError) → is_negative (into_isize e) ≡ true
into_isize_negative bad_user_pointer = refl
into_isize_negative buffer_too_small = refl
into_isize_negative protocol_malformed = refl
into_isize_negative not_an_agent = refl
into_isize_negative quota_exceeded = refl
into_isize_negative not_found = refl
into_isize_negative permission_denied = refl
into_isize_negative internal_error = refl

IsLoopKept-dispatched :
    (me base id p q : ℕ) (r : AgentResult DispatchResult) (s : System)
    → HasLoopState s me calling
    → IsLoopKept (dispatched me base id p q (r, s)) me
unfolding dispatched
IsLoopKept-dispatched me base id p q (err e) s h = record { state = rw (into_isize_negative e) h }
IsLoopKept-dispatched me base id p q (ok dr) s h = IsLoopKept-answer s me base id dr p q h

IsLoopKept-received :
    (pc : Postcard) (s : System) (me : ℕ) (all : List ℕ) (now base p q : ℕ)
    (d : Decoded ToolRequest)
    → HasLoopState s me calling
    → IsLoopKept (received pc s me all now base p q d) me
unfolding received
IsLoopKept-received pc s me all now base p q (frame e) h = record { state = h }
IsLoopKept-received pc s me all now base p q postcard h = record { state = h }
IsLoopKept-received pc s me all now base p q (decoded req) h =
    let r = dispatch pc s all now req in
    IsLoopKept-dispatched me base req.req_id p q r.0 r.1
      (HasLoopState-dispatch pc s me all now req calling h)

IsLoopKept-on_agent :
    (s : System) (me : ℕ) (f : AgentExt → ISize × System) (ext : AgentExt)
    → ext_of s me ≡ some ext
    → IsLoopKept (f ext) me
    → IsLoopKept (on_agent s me f) me
IsLoopKept-on_agent s me f ext e h =
    subst (λ (r : ISize × System). IsLoopKept r me) (sym (on_agent-some s me f ext e)) h

pub admissible :
    (req_ptr req_len : ℕ)
    → 0 < req_ptr
    → 0 < req_len
    → req_len ≤ 64 * 1024
    → ((req_ptr == 0) || ((req_len == 0) || ltb (64 * 1024) req_len)) ≡ false
admissible req_ptr req_len a b c = ground (arith, a, b, c)

-- The call of an agent with a request of an admissible length, whatever its bytes: afterwards the
-- task still is an agent, and its loop observes if the result is not negative; if the call fails,
-- the loop is left calling.
pub sys_tool_call-IsLoopKept :
    (pc : Postcard) (s : System) (me : ℕ) (all : List ℕ) (now req_ptr req_len p q : ℕ)
    (ext : AgentExt)
    → ext_of s me ≡ some ext
    → 0 < req_ptr
    → 0 < req_len
    → req_len ≤ 64 * 1024
    → IsLoopKept (sys_tool_call pc s me all now req_ptr req_len p q) me
unfolding sys_tool_call
sys_tool_call-IsLoopKept pc s me all now req_ptr req_len p q ext is_agent a b c =
    let called = record ext { loop_state = calling } in
    let s1 = with_ext s me called in
    rw (admissible req_ptr req_len a b c, sys_tool_call)
      (IsLoopKept-on_agent s me _ ext is_agent (
        IsLoopKept-received pc s1 me all now ext.context_area_base p q
          (decode_frame pc.requests (read_user_bytes (s.memories me) req_ptr req_len))
          (record { ext = called; ext_eq = own_ext s me called; state_eq = refl })))
