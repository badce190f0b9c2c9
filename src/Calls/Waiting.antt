-- ===== src/Calls/Waiting.antt =====
-- `sys_agent_wait`: a turn of its loop either returns or puts the agent to sleep. The call is made of
-- `wait_begin` and of turns, one for each time that the agent is scheduled again.
use mathlib.Core.Path.{subst}
use Prim.Native.Nat.{◌%◌, ◌/◌}
use os_agent.Base.{
  ℕ, ◌+◌, ◌<◌, ◌≡◌, refl, sym, ◌∙◌, Bool, true, false, not, ◌&&◌, ◌||◌, inl, inr, Bool-cases,
  Option, none, some, List, [], ◌∷◌, ◌++◌, length, ltb, leb, ◌==◌, ==_iff, ap, if◌then◌else◌,
  u64_mod, arith,
}
use os_agent.Base.Results.{ISize, pos, into_isize, not_an_agent}
use os_agent.Ext.{AgentExt, thinking, idle}
use os_agent.Task.{Kernel, set_status, blocked, block_current_agent}
use os_agent.Task.Invariant.{IsValid, Leaves, block_current_agent-IsValid}
use os_agent.Events.Mail.{delivered-IsValid}
use os_agent.Events.{event_heartbeat, event_message, event_file_modified, has_event}
use os_agent.Calls.{System, ext_of, with_ext}
use os_agent.Calls.Agents.{own_ext}

-- `timeout_ms` is `none` where it is negative. `now_ms` is what `get_time_ms()` returns, below 2 ^ 63.
abbrev pub i64_bound : ℕ
i64_bound = 0x8000_0000_0000_0000

abbrev pub deadline_of : ℕ → Option ℕ → Option ℕ
deadline_of now_ms none = none
deadline_of now_ms (some t) =
    let sum = (now_ms + t) % u64_mod in some (if ltb sum i64_bound then sum else 0)

unfoldable pub wait_begin : System → ℕ → System
wait_begin s me = elim (ext_of s me) [
  | none ↦ s
  | some ext ↦ with_ext s me (record ext { loop_state = thinking })
]

-- The events that are asked for: without any watch, the heartbeat and messages.
abbrev pub watched_mask : AgentExt → ℕ
watched_mask ext =
    if ext.watched_events == 0 then event_heartbeat + event_message else ext.watched_events

abbrev pub no_mail : AgentExt → Bool
no_mail ext = elim ext.mailbox [ [] ↦ true | m ∷ ms ↦ false ]

-- One bit of `c & m`.
abbrev pub bit : Bool → ℕ → ℕ
bit b event = if b then event else 0

-- `triggered`, as the sum of its bits.
unfoldable pub triggered : AgentExt → ℕ
triggered ext =
    let m = watched_mask ext in
    bit (ext.heartbeat_pending && has_event m event_heartbeat) event_heartbeat
    + bit (not (no_mail ext) && has_event m event_message) event_message
    + bit (ext.file_event_pending && has_event m event_file_modified) event_file_modified

unfoldable pub consumed : AgentExt → AgentExt
consumed ext = record ext {
  heartbeat_pending =
      if has_event (triggered ext) event_heartbeat then false else ext.heartbeat_pending;
  file_event_pending =
      if has_event (triggered ext) event_file_modified then false else ext.file_event_pending;
}

abbrev pub timed_out : ℕ → ℕ → Option ℕ → Bool
timed_out start_ms now_ms none = false
timed_out start_ms now_ms (some t) = leb (start_ms + t) now_ms

pub data WaitTurn : Type 0 where
  returned : ISize → System → WaitTurn
  sleeps : System → WaitTurn
  no_current : WaitTurn

unfoldable pub to_sleep : System → Option Kernel → WaitTurn
to_sleep s none = no_current
to_sleep s (some k) = sleeps (record s { kernel = k })

unfoldable pub wait_turn : System → ℕ → Option ℕ → ℕ → Option ℕ → ℕ → WaitTurn
wait_turn s me timeout_ms start_ms deadline now_ms = elim (ext_of s me) [
  | none ↦ returned (into_isize not_an_agent) s
  | some ext ↦
      let cause = triggered ext in
      let after = with_ext s me (consumed ext) in
      let idling = with_ext s me (record (consumed ext) { loop_state = idle }) in
      if not (cause == 0)
      then returned (pos cause) idling
      else if timed_out start_ms now_ms timeout_ms
      then returned (pos 0) idling
      else to_sleep after (block_current_agent after.kernel deadline)
]

-- An agent that watches nothing asks for heartbeats and messages, another for the events of its mask.
abbrev pub asks : AgentExt → ℕ → Bool
asks ext event =
    if ext.watched_events == 0
    then (event == 1) || (event == 2)
    else ext.watched_events / event % 2 == 1

-- The events that an agent has and asks for: a heartbeat is event 1, a message 2, a changed file 4.
module _ (ext : AgentExt) where
  abbrev pub heartbeat_wanted : Bool
  heartbeat_wanted = ext.heartbeat_pending && asks ext 1

  abbrev pub message_wanted : Bool
  message_wanted = ltb 0 (length ext.mailbox) && asks ext 2

  abbrev pub file_wanted : Bool
  file_wanted = ext.file_event_pending && asks ext 4

  asks_heartbeat : has_event (watched_mask ext) event_heartbeat ≡ asks ext 1
  asks_heartbeat = elim (Bool-cases (ext.watched_events == 0)) [
    | inl e ↦ rw e refl
    | inr e ↦ rw e refl
  ]

  asks_message : has_event (watched_mask ext) event_message ≡ asks ext 2
  asks_message = elim (Bool-cases (ext.watched_events == 0)) [
    | inl e ↦ rw e refl
    | inr e ↦ rw e refl
  ]

  asks_file : has_event (watched_mask ext) event_file_modified ≡ asks ext 4
  asks_file = elim (Bool-cases (ext.watched_events == 0)) [ inl e ↦ rw e refl | inr e ↦ rw e refl ]

  has_mail : not (no_mail ext) ≡ ltb 0 (length ext.mailbox)
  has_mail = go ext.mailbox
    where
      go : (ms : List (List ℕ)) → not (elim ms [ [] ↦ true | m ∷ ms ↦ false ]) ≡ ltb 0 (length ms)
      go [] = refl
      go (m ∷ ms) = ground arith

  triggered_lem :
      triggered ext
      ≡ bit heartbeat_wanted event_heartbeat
        + bit message_wanted event_message
        + bit file_wanted event_file_modified
  unfolding triggered
  triggered_lem = rw (asks_heartbeat, asks_message, asks_file, has_mail) refl

-- The time that a wait may take has passed.
abbrev pub is_over : ℕ → ℕ → Option ℕ → Bool
is_over start_ms now_ms none = false
is_over start_ms now_ms (some t) = not (ltb now_ms (start_ms + t))

is_over_lem :
    (start_ms now_ms : ℕ) (t : Option ℕ) → timed_out start_ms now_ms t ≡ is_over start_ms now_ms t
is_over_lem start_ms now_ms none = refl
is_over_lem start_ms now_ms (some t) = ground arith

bits :
    (h m f : Bool)
    → let sum = bit h event_heartbeat + bit m event_message + bit f event_file_modified in
      (has_event sum event_heartbeat ≡ h)
      × (has_event sum event_message ≡ m)
      × (has_event sum event_file_modified ≡ f)
bits true true true = (refl, refl, refl)
bits true true false = (refl, refl, refl)
bits true false true = (refl, refl, refl)
bits true false false = (refl, refl, refl)
bits false true true = (refl, refl, refl)
bits false true false = (refl, refl, refl)
bits false false true = (refl, refl, refl)
bits false false false = (refl, refl, refl)

taken : (p w : Bool) → (if p && w then false else p) ≡ (p && not (p && w))
taken true true = refl
taken true false = refl
taken false w = refl

none_wanted :
    (h m f : Bool)
    → bit h event_heartbeat + bit m event_message + bit f event_file_modified ≡ 0
    → (h ≡ false) × (m ≡ false) × (f ≡ false)
none_wanted true m f e = absurd (omega (arith, e))
none_wanted false true f e = absurd (omega (arith, e))
none_wanted false false true e = absurd (omega (arith, e))
none_wanted false false false e = (refl, refl, refl)

-- The cause of a return, and what it leaves of the agent's events.
pub record IsTriggered (ext ext' : AgentExt) (cause : ℕ) : Type 0 where
  pub bound : cause < 8
  pub heartbeat : has_event cause event_heartbeat ≡ heartbeat_wanted ext
  pub message : has_event cause event_message ≡ message_wanted ext
  pub file : has_event cause event_file_modified ≡ file_wanted ext
  pub heartbeat_left :
      ext'.heartbeat_pending ≡ (ext.heartbeat_pending && not (heartbeat_wanted ext))
  pub file_left : ext'.file_event_pending ≡ (ext.file_event_pending && not (file_wanted ext))
  pub rest_eq : ext' ≡ record ext {
    heartbeat_pending = ext'.heartbeat_pending;
    file_event_pending = ext'.file_event_pending;
  }

-- Each bit of the cause says whether its event is pending and asked for; such a heartbeat or file
-- event is taken, one that is not asked for stays pending, and the agent is else as it was.
pub consumed-IsTriggered : (ext : AgentExt) → IsTriggered ext (consumed ext) (triggered ext)
unfolding consumed
consumed-IsTriggered ext =
    let (h, m, f) = bits (heartbeat_wanted ext) (message_wanted ext) (file_wanted ext) in
    let sum = triggered_lem ext in
    record {
      bound = rw sum (small (heartbeat_wanted ext) (message_wanted ext) (file_wanted ext));
      heartbeat = rw sum h;
      message = rw sum m;
      file = rw sum f;
      heartbeat_left = rw (sum, h) (taken ext.heartbeat_pending (asks ext 1));
      file_left = rw (sum, f) (taken ext.file_event_pending (asks ext 4));
      rest_eq = refl;
    }
  where
    small :
        (h m f : Bool) → bit h event_heartbeat + bit m event_message + bit f event_file_modified < 8
    small true true true = omega arith
    small true true false = omega arith
    small true false true = omega arith
    small true false false = omega arith
    small false true true = omega arith
    small false true false = omega arith
    small false false true = omega arith
    small false false false = omega arith

-- The agent sleeps: no event that it asks for is pending, and its time is not over.
pub record IsAsleep (s' : System) (me : ℕ) (ext : AgentExt) (start_ms now_ms : ℕ)
    (timeout_ms : Option ℕ) : Type 0 where
  pub no_heartbeat : heartbeat_wanted ext ≡ false
  pub no_message : message_wanted ext ≡ false
  pub no_file : file_wanted ext ≡ false
  pub in_time : is_over start_ms now_ms timeout_ms ≡ false
  pub status_eq : (s'.kernel.tasks me).task_status ≡ blocked
  pub free : s'.kernel.current ≡ none
  pub valid : IsValid s'.kernel

-- What a turn of the wait may come to.
abbrev pub IsWaited : System → ℕ → AgentExt → ℕ → ℕ → Option ℕ → WaitTurn → Type 0
IsWaited s me ext start_ms now_ms timeout_ms (returned v s') =
    (cause : ℕ) × (ext' : AgentExt) × (v ≡ pos cause)
    × IsTriggered ext ext' cause
    × (ext_of s' me ≡ some (record ext' { loop_state = idle }))
    × (((heartbeat_wanted ext || message_wanted ext || file_wanted ext)
          || is_over start_ms now_ms timeout_ms)
        ≡ true)
IsWaited s me ext start_ms now_ms timeout_ms (sleeps s') =
    IsAsleep s' me ext start_ms now_ms timeout_ms
IsWaited s me ext start_ms now_ms timeout_ms no_current = ⊥

no_event :
    (ext : AgentExt)
    → (triggered ext == 0) ≡ true
    → bit (heartbeat_wanted ext) event_heartbeat
        + bit (message_wanted ext) event_message
        + bit (file_wanted ext) event_file_modified
      ≡ 0
no_event ext nothing = sym (triggered_lem ext) ∙ (==_iff _ 0).0 nothing

some_wanted :
    (ext : AgentExt)
    → (triggered ext == 0) ≡ false
    → (heartbeat_wanted ext || message_wanted ext || file_wanted ext) ≡ true
some_wanted ext h =
    let h' = rw (triggered_lem ext) at h in
    go (heartbeat_wanted ext) (message_wanted ext) (file_wanted ext) h'
  where
    go :
        (h m f : Bool)
        → (bit h event_heartbeat + bit m event_message + bit f event_file_modified == 0) ≡ false
        → (h || m || f) ≡ true
    go true m f e = refl
    go false true f e = refl
    go false false true e = refl
    go false false false e = ground (arith, e)

blocked_kernel :
    (k : Kernel) (me : ℕ) (deadline : Option ℕ)
    → IsValid k
    → k.current ≡ some me
    → (k' : Kernel) × (block_current_agent k deadline ≡ some k')
      × ((k'.tasks me).task_status ≡ blocked)
      × (k'.current ≡ none)
      × IsValid k'
blocked_kernel k me deadline v c = (
  k',
  slept,
  ground arith,
  refl,
  subst (Leaves IsValid) slept (block_current_agent-IsValid k deadline v),
)
  where
    k' : Kernel
    k' = record (set_status k me blocked) {
      current = none;
      blocked_agents = k.blocked_agents ++ (record { task = me; wake_deadline_ms = deadline } ∷ []);
    }

    slept : block_current_agent k deadline ≡ some k'
    slept = unfold block_current_agent in rw (c, block_current_agent) refl

or_last : (b c : Bool) → c ≡ true → (b || c) ≡ true
or_last true c h = refl
or_last false c h = h

-- In a valid kernel whose current task is an agent, a turn of the wait returns exactly if some event that
-- is asked for is pending or the time is over; an agent that watches nothing asks for heartbeats and
-- messages. The bits of the result are the events that are pending and asked for; such a heartbeat or file
-- event is taken, and the agent is idle and else as it was. Otherwise the agent sleeps, the processor is
-- free, and the kernel stays valid.
pub wait_turn-IsWaited :
    (s : System) (me : ℕ) (ext : AgentExt) (timeout_ms : Option ℕ) (start_ms : ℕ)
    (deadline : Option ℕ) (now_ms : ℕ)
    → IsValid s.kernel
    → s.kernel.current ≡ some me
    → ext_of s me ≡ some ext
    → IsWaited s me ext start_ms now_ms timeout_ms
        (wait_turn s me timeout_ms start_ms deadline now_ms)
unfolding wait_turn to_sleep
wait_turn-IsWaited s me ext timeout_ms start_ms deadline now_ms v c e =
    elim (Bool-cases (triggered ext == 0)) [
      | inr some_event ↦
          let wanted = some_wanted ext some_event in
          rw (e, some_event, wait_turn)
            (
              triggered ext,
              consumed ext,
              refl,
              consumed-IsTriggered ext,
              own_ext s me _,
              rw wanted refl,
            )
      | inl nothing ↦ elim (Bool-cases (timed_out start_ms now_ms timeout_ms)) [
        | inl over ↦
            let over' = sym (is_over_lem start_ms now_ms timeout_ms) ∙ over in
            rw (e, nothing, over, wait_turn)
              (
                triggered ext,
                consumed ext,
                ap pos (ground (arith, nothing)),
                consumed-IsTriggered ext,
                own_ext s me _,
                or_last _ (is_over start_ms now_ms timeout_ms) over',
              )
        | inr in_time ↦
            let after = with_ext s me (consumed ext) in
            let (k', slept, status, free, valid) =
              blocked_kernel after.kernel me deadline
                (delivered-IsValid s.kernel me (consumed ext) v) c in
            let (h, m, f) =
              none_wanted (heartbeat_wanted ext) (message_wanted ext) (file_wanted ext)
                (no_event ext nothing) in
            rw (e, nothing, in_time, wait_turn, slept, to_sleep)
              (record {
                no_heartbeat = h;
                no_message = m;
                no_file = f;
                in_time = sym (is_over_lem start_ms now_ms timeout_ms) ∙ in_time;
                status_eq = status;
                free = free;
                valid = valid;
              })
      ]
    ]
