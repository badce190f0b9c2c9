-- ===== src/Calls/Agents.antt =====
-- The calls on the agent of a task: who may make them, and the way of a message.
use os_agent.Base.{
  ℕ, zero, suc, ◌<◌, ◌≡◌, refl, ap, sym, ◌∙◌, Bool, true, false, Option, none, some, List, [], ◌∷◌,
  ◌++◌, length, take, leb, ◌==◌, if◌then◌else◌, arith, length-take,
}
use mathlib.Core.Path.{subst}
use Prim.Native.Nat.{min}
use os_agent.Base.Bytes.{read_user_bytes, write_user_bytes, read-write_self}
use os_agent.Base.Results.{ISize, pos, negsuc}
use os_agent.Ext.{AgentExt, LoopState}
use os_agent.Task.Invariant.{IsValid}
use os_agent.Events.{is_listed, push_message, deliver_message}
use os_agent.Events.Mail.{deliver_message-IsDelivered}
use os_agent.Calls.{
  System, on_agent, ext_of, sys_agent_info, sys_context_push, sys_context_rollback,
  sys_context_clear, sys_agent_set_loop_state, sys_agent_heartbeat_set, sys_agent_heartbeat_stop,
  sys_agent_watch, sys_agent_unwatch, sys_mailbox_recv, take_message, set_memory, with_ext,
  loop_state_of,
}

abbrev pub is_negative : ISize → Bool
is_negative (pos n) = false
is_negative (negsuc n) = true

-- A refusal: the result is negative and the state is the old one.
pub record IsRefused (s : System) (r : ISize × System) : Type 0 where
  pub negative : is_negative r.0 ≡ true
  pub same : r.1 ≡ s

refusal : (s : System) (n : ℕ) → IsRefused s (negsuc n, s)
refusal s n = record { negative = refl; same = refl }

IsRefused-on_agent :
    (s : System) (me : ℕ) (f : AgentExt → ISize × System)
    → ext_of s me ≡ none
    → IsRefused s (on_agent s me f)
IsRefused-on_agent s me f e =
    subst
      (λ (o : Option AgentExt). IsRefused s (elim o [ none ↦ (negsuc 3, s) | some ext ↦ f ext ]))
      (sym e) (refusal s 3)

IsRefused-if :
    (s : System) (b : Bool) (x y : ISize × System)
    → IsRefused s x
    → IsRefused s y
    → IsRefused s (if b then x else y)
IsRefused-if s true x y hx hy = hx
IsRefused-if s false x y hx hy = hy

IsRefused-loop_state :
    (s : System) (me : ℕ) (o : Option LoopState)
    → ext_of s me ≡ none
    → IsRefused s (elim o [
      | none ↦ (negsuc 0, s)
      | some st ↦ on_agent s me (λ ext. (pos 0, with_ext s me (record ext { loop_state = st })))
    ])
IsRefused-loop_state s me none e = refusal s 0
IsRefused-loop_state s me (some st) e = IsRefused-on_agent s me _ e

-- A task that is no agent is refused by every call that works on an agent, whatever the arguments:
-- the result is negative and the state is the old one.
pub no_agent-IsRefused :
    (s : System) (me a b c d e : ℕ)
    → ext_of s me ≡ none
    → IsRefused s (sys_agent_info s me a b)
      × IsRefused s (sys_context_push s me a b c d e)
      × IsRefused s (sys_context_rollback s me a)
      × IsRefused s (sys_context_clear s me)
      × IsRefused s (sys_agent_set_loop_state s me a)
      × IsRefused s (sys_agent_heartbeat_set s me a b)
      × IsRefused s (sys_agent_heartbeat_stop s me)
      × IsRefused s (sys_agent_watch s me a)
      × IsRefused s (sys_agent_unwatch s me a)
      × IsRefused s (sys_mailbox_recv s me a b)
unfolding sys_agent_info sys_context_push sys_context_rollback sys_context_clear
    sys_agent_set_loop_state sys_agent_heartbeat_set sys_agent_heartbeat_stop sys_agent_watch
    sys_agent_unwatch sys_mailbox_recv
no_agent-IsRefused s me a b c d e none_there = (
  IsRefused-on_agent s me _ none_there,
  IsRefused-if s _ _ _ (refusal s 1)
      (IsRefused-if s _ _ _ (refusal s 1) (IsRefused-on_agent s me _ none_there)),
  IsRefused-on_agent s me _ none_there,
  IsRefused-on_agent s me _ none_there,
  IsRefused-loop_state s me (loop_state_of a) none_there,
  IsRefused-on_agent s me _ none_there,
  IsRefused-on_agent s me _ none_there,
  IsRefused-on_agent s me _ none_there,
  IsRefused-on_agent s me _ none_there,
  IsRefused-if s _ _ _ (refusal s 0) (IsRefused-on_agent s me _ none_there),
)

pub own_ext : (s : System) (me : ℕ) (x : AgentExt) → ext_of (with_ext s me x) me ≡ some x
own_ext s me x = ground arith

pub on_agent-some :
    (s : System) (me : ℕ) (f : AgentExt → ISize × System) (ext : AgentExt)
    → ext_of s me ≡ some ext
    → on_agent s me f ≡ f ext
on_agent-some s me f ext e =
    ap (λ (o : Option AgentExt). elim o [ none ↦ (negsuc 3, s) | some x ↦ f x ]) e

take-min : (n : ℕ) (xs : List ℕ) → take (min n (length xs)) xs ≡ take n xs
take-min zero xs = rw (zero_min (length xs)) refl
  where
    zero_min : (m : ℕ) → min 0 m ≡ 0
    zero_min m = omega arith
take-min (suc n) [] = let none_there : min (suc n) 0 ≡ 0 = omega arith in rw none_there refl
take-min (suc n) (x ∷ xs) = rw (suc_min (length xs)) (ap (λ ys. x ∷ ys) (take-min n xs))
  where
    suc_min : (m : ℕ) → min (suc n) (suc m) ≡ suc (min n m)
    suc_min m = omega arith

queued_mail :
    (ext : AgentExt) (payload : List ℕ)
    → length ext.mailbox < ext.mailbox_capacity
    → (push_message ext payload).mailbox ≡ ext.mailbox ++ (payload ∷ [])
unfolding push_message
queued_mail ext payload room =
    let roomy : leb ext.mailbox_capacity (length ext.mailbox) ≡ false = ground (arith, room) in
    rw roomy refl

-- What `sys_mailbox_recv` makes of a mailbox that starts with a message.
recv_lem :
    (s : System) (me buf_ptr buf_len : ℕ) (ext : AgentExt) (msg : List ℕ) (rest : List (List ℕ))
    → ext_of s me ≡ some ext
    → ext.mailbox ≡ msg ∷ rest
    → 0 < buf_ptr
    → sys_mailbox_recv s me buf_ptr buf_len ≡ (
      pos (min buf_len (length msg)),
      record (with_ext s me (record ext { mailbox = rest })) {
        memories =
            set_memory s.memories me
              (write_user_bytes (s.memories me) buf_ptr (take (min buf_len (length msg)) msg));
      },
    )
unfolding sys_mailbox_recv take_message
recv_lem s me buf_ptr buf_len ext msg rest e m there =
    let given : (buf_ptr == 0) ≡ false = ground (arith, there) in
    rw given (on_agent-some s me _ ext e ∙ rw m refl)

back :
    (s : System) (me ptr : ℕ) (bytes : List ℕ)
    → read_user_bytes
        (set_memory s.memories me (write_user_bytes (s.memories me) ptr bytes) me)
        ptr
        (length bytes)
      ≡ bytes
back s me ptr bytes = ground (arith, read-write_self (s.memories me) ptr bytes)

now_has :
    (s : System) (me : ℕ) (ext : AgentExt) (payload : List ℕ) (rest : List (List ℕ))
    → ext_of (with_ext s me (record (push_message ext payload) { mailbox = rest })) me
      ≡ some (record ext { mailbox = rest })
unfolding push_message
now_has s me ext payload rest = own_ext s me (record ext { mailbox = rest })

-- A message that is delivered to an agent whose mailbox has room goes behind the messages that are there.
-- The next receive takes the first of them all, into the buffer as far as it goes: the call returns how many
-- bytes of it stand there, and the mailbox keeps the other messages in their order.
pub recv-deliver :
    (s : System) (all : List ℕ) (target_pid : ℕ) (payload : List ℕ) (ext : AgentExt)
    (buf_ptr buf_len : ℕ) (first : List ℕ) (rest : List (List ℕ))
    → IsValid s.kernel
    → is_listed all target_pid ≡ true
    → ext_of s target_pid ≡ some ext
    → length ext.mailbox < ext.mailbox_capacity
    → ext.mailbox ++ (payload ∷ []) ≡ first ∷ rest
    → 0 < buf_ptr
    → let (n, s') =
        sys_mailbox_recv
          (record s { kernel = (deliver_message s.kernel all target_pid payload).0 })
          target_pid
          buf_ptr
          buf_len in
      let got = take buf_len first in
      (n ≡ pos (length got))
      × (read_user_bytes (s'.memories target_pid) buf_ptr (length got) ≡ got)
      × (ext_of s' target_pid ≡ some (record ext { mailbox = rest }))
recv-deliver s all target_pid payload ext buf_ptr buf_len first rest v listed is_agent room mail
      there =
    let s1 : System = record s { kernel = (deliver_message s.kernel all target_pid payload).0 } in
    let d =
      (deliver_message-IsDelivered s.kernel all target_pid payload ext target_pid v listed
        is_agent).1 in
    let now_there : ext_of s1 target_pid ≡ some (push_message ext payload) =
      d.ext_eq ∙ ground arith in
    let received =
      recv_lem s1 target_pid buf_ptr buf_len (push_message ext payload) first rest now_there
        (queued_mail ext payload room ∙ mail) there in
    let count : min buf_len (length first) ≡ length (take buf_len first) =
      sym (length-take buf_len first) in
    rw (received, take-min buf_len first)
      (
        ap pos count,
        back s1 target_pid buf_ptr (take buf_len first),
        now_has s1 target_pid ext payload rest,
      )
