-- ===== src/Events/Mail.antt =====
-- `deliver_message` appends to the mailbox, within its capacity, and wakes the receiver.
use os_agent.Base.{
  ℕ, ◌≤◌, ◌<◌, ◌≡◌, refl, ap, ◌∙◌, inl, inr, true, ◌&&◌, some, List, [], ◌∷◌, ◌++◌, length, drop,
  leb, leb→le, Bool-cases, ◌==◌, if◌then◌else◌, arith, length-append,
}
use os_agent.Ext.{AgentExt}
use os_agent.Task.{Kernel, ready, wake_agent_by_pid}
use os_agent.Task.Invariant.{IsValid, IsPlaced}
use os_agent.Task.Wakes.{wake_agent_by_pid-IsValid}
use os_agent.Events.{set_ext, push_message, is_listed, deliver_message}
use os_agent.Events.Visit.{is_blocked, wake-status, wake-ext}

-- What a push makes of the mailbox: `gone` is dropped in front, `kept` stays.
pub record IsPushed (old new : List (List ℕ)) (payload : List ℕ) (capacity : ℕ) : Type 0 where
  pub gone : List (List ℕ)
  pub kept : List (List ℕ)
  pub old_eq : old ≡ gone ++ kept
  pub new_eq : new ≡ kept ++ (payload ∷ [])
  pub gone_length : length gone ≡ (if leb capacity (length old) then 1 else 0)
  pub bounded : length new ≤ capacity

drop_first :
    (xs : List (List ℕ))
    → 0 < length xs
    → (gone : List (List ℕ)) × (xs ≡ gone ++ drop 1 xs) × (length gone ≡ 1)
drop_first [] h = absurd (omega (arith, h))
drop_first (x ∷ xs) h = (x ∷ [], refl, refl)

-- A mailbox within a capacity above 0 stays within it: the new message comes last, the messages
-- before it are the old ones in their order, and the oldest of them is dropped exactly if the mailbox
-- was full.
pub push_message-IsPushed :
    (ext : AgentExt) (payload : List ℕ)
    → 0 < ext.mailbox_capacity
    → length ext.mailbox ≤ ext.mailbox_capacity
    → IsPushed ext.mailbox (push_message ext payload).mailbox payload ext.mailbox_capacity
unfolding push_message
push_message-IsPushed ext payload some_room fits =
    elim (Bool-cases (leb ext.mailbox_capacity (length ext.mailbox))) [
      | inl full ↦
          let (gone, split, one) =
            drop_first ext.mailbox
              (omega (arith, leb→le ext.mailbox_capacity (length ext.mailbox) full, some_room)) in
          record {
            gone = gone;
            kept = drop 1 ext.mailbox;
            old_eq = split;
            new_eq = rw full refl;
            gone_length = rw full one;
            bounded = rw full (
                omega (
                  arith,
                  length-append (drop 1 ext.mailbox) (payload ∷ []),
                  length-append gone (drop 1 ext.mailbox),
                  ap length split,
                  one,
                  fits,
                ));
          }
      | inr room ↦ record {
        gone = [];
        kept = ext.mailbox;
        old_eq = refl;
        new_eq = rw room refl;
        gone_length = rw room refl;
        bounded = rw room (ground (arith, length-append ext.mailbox (payload ∷ []), room));
      }
    ]

-- The state after a delivery, at the task `q`.
pub record IsDelivered (k : Kernel) (target_pid : ℕ) (ext : AgentExt) (payload : List ℕ)
    (k' : Kernel) (q : ℕ) : Type 0 where
  pub ext_eq :
      (k'.tasks q).agent_ext
      ≡ (if target_pid == q then some (push_message ext payload) else (k.tasks q).agent_ext)
  pub status_eq : (k'.tasks q).task_status ≡ (
      if (target_pid == q) && is_blocked (k.tasks q).task_status
      then ready
      else (k.tasks q).task_status)
  pub placed : IsPlaced k' q

module _ (k : Kernel) (target_pid : ℕ) (ext : AgentExt) where
  abbrev pub delivered : Kernel
  delivered = record k { tasks = set_ext k.tasks target_pid ext }

  delivered_status : (q : ℕ) → (delivered.tasks q).task_status ≡ (k.tasks q).task_status
  delivered_status q = ground arith

  pub delivered-IsValid : IsValid k → IsValid delivered
  unfolding IsValid
  delivered-IsValid v q =
      let same = delivered_status q in
      record {
        on_queue = rw same (v q).on_queue;
        asleep = rw same (v q).asleep;
        on_cpu = rw same (v q).on_cpu;
      }

delivered_lem :
    (k : Kernel) (target_pid : ℕ) (ext : AgentExt) (payload : List ℕ) (q : ℕ)
    → IsValid k
    → IsDelivered k target_pid ext payload
        (wake_agent_by_pid
          (record k { tasks = set_ext k.tasks target_pid (push_message ext payload) })
          target_pid).0
        q
unfolding IsValid
delivered_lem k target_pid ext payload q v =
    let new = push_message ext payload in
    let d = delivered k target_pid new in
    let w = delivered-IsValid k target_pid new v in
    record {
      ext_eq = wake-ext d target_pid q ∙ ground arith;
      status_eq =
          wake-status d target_pid q w ∙ ground (arith, delivered_status k target_pid new q);
      placed = wake_agent_by_pid-IsValid d target_pid w q;
    }

-- A message to a listed agent is delivered: the agent has it in its mailbox and is ready if it slept;
-- no other task differs in its agent or its status, and every task stands where its status says.
pub deliver_message-IsDelivered :
    (k : Kernel) (all : List ℕ) (target_pid : ℕ) (payload : List ℕ) (ext : AgentExt) (q : ℕ)
    → IsValid k
    → is_listed all target_pid ≡ true
    → (k.tasks target_pid).agent_ext ≡ some ext
    → ((deliver_message k all target_pid payload).1 ≡ true)
      × IsDelivered k target_pid ext payload (deliver_message k all target_pid payload).0 q
unfolding deliver_message
deliver_message-IsDelivered k all target_pid payload ext q v listed is_agent =
    rw (listed, is_agent, deliver_message) (refl, delivered_lem k target_pid ext payload q v)
