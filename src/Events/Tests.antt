-- ===== src/Events/Tests.antt =====
-- The events at concrete inputs: an agent that sleeps and one that does not.
use os_agent.Base.{◌≡◌, refl, true, some, [], ◌∷◌}
use os_agent.Ext.{AgentExt, normal}
use os_agent.Ext
use os_agent.Task.{Task, Kernel, add_task, admit}
use os_agent.Task.Invariant.{IsValid}
use os_agent.Task.Machine.{boot, no_task, booted, stepped, admits, Reached-IsValid}
use os_agent.Events.{tick_all_agents, is_listed}
use os_agent.Events.Visit.{IsVisited}
use os_agent.Events.Beat.{must_beat, after_beat, after_beat_settles, tick_all_agents-IsVisited}

-- An agent with a heartbeat each 100 ms that watches file events.
abbrev pub beating : AgentExt
beating = record (Ext.new normal 0x8000_0000 65536 128 16384) {
  heartbeat_interval_ms = 100;
  watched_events = 4;
}

abbrev agent_task : Task
agent_task = record no_task { agent_ext = some beating }

abbrev one_agent : Kernel
one_agent = admit boot 0 agent_task

one_agent-IsValid : IsValid one_agent
one_agent-IsValid =
    Reached-IsValid one_agent (stepped boot one_agent booted (admits 0 agent_task refl))

tick_all_agents-IsVisited_example :
    IsVisited
      (must_beat 250)
      (after_beat 250)
      (after_beat_settles 250)
      one_agent
      (0 ∷ [])
      (tick_all_agents one_agent (0 ∷ []) 250)
      0
tick_all_agents-IsVisited_example =
    tick_all_agents-IsVisited one_agent (0 ∷ []) 250 0 one_agent-IsValid

zero_is_listed : is_listed (0 ∷ []) 0 ≡ true
unfolding is_listed
zero_is_listed = refl

zero_is_agent : (one_agent.tasks 0).agent_ext ≡ some beating
unfolding admit add_task
zero_is_agent = refl
