-- ===== src/Server/LocalTasks.antt =====
-- server.py: the local task queue as the dashboard shows it, `read_task`, `scan_tasks` and
-- `update_agents`. A file of the queue is its name without ".json" and what json.load makes of it,
-- `none` if it cannot be read.
use hermes_k2_monitor.Prelude.{
  ℕ, zero, suc, String, Bool, List, [], ◌∷◌, Option, none, some, str_eq, if◌then◌else◌, map,
  keep_if, Dict, lookup, insert,
}
use hermes_k2_monitor.Json.{Json, str, obj, get_field, is_text}
use hermes_k2_monitor.Vault.{Buckets}

pub record File : Type 0 where
  pub stem : String
  pub content : Option Json

-- What `read_task` returns.
pub record LocalTask : Type 0 where
  pub id : Json
  pub title : Json
  pub assigned_to : Json
  pub status : Json

-- An entry of `state["agents"]`, which has both agents from the start.
pub record Agent : Type 0 where
  pub status : String
  pub task : Option Json

-- AGENTS
abbrev pub agent_names : List String
agent_names = "hermes1" ∷ "hermes2" ∷ []

-- `d.get(key, default)`
abbrev pub value_or : Json → Option Json → Json
value_or default none = default
value_or default (some v) = v

-- `read_task`
unfoldable pub read_task : File → LocalTask
read_task f = elim f.content [
  | some (obj d) ↦ record {
    id = value_or (str f.stem) (get_field "id" d);
    title = value_or (str f.stem) (get_field "title" d);
    assigned_to = value_or (str "") (get_field "assigned_to" d);
    status = value_or (str "") (get_field "status" d);
  }
  | _ ↦ record { id = str f.stem; title = str f.stem; assigned_to = str ""; status = str "" }
]

abbrev pub take {ℓ} : {A : Type ℓ} → ℕ → List A → List A
take zero xs = []
take (suc n) [] = []
take (suc n) (x ∷ xs) = x ∷ take n xs

-- `scan_tasks`, on the files of each directory in the order of their names
unfoldable pub scan_tasks : Buckets (List File) → Buckets (List LocalTask)
unfolding read_task
scan_tasks b = record {
  of_pending = map read_task (take 50 b.of_pending);
  of_processing = map read_task (take 50 b.of_processing);
  of_finished = map read_task (take 50 b.of_finished);
}

-- the status that an agent without a task gets, from its status before
abbrev pub rested : Option Agent → String
rested none = "online"
rested (some a) = if str_eq a.status "working" then "idle" else "online"

-- The loop body of `update_agents`: what the first of the agent's tasks makes of it.
abbrev pub agent_after : Option Agent → List LocalTask → Agent
agent_after before [] = record { status = rested before; task = none }
agent_after before (t ∷ _) = record { status = "working"; task = some t.title }

-- `t.get("assigned_to") == a`
abbrev pub is_mine : String → LocalTask → Bool
is_mine a t = is_text a (some t.assigned_to)

unfoldable pub update_each : List String → List LocalTask → Dict Agent → Dict Agent
update_each [] active agents = agents
update_each (a ∷ as') active agents =
    update_each as' active
      (insert a (agent_after (lookup a agents) (keep_if (is_mine a) active)) agents)

-- `update_agents`
abbrev pub update_agents : Buckets (List LocalTask) → Dict Agent → Dict Agent
update_agents b agents = update_each agent_names b.of_processing agents
