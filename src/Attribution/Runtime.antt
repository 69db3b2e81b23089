-- ===== src/Attribution/Runtime.antt =====
-- The part of the attributor's state that markers change (attribute.py, `Attributor`), and how the
-- current context of a thread is found.
use causpan.Prelude.{
  ℕ, String, Option, none, some, List, [], ◌∷◌, ◌++◌, Dict, get, has, put, nat_eq, if◌then◌else◌,
}
use causpan.Attribution.Types.{
  Event, Context, IpcJob, Operation, Origin, NodeId, GraphRecord, Evidence, Error, Setup,
}

pub record Runtime : Type 0 where
  pub state : Dict ℕ Context
  pub inherited : Dict ℕ Context
  pub operations : Dict ℕ Operation
  pub ipc_jobs : Dict String IpcJob
  pub ipc_active : Dict ℕ String
  pub active_work : Dict ℕ (List ℕ)
  pub runtime_spans : Dict ℕ ℕ
  pub span_threads : Dict (ℕ × ℕ) (List ℕ)
  pub errors : List Error
  pub graph : List GraphRecord

unfoldable pub report : Error → Runtime → Runtime
report e r = record r { errors = r.errors ++ e ∷ [] }

unfoldable pub emit : List GraphRecord → Runtime → Runtime
emit records r = record r { graph = r.graph ++ records }

-- `self.state.get(tid, self.inherited.get(pid, {}))`; `none` is the empty dict
unfoldable pub current_context : ℕ → ℕ → Runtime → Option Context
current_context tid pid r = elim (get tid r.state) [ some c ↦ some c | none ↦ get pid r.inherited ]

unfoldable pub context_node : Setup → ℕ → NodeId
context_node setup context =
    if has context setup.roots then NodeId.request context else NodeId.join context

-- an optional name in an f-string
abbrev pub shown : Option String → String
shown none = "None"
shown (some s) = s

unfoldable pub set_state : ℕ → ℕ → ℕ → Origin → Option String → Event → Runtime → Runtime
set_state tid req op origin job e r = record r {
  state =
      put tid
        (record {
          request = req;
          operation = op;
          origin = origin;
          ipc_job = job;
          marker_source = Evidence.trace e.source;
        })
        r.state;
}
