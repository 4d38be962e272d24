-- ===== src/Board/Tests.antt =====
-- Runs of runtime/task_board.py.
use diploid_agent.Prelude.{
  ℕ, zero, suc, ◌++◌, ◌≡◌, refl, String, true, false, some, List, [], ◌∷◌, All,
}
use diploid_agent.Prelude.Sort.{sorted}
use diploid_agent.Plan.Models.{Task, TaskStatus, Plan, PlanStatus, new_task}
use diploid_agent.Plan.Manager.{Manager, list_plans}
use diploid_agent.Board.{
  heading, item, footer, half_left, box, render_plan, long_list, task_glyph, task_suffix,
}
use diploid_agent.Board.Accounts.{IsAccounted, more_in, hidden_in, render_plan-IsAccounted}
use diploid_agent.Board.Selection.{is_open}

abbrev task : TaskStatus → Task
task s = let t = new_task "a" [] in record t { status = s }

abbrev plan : (id : String) → PlanStatus → (created_at : ℕ) → List Task → Plan
plan id status created_at tasks = record {
  id = id;
  name = "build";
  description = "";
  status = status;
  chat_id = some "chat";
  origin = "agent";
  tasks = tasks;
  created_at = created_at;
  updated_at = created_at;
}

abbrev small_plan : Plan
small_plan = plan "p" PlanStatus.active 1 (task TaskStatus.running ∷ task TaskStatus.ready ∷ [])

small_message :
    render_plan small_plan
    ≡ heading "build"
      ∷ item half_left (97 ∷ []) " ← running"
      ∷ item box (97 ∷ []) ""
      ∷ footer 0 2 false
      ∷ []
unfolding render_plan task_glyph task_suffix
small_message = refl

-- Fourteen tasks that are not done, with a done one between them.
abbrev many : ℕ → List Task
many zero = []
many (suc n) = task TaskStatus.ready ∷ many n

abbrev long_plan : Plan
long_plan = plan "p" PlanStatus.active 1 (many 7 ++ task TaskStatus.done ∷ many 7)

long_message : (more_in (render_plan long_plan) ≡ 2) × (hidden_in (render_plan long_plan) ≡ 1)
unfolding render_plan long_list task_glyph task_suffix
long_message = (refl, refl)

render_plan-IsAccounted_example :
    IsAccounted (render_plan long_plan) (many 7 ++ task TaskStatus.done ∷ many 7)
render_plan-IsAccounted_example = render_plan-IsAccounted long_plan

abbrev two_plans : Manager
two_plans = record {
  plans = ("p", small_plan) ∷ ("q", plan "q" PlanStatus.completed 2 []) ∷ [];
  subscribed = true;
  notices = [];
}

not-All_closed : ¬ All (λ q. is_open q ≡ false) (list_plans (some "chat") two_plans)
unfolding list_plans sorted
not-All_closed (q_closed, (p_closed, _)) = cc
