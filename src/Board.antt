-- ===== src/Board.antt =====
-- The task board of runtime/task_board.py: what it shows of a plan, and which plan. A line of the
-- message is a value of `Line`; its text is the f-string of the constructor.
pub mod Accounts
pub mod Rendering
pub mod Selection
mod Tests
use diploid_agent.Prelude.{
  ℕ, ◌+◌, ◌-◌, String, Bool, true, false, not, ◌&&◌, ◌||◌, ◌==◌, Option, none, some, List, [], ◌∷◌,
  ◌++◌, if◌then◌else◌, any, count, keep, length, take, map, ltb, nat_eq, find_first, contains,
}
use diploid_agent.Json.{codes, Text}
use diploid_agent.Plan.Models.{Task, TaskStatus, Plan, PlanStatus, is_failed}
use diploid_agent.Plan.Manager.{Manager, list_plans}

pub data Glyph : Type 0 where
  box half_left check half_right cross slashed : Glyph

unfoldable pub task_glyph : Task → Glyph
task_glyph t = if t.cancelled then slashed else of t.status
  where
    of : TaskStatus → Glyph
    of TaskStatus.pending = box
    of TaskStatus.ready = box
    of TaskStatus.blocked = box
    of TaskStatus.running = half_left
    of TaskStatus.done = check
    of TaskStatus.incomplete = half_right
    of TaskStatus.failed = cross

abbrev pub is_running : TaskStatus → Bool
is_running TaskStatus.running = true
is_running _ = false

abbrev pub is_done : Task → Bool
is_done t = of t.status
  where
    of : TaskStatus → Bool
    of TaskStatus.done = true
    of _ = false

unfoldable pub task_suffix : Task → String
task_suffix t =
    if is_running t.status
    then " ← running"
    else if t.cancelled
    then " ← cancelled"
    else if t.timed_out
    then " ← timed out"
    else if t.partial
    then " ← partial"
    else if is_failed t.status
    then " ← failed"
    else ""

abbrev pub max_visible_tasks : ℕ
max_visible_tasks = 12

abbrev pub max_name_chars : ℕ
max_name_chars = 60

pub data Line : Type 0 where
  heading : String → Line
  item : Glyph → (name : Text) → (suffix : String) → Line
  more : ℕ → Line
  hidden_done : ℕ → Line
  footer : (done total : ℕ) → (failed : Bool) → Line

abbrev pub task_line : Task → Line
task_line t = item (task_glyph t) (take max_name_chars (codes t.name)) (task_suffix t)

-- A line that is there if the number is not zero.
abbrev pub if_some : ℕ → Line → List Line
if_some n line = if nat_eq n 0 then [] else line ∷ []

-- With more tasks than fit: the undone ones as far as they fit, then how many are left out.
unfoldable pub long_list : List Task → List Line
long_list tasks =
    let undone = keep (λ t. not (is_done t)) tasks in
    let done_count = count is_done tasks in
    (if ltb max_visible_tasks (length undone)
      then map task_line (take max_visible_tasks undone)
        ++ more (length undone - max_visible_tasks) ∷ []
      else map task_line undone)
    ++ if_some done_count (hidden_done done_count)

abbrev pub has_failed : PlanStatus → Bool
has_failed PlanStatus.failed = true
has_failed _ = false

unfoldable pub render_plan : Plan → List Line
unfolding long_list
render_plan plan =
    let tasks = plan.tasks in
    (if plan.name == "" then [] else heading plan.name ∷ [])
    ++ (if ltb max_visible_tasks (length tasks) then long_list tasks else map task_line tasks)
    ++ footer (count is_done tasks) (length tasks)
        (has_failed plan.status || any (λ t. is_failed t.status) tasks)
      ∷ []

abbrev pub is_terminal : PlanStatus → Bool
is_terminal PlanStatus.completed = true
is_terminal PlanStatus.failed = true
is_terminal _ = false

abbrev pub first {ℓ} : {A : Type ℓ} → List A → Option A
first [] = none
first (x ∷ _) = some x

unfoldable pub select : (chat_id : String) → Manager → Option Plan
unfolding list_plans
select chat_id m =
    let plans = list_plans (some chat_id) m in
    choose (find_first (λ p. not (is_terminal p.status)) plans) plans
  where
    choose : Option Plan → List Plan → Option Plan
    choose (some p) plans = some p
    choose none plans = first plans

pub record Board : Type 0 where
  pub dirty : List String
  pub stopped : Bool

-- A set: a chat that is marked already stays once.
unfoldable pub handle : Plan → Board → Board
handle plan b = mark plan.chat_id
  where
    mark : Option String → Board
    mark none = b
    mark (some chat_id) =
        if b.stopped || contains b.dirty chat_id
        then b
        else record b { dirty = b.dirty ++ chat_id ∷ [] }

-- The worker takes the marked chats once the burst is over; what is marked later waits.
unfoldable pub take_dirty : Board → Board × List String
take_dirty b = (record b { dirty = [] }, b.dirty)
