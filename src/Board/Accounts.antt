-- ===== src/Board/Accounts.antt =====
-- That a board message of runtime/task_board.py accounts for every task.
use mathlib.Core.List.{Perm, perm_middle}
use mathlib.Core.List.Perm
use diploid_agent.Prelude.{
  Bool, true, false, zero, All, drop, length-drop, length-keep, append-nil, sym, subst, ℕ, suc, ◌+◌,
  ◌-◌, ◌≡◌, refl, ap, ◌∙◌, not, ◌||◌, ◌==◌, List, [], ◌∷◌, ◌++◌, if◌then◌else◌, any, count, keep,
  length, take, map, ltb, arith, append_assoc, Bool-cases, inl, inr,
}
use diploid_agent.Plan.Models.{Task, Plan, is_failed}
use diploid_agent.Board.{
  Line, heading, item, more, hidden_done, footer, task_line, is_done, if_some, long_list,
  render_plan, max_visible_tasks, has_failed,
}

-- The lines of single tasks, and the numbers of the lines that stand for several.
abbrev pub items : List Line → List Line
items [] = []
items (heading name ∷ ls) = items ls
items (item glyph name suffix ∷ ls) = item glyph name suffix ∷ items ls
items (more n ∷ ls) = items ls
items (hidden_done n ∷ ls) = items ls
items (footer done total failed ∷ ls) = items ls

abbrev pub more_in : List Line → ℕ
more_in [] = 0
more_in (heading name ∷ ls) = more_in ls
more_in (item glyph name suffix ∷ ls) = more_in ls
more_in (more n ∷ ls) = n + more_in ls
more_in (hidden_done n ∷ ls) = more_in ls
more_in (footer done total failed ∷ ls) = more_in ls

abbrev pub hidden_in : List Line → ℕ
hidden_in [] = 0
hidden_in (heading name ∷ ls) = hidden_in ls
hidden_in (item glyph name suffix ∷ ls) = hidden_in ls
hidden_in (more n ∷ ls) = hidden_in ls
hidden_in (hidden_done n ∷ ls) = n + hidden_in ls
hidden_in (footer done total failed ∷ ls) = hidden_in ls

-- The lines show the tasks `shown` in their order, and count the tasks `cut`, none of which is done,
-- and `hidden`, all of which are; together these are the tasks, each once.
pub record Accounts (ls : List Line) (tasks shown cut hidden : List Task) : Type 0 where
  pub whole : Perm (shown ++ (cut ++ hidden)) tasks
  pub lines : items ls ≡ map task_line shown
  pub cut_count : more_in ls ≡ length cut
  pub hidden_count : hidden_in ls ≡ length hidden
  pub undone : All (λ t. is_done t ≡ false) cut
  pub done : All (λ t. is_done t ≡ true) hidden

abbrev pub IsAccounted : List Line → List Task → Type 0
IsAccounted ls tasks =
    (shown : List Task) × (cut : List Task) × (hidden : List Task) × Accounts ls tasks shown cut
      hidden

items-append : (xs ys : List Line) → items (xs ++ ys) ≡ items xs ++ items ys
items-append [] ys = refl
items-append (heading name ∷ xs) ys = items-append xs ys
items-append (item g n s ∷ xs) ys = ap (λ l. item g n s ∷ l) (items-append xs ys)
items-append (more n ∷ xs) ys = items-append xs ys
items-append (hidden_done n ∷ xs) ys = items-append xs ys
items-append (footer d t f ∷ xs) ys = items-append xs ys

more_in-append : (xs ys : List Line) → more_in (xs ++ ys) ≡ more_in xs + more_in ys
more_in-append [] ys = omega arith
more_in-append (heading name ∷ xs) ys = more_in-append xs ys
more_in-append (item g n s ∷ xs) ys = more_in-append xs ys
more_in-append (more n ∷ xs) ys = omega (arith, more_in-append xs ys)
more_in-append (hidden_done n ∷ xs) ys = more_in-append xs ys
more_in-append (footer d t f ∷ xs) ys = more_in-append xs ys

hidden_in-append : (xs ys : List Line) → hidden_in (xs ++ ys) ≡ hidden_in xs + hidden_in ys
hidden_in-append [] ys = omega arith
hidden_in-append (heading name ∷ xs) ys = hidden_in-append xs ys
hidden_in-append (item g n s ∷ xs) ys = hidden_in-append xs ys
hidden_in-append (more n ∷ xs) ys = hidden_in-append xs ys
hidden_in-append (hidden_done n ∷ xs) ys = omega (arith, hidden_in-append xs ys)
hidden_in-append (footer d t f ∷ xs) ys = hidden_in-append xs ys

items-tasks : (ts : List Task) → items (map task_line ts) ≡ map task_line ts
items-tasks [] = refl
items-tasks (t ∷ ts) = ap (λ l. task_line t ∷ l) (items-tasks ts)

counts-tasks :
    (ts : List Task) → (more_in (map task_line ts) ≡ 0) × (hidden_in (map task_line ts) ≡ 0)
counts-tasks [] = (refl, refl)
counts-tasks (t ∷ ts) = counts-tasks ts

abbrev undone : List Task → List Task
undone ts = keep (λ t. not (is_done t)) ts

-- Taken apart by a test, a list has all its elements still.
split_done : (ts : List Task) → Perm (undone ts ++ keep is_done ts) ts
split_done [] = Perm.refl []
split_done (t ∷ ts) = elim (Bool-cases (is_done t)) [
  | inr f ↦ rw f (Perm.cons t (split_done ts))
  | inl d ↦
      rw d (Perm.trans (perm_middle (undone ts) (keep is_done ts)) (Perm.cons t (split_done ts)))
]

keep-All : (p : Task → Bool) (ts : List Task) → All (λ t. p t ≡ true) (keep p ts)
keep-All p [] = tt
keep-All p (t ∷ ts) = elim (Bool-cases (p t)) [
  | inl e ↦ rw e (e, keep-All p ts)
  | inr e ↦ rw e (keep-All p ts)
]

take-drop : (n : ℕ) (ts : List Task) → take n ts ++ drop n ts ≡ ts
take-drop zero ts = refl
take-drop (suc n) [] = refl
take-drop (suc n) (t ∷ ts) = ap (λ l. t ∷ l) (take-drop n ts)

drop-All : (P : Task → Type 0) (n : ℕ) (ts : List Task) → All P ts → All P (drop n ts)
drop-All P zero ts h = h
drop-All P (suc n) [] h = tt
drop-All P (suc n) (t ∷ ts) h = drop-All P n ts h.1

undone-All : (ts : List Task) → All (λ t. is_done t ≡ false) (undone ts)
undone-All [] = tt
undone-All (t ∷ ts) = elim (Bool-cases (is_done t)) [
  | inl e ↦ rw e (undone-All ts)
  | inr e ↦ rw e (e, undone-All ts)
]

abbrev last_hidden : List Task → List Line
last_hidden ts = if_some (count is_done ts) (hidden_done (count is_done ts))

last_hidden_lem :
    (ts : List Task)
    → (items (last_hidden ts) ≡ [])
      × (more_in (last_hidden ts) ≡ 0)
      × (hidden_in (last_hidden ts) ≡ count is_done ts)
last_hidden_lem ts = by (count is_done ts)
  where
    by :
        (n : ℕ)
        → (items (if_some n (hidden_done n)) ≡ [])
          × (more_in (if_some n (hidden_done n)) ≡ 0)
          × (hidden_in (if_some n (hidden_done n)) ≡ n)
    by zero = (refl, refl, refl)
    by (suc n) = (ground arith, ground arith, ground arith)

-- The lines before the last one of a long list: `shown`, and the number of what is cut off.
Accounts-long :
    (ts shown cut : List Task) (tail : List Line)
    → shown ++ cut ≡ undone ts
    → All (λ t. is_done t ≡ false) cut
    → items tail ≡ []
    → more_in tail ≡ length cut
    → hidden_in tail ≡ 0
    → Accounts ((map task_line shown ++ tail) ++ last_hidden ts) ts shown cut (keep is_done ts)
Accounts-long ts shown cut tail parts cut_undone no_items cuts no_hidden =
    let (h_items, h_more, h_hidden) = last_hidden_lem ts in
    record {
      whole =
          subst (λ l. Perm l ts)
            (ap (λ l. l ++ keep is_done ts) (sym parts) ∙ append_assoc shown cut (keep is_done ts))
            (split_done ts);
      lines =
          items-append (map task_line shown ++ tail) (last_hidden ts)
          ∙ ap (λ l. l ++ items (last_hidden ts)) (items-append (map task_line shown) tail)
          ∙ rw (h_items, no_items, items-tasks shown)
              (append-nil (map task_line shown ++ []) ∙ append-nil (map task_line shown));
      cut_count = omega (
        arith,
        more_in-append (map task_line shown ++ tail) (last_hidden ts),
        more_in-append (map task_line shown) tail,
        (counts-tasks shown).0,
        h_more,
        cuts,
      );
      hidden_count = omega (
        arith,
        hidden_in-append (map task_line shown ++ tail) (last_hidden ts),
        hidden_in-append (map task_line shown) tail,
        (counts-tasks shown).1,
        h_hidden,
        no_hidden,
        length-keep is_done ts,
      );
      undone = cut_undone;
      done = keep-All is_done ts;
    }

long_list-IsAccounted : (ts : List Task) → IsAccounted (long_list ts) ts
unfolding long_list
long_list-IsAccounted ts =
    let us = undone ts in
    elim (Bool-cases (ltb max_visible_tasks (length us))) [
      | inl t ↦ (
        take max_visible_tasks us,
        drop max_visible_tasks us,
        keep is_done ts,
        rw (t, long_list)
            (Accounts-long ts (take max_visible_tasks us) (drop max_visible_tasks us)
              (more (length us - max_visible_tasks) ∷ []) (take-drop max_visible_tasks us)
              (drop-All (λ t. is_done t ≡ false) max_visible_tasks us (undone-All ts)) refl
              (omega (arith, length-drop max_visible_tasks us)) refl),
      )
      | inr f ↦ (
        us,
        [],
        keep is_done ts,
        rw (f, long_list)
            (subst (λ l. Accounts (l ++ last_hidden ts) ts us [] (keep is_done ts))
              (append-nil (map task_line us))
              (Accounts-long ts us [] [] (append-nil us) tt refl refl refl)),
      )
    ]

abbrev pub top : Plan → List Line
top p = if p.name == "" then [] else heading p.name ∷ []

abbrev pub body : List Task → List Line
body ts = if ltb max_visible_tasks (length ts) then long_list ts else map task_line ts

abbrev pub last_line : Plan → List Line
last_line p =
    footer (count is_done p.tasks) (length p.tasks)
      (has_failed p.status || any (λ t. is_failed t.status) p.tasks)
    ∷ []

pub render_plan_parts : (p : Plan) → render_plan p ≡ top p ++ (body p.tasks ++ last_line p)
unfolding render_plan
render_plan_parts p = append_assoc (top p) (body p.tasks) (last_line p)

body-IsAccounted : (ts : List Task) → IsAccounted (body ts) ts
body-IsAccounted ts = elim (Bool-cases (ltb max_visible_tasks (length ts))) [
  | inl t ↦ rw t (long_list-IsAccounted ts)
  | inr f ↦ (
    ts,
    [],
    [],
    rw f (record {
      whole = subst (λ l. Perm l ts) (sym (append-nil ts)) (Perm.refl ts);
      lines = items-tasks ts;
      cut_count = (counts-tasks ts).0;
      hidden_count = (counts-tasks ts).1;
      undone = tt;
      done = tt;
    }),
  )
]

-- The heading and the footer change none of it.
framed :
    (p : Plan) (ls : List Line)
    → (items (top p ++ (ls ++ last_line p)) ≡ items ls)
      × (more_in (top p ++ (ls ++ last_line p)) ≡ more_in ls)
      × (hidden_in (top p ++ (ls ++ last_line p)) ≡ hidden_in ls)
framed p ls = elim (Bool-cases (p.name == "")) [ inl t ↦ rw t inner | inr f ↦ rw f inner ]
  where
    inner :
        (items (ls ++ last_line p) ≡ items ls)
        × (more_in (ls ++ last_line p) ≡ more_in ls)
        × (hidden_in (ls ++ last_line p) ≡ hidden_in ls)
    inner = (
      items-append ls (last_line p) ∙ append-nil (items ls),
      omega (arith, more_in-append ls (last_line p)),
      omega (arith, hidden_in-append ls (last_line p)),
    )

-- The message accounts for each task of the plan exactly once: some tasks have a line of their own,
-- in the order of these lines; as many as "more" says were cut off, and none of them is done; and
-- as many as the line of the hidden ones says are done. These three lists together are the tasks.
pub render_plan-IsAccounted : (p : Plan) → IsAccounted (render_plan p) p.tasks
render_plan-IsAccounted p =
    let (shown, cut, hidden, a) = body-IsAccounted p.tasks in
    let (f_items, f_more, f_hidden) = framed p (body p.tasks) in
    let parts = render_plan_parts p in
    (
      shown,
      cut,
      hidden,
      record {
        whole = a.whole;
        lines = ap items parts ∙ f_items ∙ a.lines;
        cut_count = ap more_in parts ∙ f_more ∙ a.cut_count;
        hidden_count = ap hidden_in parts ∙ f_hidden ∙ a.hidden_count;
        undone = a.undone;
        done = a.done;
      },
    )
