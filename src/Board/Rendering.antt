-- ===== src/Board/Rendering.antt =====
-- The size of a board message of runtime/task_board.py.
use diploid_agent.Prelude.{
  ℕ, suc, ◌-◌, ◌≤◌, ◌≡◌, refl, ap, not, List, [], ◌∷◌, ◌++◌, count, keep, length, take, map, ltb,
  arith, length-take, length-append, Bool-cases, inl, inr,
}
use diploid_agent.Plan.Models.{Task, Plan}
use diploid_agent.Board.{
  Line, more, hidden_done, task_line, is_done, if_some, long_list, render_plan, max_visible_tasks,
}
use diploid_agent.Board.Accounts.{top, body, last_line, render_plan_parts}

length-map {ℓ κ} :
    {A : Type ℓ} {B : Type κ} (f : A → B) (xs : List A) → length (map f xs) ≡ length xs
length-map f [] = refl
length-map f (x ∷ xs) = ap suc (length-map f xs)

length-if_some : (n : ℕ) (l : Line) → length (if_some n l) ≤ 1
length-if_some n l = ground arith

length-long_list : (ts : List Task) → length (long_list ts) ≤ 14
unfolding long_list
length-long_list ts =
    let us = keep (λ t. not (is_done t)) ts in
    let done_count = count is_done ts in
    let last = if_some done_count (hidden_done done_count) in
    let small = length-if_some done_count (hidden_done done_count) in
    elim (Bool-cases (ltb max_visible_tasks (length us))) [
      | inl t ↦
          rw (t, long_list)
            (omega (
              arith,
              length-append
                  (map task_line (take max_visible_tasks us)
                    ++ more (length us - max_visible_tasks) ∷ [])
                  last,
              length-append (map task_line (take max_visible_tasks us))
                  (more (length us - max_visible_tasks) ∷ []),
              length-map task_line (take max_visible_tasks us),
              length-take max_visible_tasks us,
              small,
            ))
      | inr f ↦
          let short : length us ≤ 12 = ground (arith, f) in
          rw (f, long_list)
            (omega
              (arith, length-append (map task_line us) last, length-map task_line us, short, small))
    ]

length-body : (ts : List Task) → length (body ts) ≤ 14
length-body ts = elim (Bool-cases (ltb max_visible_tasks (length ts))) [
  | inl t ↦ rw t (length-long_list ts)
  | inr f ↦
      let short : length ts ≤ 12 = ground (arith, f) in
      rw f (omega (arith, length-map task_line ts, short))
]

length-top : (p : Plan) → length (top p) ≤ 1
length-top p = ground arith

-- However many tasks a plan has, its message has at most sixteen lines.
pub length-render_plan : (p : Plan) → length (render_plan p) ≤ 16
length-render_plan p = rw (render_plan_parts p) (
    omega (
      arith,
      length-append (top p) (body p.tasks ++ last_line p),
      length-append (body p.tasks) (last_line p),
      length-top p,
      length-body p.tasks,
    ))
