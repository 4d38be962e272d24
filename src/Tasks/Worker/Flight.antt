-- ===== src/Tasks/Worker/Flight.antt =====
-- A task that is in flight is not started again: submit, resize and shutdown of task/worker.py.
use diploid_agent.Prelude.{
  ℕ, ◌≡◌, sym, ap, ◌∙◌, String, true, false, not, ◌==◌, some, List, [], ◌∷◌, arith, Bool-cases, inl,
  inr, eq_iff,
}
use diploid_agent.Prelude.Dict.{Dict, get, get-put}
use diploid_agent.Tasks.Worker.{Future, Pool, undone, resize, submit, shutdown, in_flight}

get-undone :
    (fs : Dict Future) (k : String) (f : Future)
    → get fs k ≡ some f
    → f.done ≡ false
    → get (undone fs) k ≡ some f
unfolding undone get
get-undone [] k f e d = cc
get-undone ((j, g) ∷ fs) k f e d = ground (arith, get-undone fs k f, e, d)

abbrev pub Has : String → Future → Pool → Type 0
Has k f p = get p.futures k ≡ some f

resize_keeps :
    (n : ℕ) (p : Pool) (k : String) (f : Future)
    → f.done ≡ false
    → Has k f p
    → Has k f (resize n p).state
unfolding resize
resize_keeps n p k f d h = ground (arith, h, get-undone p.futures k f h d)

shutdown_keeps :
    (p : Pool) (k : String) (f : Future) → f.done ≡ false → Has k f p → Has k f (shutdown p)
unfolding shutdown
shutdown_keeps p k f d h = get-undone p.futures k f h d

flying :
    (fs : Dict Future) (j k : String) (f : Future)
    → f.done ≡ false
    → get fs k ≡ some f
    → in_flight (get fs j) ≡ false
    → j == k ≡ false
flying fs j k f d h b = elim (Bool-cases (j == k)) [
  | inr n ↦ n
  | inl t ↦
      let here : in_flight (get fs j) ≡ not f.done =
        ap (λ x. in_flight (get fs x)) ((eq_iff j k).0 t) ∙ ap in_flight h in
      absurd (clash (sym (here ∙ ap not d) ∙ b))
]
  where
    clash : true ≡ false → ⊥
    clash e = cc

submit_keeps :
    (plan_id j : String) (p : Pool) (k : String) (f : Future)
    → f.done ≡ false
    → Has k f p
    → Has k f (submit plan_id j p).state
unfolding submit
submit_keeps plan_id j p k f d h =
    let pruned = get-undone p.futures k f h d in
    elim (Bool-cases (in_flight (get (undone p.futures) j))) [
      | inl b ↦ ground (arith, b, pruned)
      | inr b ↦ ground (
        arith,
        b,
        pruned,
        flying (undone p.futures) j k f d pruned b,
        get-put (undone p.futures) j k (record { plan_id = plan_id; done = false }),
      )
    ]

pub data Call : Type 0 where
  resizes : ℕ → Call
  submits : (plan_id task_id : String) → Call
  shuts_down : Call

unfoldable pub after : Call → Pool → Pool
unfolding resize submit shutdown
after (resizes n) p = (resize n p).state
after (submits plan_id task_id) p = (submit plan_id task_id p).state
after shuts_down p = shutdown p

unfoldable pub run : List Call → Pool → Pool
unfolding after
run [] p = p
run (c ∷ cs) p = run cs (after c p)

after_keeps :
    (c : Call) (p : Pool) (k : String) (f : Future)
    → f.done ≡ false
    → Has k f p
    → Has k f (after c p)
unfolding after
after_keeps (resizes n) p k f d h = resize_keeps n p k f d h
after_keeps (submits plan_id j) p k f d h = submit_keeps plan_id j p k f d h
after_keeps shuts_down p k f d h = shutdown_keeps p k f d h

-- The pool runs no task twice at once: while the future of a task is not done, no submit of the
-- same task or another, no resize and no shutdown replaces or forgets it.
pub in_flight_keeps :
    (cs : List Call) (p : Pool) (k : String) (f : Future)
    → f.done ≡ false
    → get p.futures k ≡ some f
    → get (run cs p).futures k ≡ some f
unfolding run
in_flight_keeps [] p k f d h = h
in_flight_keeps (c ∷ cs) p k f d h = in_flight_keeps cs (after c p) k f d (after_keeps c p k f d h)
