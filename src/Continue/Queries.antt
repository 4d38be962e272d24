-- ===== src/Continue/Queries.antt =====
-- Asking does not change what runtime/auto_continue.py answers.
use diploid_agent.Prelude.{
  ℕ, ◌+◌, ◌≤◌, ◌≡◌, refl, sym, ap, ◌∙◌, String, ◌||◌, some, List, [], ◌∷◌, or_else, ltb, arith, All,
  eq_iff, eq_refl,
}
use diploid_agent.Prelude.Dict.{get, put, get-pop, get-put}
use diploid_agent.Continue.{AutoContinue, suppress, is_suppressed}

pub record Query : Type 0 where
  pub now : ℕ
  pub chat_id : String

unfoldable pub ask_all : List Query → AutoContinue → AutoContinue
unfolding is_suppressed
ask_all [] a = a
ask_all (q ∷ qs) a = ask_all qs (is_suppressed q.now q.chat_id a).0

abbrev pub until : AutoContinue → String → ℕ
until a c = or_else (get a.suppressed c) 0

answer_lem :
    (now : ℕ) (c : String) (a : AutoContinue)
    → (is_suppressed now c a).1 ≡ (ltb now a.globally_suppressed_until || ltb now (until a c))
unfolding is_suppressed
answer_lem now c a = ground arith

global_kept :
    (q : Query) (a : AutoContinue)
    → (is_suppressed q.now q.chat_id a).0.globally_suppressed_until ≡ a.globally_suppressed_until
unfolding is_suppressed
global_kept q a = ground arith

-- At a later time, the entry of a chat says the same after a query.
until_kept :
    (q : Query) (a : AutoContinue) (now : ℕ) (c : String)
    → q.now ≤ now
    → ltb now (until (is_suppressed q.now q.chat_id a).0 c) ≡ ltb now (until a c)
unfolding is_suppressed
until_kept q a now c h = ground (arith, h, get-pop a.suppressed q.chat_id c, eq_iff q.chat_id c)

same_answer :
    (q : Query) (a : AutoContinue) (now : ℕ) (c : String)
    → q.now ≤ now
    → (is_suppressed now c (is_suppressed q.now q.chat_id a).0).1 ≡ (is_suppressed now c a).1
same_answer q a now c h =
    answer_lem now c (is_suppressed q.now q.chat_id a).0
    ∙ ap (λ g. ltb now g || ltb now (until (is_suppressed q.now q.chat_id a).0 c)) (global_kept q a)
    ∙ ap (λ b. ltb now a.globally_suppressed_until || b) (until_kept q a now c h)
    ∙ sym (answer_lem now c a)

-- Asking is free: after any earlier questions about any chats, is_suppressed answers as if they had
-- not been asked, although it takes out entries whose time is over.
pub ask_all_same :
    (qs : List Query) (a : AutoContinue) (now : ℕ) (c : String)
    → All (λ q. q.now ≤ now) qs
    → (is_suppressed now c (ask_all qs a)).1 ≡ (is_suppressed now c a).1
unfolding ask_all
ask_all_same [] a now c h = refl
ask_all_same (q ∷ qs) a now c h =
    ask_all_same qs (is_suppressed q.now q.chat_id a).0 now c h.1 ∙ same_answer q a now c h.0

-- After `suppress` for a chat, whatever is asked in between, the chat is suppressed until the time
-- is over, and from then on only by a global suppression.
pub suppress-is_suppressed :
    (start now seconds : ℕ) (c : String) (qs : List Query) (a : AutoContinue)
    → All (λ q. q.now ≤ now) qs
    → (is_suppressed now c (ask_all qs (suppress start (some c) seconds a))).1
      ≡ (ltb now a.globally_suppressed_until || ltb now (start + seconds))
unfolding suppress
suppress-is_suppressed start now seconds c qs a h =
    let a' = suppress start (some c) seconds a in
    let placed : get (put a.suppressed c (start + seconds)) c ≡ some (start + seconds) =
      get-put a.suppressed c c (start + seconds) ∙ rw (eq_refl c) refl in
    ask_all_same qs a' now c h
    ∙ answer_lem now c a'
    ∙ ap (λ o. ltb now a.globally_suppressed_until || ltb now (or_else o 0)) placed
