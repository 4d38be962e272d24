-- ===== src/Instance/Tests.antt =====
-- Runs of runtime/instance.py with two processes.
use diploid_agent.Prelude.{
  ℕ, ◌≡◌, refl, sym, ap, ◌∙◌, String, true, false, none, some, List, [], ◌∷◌,
}
use diploid_agent.Prelude.Dict.{get, put, get-Entries}
use diploid_agent.Instance.{Manager, acquire, release, beat}
use diploid_agent.Instance.Exclusion.{System, Event, acquires, run, IsSound, held_by_one}
use diploid_agent.Instance.Heartbeat.{silent_after_release}

abbrev idle : (instance_id : String) → (pid : ℕ) → Manager
idle instance_id pid = record {
  instance_id = instance_id;
  pid = pid;
  ttl_seconds = 60;
  held = [];
  alive = false;
  stop = false;
}

abbrev two_processes : System
two_processes = record {
  managers = ("p", idle "one" 1) ∷ ("q", idle "two" 2) ∷ [];
  os = record { files = []; locks = [] };
}

abbrev contest : List Event
contest = acquires "p" 10 7 (λ n. true) "chat" ∷ acquires "q" 11 8 (λ n. true) "chat" ∷ []

abbrev winner : Manager
winner = record {
  instance_id = "one";
  pid = 1;
  ttl_seconds = 60;
  held = ("chat", record { pid = 1; tid = 7 }) ∷ [];
  alive = true;
  stop = false;
}

nothing_held : IsSound two_processes
unfolding get
nothing_held p m found c h e =
    let empty : m.held ≡ [] =
      get-Entries (λ k x. x.held ≡ []) two_processes.managers p m (refl, (refl, tt)) found in
    let none_there : none ≡ some h = sym (ap (λ d. get d c) empty) ∙ e in cc

p_won : get (run contest two_processes).managers "p" ≡ some winner
unfolding run get put
p_won = refl

q_lost : get (run contest two_processes).managers "q" ≡ some (idle "two" 2)
unfolding run get put
q_lost = refl

chat_is_there : get winner.held "chat" ≡ some (record { pid = 1; tid = 7 })
unfolding get
chat_is_there = refl

abbrev Same : String → String → Type 0
Same a b = a ≡ b

held_by_one_example : Same "p" "p"
held_by_one_example =
    held_by_one contest two_processes "p" "p" winner winner "chat" (record { pid = 1; tid = 7 })
      (record { pid = 1; tid = 7 }) nothing_held p_won p_won chat_is_there chat_is_there

p_acquires : (acquire "p" 10 7 (λ n. true) "chat" (idle "one" 1) two_processes.os).result ≡ true
unfolding acquire get
p_acquires = refl

silent_after_release_example :
    let (m', os') = release "chat" winner two_processes.os in
    let r = acquire "p" 30 7 (λ n. true) "other" m' os' in
    ((beat 40 r.manager r.os).0.alive ≡ false) × ((beat 40 r.manager r.os).1 ≡ r.os)
silent_after_release_example =
    silent_after_release "p" 30 40 7 (λ n. true) "chat" "other" winner two_processes.os
      (record { pid = 1; tid = 7 }) refl refl
