-- ===== src/Events/Tests.antt =====
-- Runs of runtime/event_log.py.
use diploid_agent.Prelude.{
  ◌≡◌, ◌≤◌, ◌++◌, refl, true, false, none, [], ◌∷◌, arith, keep, length, map,
}
use diploid_agent.Json.{end}
use diploid_agent.Events.{Log, loaded_ring, newer, since_wait, is_truncated}
use diploid_agent.Events.Order.{IsTail}
use diploid_agent.Events.Clients.{Post, append_all, poll_all, client_sees_all}

abbrev new_log : Log
new_log = record { ring = none; file = [] }

abbrev reply : Post
reply = record { wrote = true; now = 3; chat_id = "chat"; kind = "reply"; payload = end }

abbrev unwritten : Post
unwritten = record { wrote = false; now = 4; chat_id = "chat"; kind = "notice"; payload = end }

new_log-IsTail : IsTail [] (loaded_ring new_log)
unfolding loaded_ring
new_log-IsTail = record { dropped = []; parts = refl; rising = tt; kept = λ e. refl }

numbered : map (λ e. e.seq) (append_all (reply ∷ unwritten ∷ []) new_log).1 ≡ 1 ∷ 2 ∷ []
unfolding append_all loaded_ring
numbered = refl

two_events :
    loaded_ring (append_all (reply ∷ unwritten ∷ []) new_log).0
    ≡ (append_all (reply ∷ unwritten ∷ []) new_log).1
unfolding append_all loaded_ring
two_events = refl

few : length (loaded_ring (append_all (reply ∷ unwritten ∷ []) new_log).0) ≤ 2
unfolding append_all loaded_ring
few = omega arith

whole : is_truncated 1 (loaded_ring (append_all (reply ∷ unwritten ∷ []) new_log).0) ≡ false
unfolding append_all loaded_ring is_truncated
whole = refl

asleep : (since_wait 5 10 [] ([] ∷ [])).events ≡ []
unfolding since_wait
asleep = refl

client_sees_all_example :
    poll_all 2 1 1 (loaded_ring (append_all (reply ∷ unwritten ∷ []) new_log).0)
    ≡ keep (newer 1) ([] ++ (append_all (reply ∷ unwritten ∷ []) new_log).1)
client_sees_all_example =
    client_sees_all (reply ∷ unwritten ∷ []) new_log [] 1 1 2 new_log-IsTail (omega arith) few whole
