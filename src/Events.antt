-- ===== src/Events.antt =====
-- EventLog of runtime/event_log.py, for the log of one chat. The file is its lines, each the event
-- that it holds, or none where it is blank or malformed; the JSON of a payload is not read.
pub mod Order
pub mod Clients
mod Tests
use diploid_agent.Prelude.{
  ℕ, suc, ◌+◌, ◌-◌, String, Bool, true, false, ◌&&◌, Option, none, some, List, [], ◌∷◌, ◌++◌,
  if◌then◌else◌, or_else, keep, length, take, drop, ltb,
}
use diploid_agent.Json.{Fields}

pub record LogEvent : Type 0 where
  pub seq : ℕ
  pub ts : ℕ
  pub kind : String
  pub chat_id : String
  pub payload : Fields

-- _RING_MAX
abbrev pub ring_max : ℕ
ring_max = 500

pub record Log : Type 0 where
  pub ring : Option (List LogEvent)
  pub file : List (Option LogEvent)

-- xs[-n:] for a positive n.
abbrev pub last_n {ℓ} : {A : Type ℓ} → ℕ → List A → List A
last_n n xs = drop (length xs - n) xs

unfoldable pub events_of : List (Option LogEvent) → List LogEvent
events_of [] = []
events_of (none ∷ lines) = events_of lines
events_of (some e ∷ lines) = e ∷ events_of lines

-- self._ring(chat_id): the file is read once.
unfoldable pub loaded_ring : Log → List LogEvent
unfolding events_of
loaded_ring log = or_else log.ring (events_of (last_n ring_max log.file))

-- `ring[-1]["seq"] if ring`, with what stands for it in an empty ring.
unfoldable pub last_seq : ℕ → List LogEvent → ℕ
last_seq d [] = d
last_seq d (e ∷ es) = last_seq e.seq es

unfoldable pub next_seq : List LogEvent → ℕ
unfolding last_seq
next_seq [] = 1
next_seq (e ∷ es) = last_seq e.seq es + 1

-- deque(maxlen=_RING_MAX).append
unfoldable pub push : LogEvent → List LogEvent → List LogEvent
push e ring = last_n ring_max (ring ++ e ∷ [])

-- `wrote` tells whether the write of the line went through; an OSError is passed over.
unfoldable pub append :
    (wrote : Bool) → (now : ℕ) → (chat_id kind : String) → Fields → Log → Log × LogEvent
unfolding next_seq push loaded_ring
append wrote now chat_id kind payload log = (
  record {
    ring = some (push event ring);
    file = if wrote then log.file ++ some event ∷ [] else log.file;
  },
  event,
)
  where
    ring : List LogEvent
    ring = loaded_ring log

    event : LogEvent
    event = record {
      seq = next_seq ring;
      ts = now;
      kind = kind;
      chat_id = chat_id;
      payload = payload;
    }

pub record Page : Type 0 where
  pub events : List LogEvent
  pub next_seq : ℕ
  pub truncated : Bool

abbrev pub newer : ℕ → LogEvent → Bool
newer since e = ltb since e.seq

unfoldable pub is_truncated : ℕ → List LogEvent → Bool
is_truncated since [] = false
is_truncated since (e ∷ es) = ltb since (e.seq - 1)

-- One round of the loop of `since`.
unfoldable pub page : (since limit : ℕ) → List LogEvent → Page
unfolding next_seq is_truncated
page since limit ring = record {
  events = take limit (keep (newer since) ring);
  next_seq = next_seq ring;
  truncated = is_truncated since ring;
}

-- The long poll: the ring at the call, then at each wake-up before the deadline. The answer at the
-- deadline has no events, as the last round had none.
unfoldable pub since_wait : (since limit : ℕ) → List LogEvent → List (List LogEvent) → Page
unfolding page
since_wait since limit ring [] = page since limit ring
since_wait since limit ring (next ∷ later) =
    let rest = since_wait since limit next later in
    elim (page since limit ring).events [ [] ↦ rest | _ ∷ _ ↦ page since limit ring ]
