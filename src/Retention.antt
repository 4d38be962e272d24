-- ===== src/Retention.antt =====
-- TurnRetainBuffer of memory_retention.py: turn pairs are collected and handed to a memory
-- backend in documents of one session. The backend is the parameter `Backend`; the retained
-- documents are the list `retained`. The clock's texts are arguments.
pub mod Documents
pub mod Sequence
pub mod Bound
mod Tests
use diploid_agent.Prelude.{
  ℕ, zero, suc, ◌+◌, max, String, Bool, true, false, not, ◌&&◌, ◌==◌, Option, none, some, List, [],
  ◌∷◌, ◌++◌, if◌then◌else◌, length, take, drop, map, leb, ltb, nat_eq, ◌^◌,
}

pub record Entry : Type 0 where
  pub content : String
  pub turn : ℕ
  pub session : ℕ
  pub model : Option String
  pub context : Option String
  pub timestamp : String

pub data Role : Type 0 where
  pair pair_bundle : Role

-- The document of a run of entries; its text joins the texts of `contents`.
pub record MemoryItem : Type 0 where
  pub contents : List String
  pub context : Option String
  pub timestamp : String
  pub document_id : String
  pub session_number : ℕ
  pub role : Role
  pub model : Option String
  pub turns : List ℕ

-- What `retain` does at each attempt: true where it takes the document, false where it raises.
-- `number` prints a number with six digits, `now` is the clock's text.
pub record Backend : Type 0 where
  pub takes : (attempt : ℕ) → MemoryItem → Bool
  pub number : ℕ → String
  pub now : String

-- `file` is the content of the backing file; an empty buffer has none.
pub record Buffer : Type 0 where
  pub bundle_turns : ℕ
  pub chat_id : String
  pub entries : List Entry
  pub file : List Entry
  pub retained : List MemoryItem
  pub attempts : ℕ

-- A file error is logged and goes no further; here the disk takes the write.
abbrev pub write : Buffer → Buffer
write b = record b { file = b.entries }

-- `while end < len(entries) and entries[end]["session"] == session`
unfoldable pub run_length : (session : ℕ) → List Entry → ℕ
run_length session [] = 0
run_length session (e ∷ es) = if nat_eq e.session session then suc (run_length session es) else 0

abbrev truthy : Option String → Bool
truthy none = false
truthy (some s) = not (s == "")

-- next((e.get("context") for e in entries if e.get("context")), None)
unfoldable pub first_context : List Entry → Option String
first_context [] = none
first_context (e ∷ es) = if truthy e.context then e.context else first_context es

unfoldable pub last_entry : Entry → List Entry → Entry
last_entry e [] = e
last_entry e (f ∷ es) = last_entry f es

abbrev is_nil : List Entry → Bool
is_nil [] = true
is_nil (_ ∷ _) = false

unfoldable pub document_id : Backend → (chat_id : String) → Entry → List Entry → String
unfolding last_entry
document_id k chat_id e es =
    let first = chat_id ^ "-" ^ k.number e.session ^ "-" ^ k.number e.turn in
    if is_nil es then "turn-" ^ first else "turns-" ^ first ^ "-" ^ k.number (last_entry e es).turn

-- The document of the entries `e ∷ es`.
unfoldable pub item_of : Backend → (chat_id : String) → Entry → List Entry → MemoryItem
unfolding first_context last_entry document_id
item_of k chat_id e es = record {
  contents = map (λ (x : Entry). x.content) (e ∷ es);
  context = first_context (e ∷ es);
  timestamp = let t = (last_entry e es).timestamp in if t == "" then k.now else t;
  document_id = document_id k chat_id e es;
  session_number = e.session;
  role = if is_nil es then Role.pair else Role.pair_bundle;
  model = (last_entry e es).model;
  turns = map (λ (x : Entry). x.turn) (e ∷ es);
}

abbrev pub attempt : Backend → Entry → List Entry → Buffer → Bool
attempt k e es b = k.takes b.attempts (item_of k b.chat_id e es)

-- The document is taken: `del self.entries[:end]`.
abbrev pub kept : Backend → Entry → (run rest : List Entry) → Buffer → Buffer
kept k e run rest b = record b {
  entries = rest;
  retained = b.retained ++ item_of k b.chat_id e run ∷ [];
  attempts = suc b.attempts;
}

-- The loop of flush, on the entries and fuel: a failure writes the buffer and ends it.
unfoldable pub flush_loop : (fuel : ℕ) → Backend → List Entry → Buffer → Buffer
unfolding item_of run_length
flush_loop zero k es b = write b
flush_loop (suc fuel) k [] b = write b
flush_loop (suc fuel) k (e ∷ es) b =
    let n = run_length e.session es in
    let next = flush_loop fuel k (drop n es) (kept k e (take n es) (drop n es) b) in
    if attempt k e (take n es) b then next else write (record b { attempts = suc b.attempts })

-- Each round takes an entry off at least, so as many rounds as there are entries are enough.
unfoldable pub flush : Backend → Buffer → Buffer
unfolding flush_loop
flush k b = flush_loop (suc (length b.entries)) k b.entries b

abbrev pub crosses : (session : ℕ) → List Entry → Bool
crosses session [] = false
crosses session (e ∷ es) = not (nat_eq e.session session)

-- A session boundary flushes first.
unfoldable pub before_append : Backend → Entry → Buffer → Buffer
unfolding flush
before_append k e b = if crosses e.session b.entries then flush k b else b

unfoldable pub append : Backend → Entry → Buffer → Buffer
unfolding before_append flush
append k e b =
    let b' = before_append k e b in
    let added : Buffer = record b' { entries = b'.entries ++ e ∷ [] } in
    if leb (max 1 added.bundle_turns) (length added.entries) then flush k added else write added

-- After a restart: the entries of the file that have a content, behind those of the buffer.
unfoldable pub has_content : List Entry → List Entry
has_content [] = []
has_content (e ∷ es) = if e.content == "" then has_content es else e ∷ has_content es

unfoldable pub load : Buffer → Buffer
unfolding has_content
load b = record b { entries = b.entries ++ has_content b.file }
