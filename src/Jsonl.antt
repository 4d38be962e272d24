-- ===== src/Jsonl.antt =====
-- The JSONL files behind PlanManager (plan/manager.py), WakeQueue (runtime/wake_queue.py) and
-- DispatchStore (dispatch.py), which write a record with json.dumps, and CronStateStore
-- (runtime/cron_state.py), which writes it with model_dump_json: each keeps a dictionary of records,
-- one line of JSON for each. The JSON libraries are the parameter `Codec`. A file is its text; the
-- lock makes the transactions on it one sequence.
pub mod RoundTrip
pub mod Breaks
mod Tests
use diploid_agent.Prelude.{
  ℕ, String, Bool, true, false, ◌&&◌, ◌||◌, ◌≡◌, Option, none, some, List, [], ◌∷◌, ◌++◌,
  if◌then◌else◌, nat_eq, leb, all, any, All,
}
use diploid_agent.Prelude.Dict.{Dict, put, values}
use diploid_agent.Json.{Text}

-- The characters at which Python's `splitlines` ends a line. "\r\n" ends two lines here; the empty
-- one between is skipped by every reader.
abbrev pub line_breaks : List ℕ
line_breaks = 10 ∷ 11 ∷ 12 ∷ 13 ∷ 28 ∷ 29 ∷ 30 ∷ 0x85 ∷ 0x2028 ∷ 0x2029 ∷ []

unfoldable pub is_break : ℕ → Bool
is_break c = any (nat_eq c) line_breaks

-- What `str.strip` takes away.
unfoldable pub is_space : ℕ → Bool
is_space c =
    leb 9 c && leb c 13
    || (leb 28 c && leb c 32
        || (leb 0x2000 c && leb c 0x200a
            || any (nat_eq c)
                (0x85 ∷ 0xa0 ∷ 0x1680 ∷ 0x2028 ∷ 0x2029 ∷ 0x202f ∷ 0x205f ∷ 0x3000 ∷ [])))

unfoldable pub is_blank : Text → Bool
unfolding is_space
is_blank line = all is_space line

abbrev pub last_line : Text → List Text
last_line [] = []
last_line (c ∷ line) = (c ∷ line) ∷ []

-- text.splitlines(), with the line that has been read so far.
unfoldable pub split_lines : Text → Text → List Text
unfolding is_break
split_lines line [] = last_line line
split_lines line (c ∷ text) = elim (is_break c) [
  | true ↦ line ∷ split_lines [] text
  | false ↦ split_lines (line ++ c ∷ []) text
]

-- A record type with its JSON form, which the JSON library and the model classes give, and the id
-- under which a store keeps a record.
pub record Codec (A : Type 0) : Type 0 where
  pub encode : A → Text
  pub decode : Text → Option A
  pub key : A → String

-- What a reader of lines needs: a record comes back from its line, which is one line and not blank.
-- json.dumps escapes what is not ASCII, and so every character at which a line can break;
-- model_dump_json leaves U+0085, U+2028 and U+2029 as they are, so the codec of CronStateStore is
-- lawful only on states whose texts have none of them.
pub record IsLineCodec {A : Type 0} (c : Codec A) : Type 0 where
  pub decode_encode : (a : A) → c.decode (c.encode a) ≡ some a
  pub one_line : (a : A) → All (λ x. is_break x ≡ false) (c.encode a)
  pub not_blank : (a : A) → is_blank (c.encode a) ≡ false

module _ {A : Type 0} (c : Codec A) where
  -- The body of the `for line in text.splitlines()` loop: blank and malformed lines are skipped.
  unfoldable pub read_line : Text → Dict A → Dict A
  unfolding is_blank
  read_line line d =
      if is_blank line then d else elim (c.decode line) [ none ↦ d | some a ↦ put d (c.key a) a ]

  unfoldable pub read_lines : List Text → Dict A → Dict A
  unfolding read_line
  read_lines [] d = d
  read_lines (line ∷ lines) d = read_lines lines (read_line line d)

  unfoldable pub load : Text → Dict A
  unfolding read_lines split_lines
  load text = read_lines (split_lines [] text) []

  -- "".join(json.dumps(a) + "\n" for a in self._in_memory.values())
  unfoldable pub write_lines : List A → Text
  write_lines [] = []
  write_lines (a ∷ xs) = c.encode a ++ (10 ∷ write_lines xs)

  unfoldable pub save : Dict A → Text
  unfolding write_lines
  save d = write_lines (values d)

  -- with self._transaction(): re-read, change, write back. An error in the body writes nothing.
  unfoldable pub transaction {ℓ} :
      {R : Type ℓ} → (Dict A → Option (Dict A × R)) → Text → Text × Option R
  unfolding load save
  transaction body text = elim (body (load text)) [
    | none ↦ (text, none)
    | some (d, r) ↦ (save d, some r)
  ]
