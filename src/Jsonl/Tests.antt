-- ===== src/Jsonl/Tests.antt =====
-- Stores of Booleans and of quoted characters, one to a line.
use diploid_agent.Prelude.{
  ℕ, ◌≡◌, refl, Bool, true, false, none, some, [], ◌∷◌, if◌then◌else◌, All, inr, nat_eq,
}
use diploid_agent.Prelude.Dict.{Dict}
use diploid_agent.Jsonl.{Codec, IsLineCodec, is_break, is_blank, is_space, load, save}
use diploid_agent.Jsonl.RoundTrip.{run_file, run_memory, load-run_file}
use diploid_agent.Jsonl.Breaks.{load-save_broken}

abbrev true_or_false : Codec Bool
true_or_false = record {
  encode = λ b. if b then 116 ∷ [] else 102 ∷ [];
  decode = λ t. elim t [
    | [] ↦ none
    | c ∷ _ ↦ if nat_eq c 116 then some true else if nat_eq c 102 then some false else none
  ];
  key = λ b. if b then "yes" else "no";
}

one_line : (b : Bool) → All (λ x. is_break x ≡ false) (true_or_false.encode b)
unfolding is_break
one_line true = (refl, tt)
one_line false = (refl, tt)

not_blank : (b : Bool) → is_blank (true_or_false.encode b) ≡ false
unfolding is_blank is_space
not_blank true = refl
not_blank false = refl

decode_encode : (b : Bool) → true_or_false.decode (true_or_false.encode b) ≡ some b
decode_encode true = refl
decode_encode false = refl

true_or_false-IsLineCodec : IsLineCodec true_or_false
true_or_false-IsLineCodec = record {
  decode_encode = decode_encode;
  one_line = one_line;
  not_blank = not_blank;
}

abbrev both : Dict Bool
both = ("yes", true) ∷ ("no", false) ∷ []

abbrev clear : Dict Bool → Dict Bool × ℕ
clear d = ([], 0)

abbrev keep_as_is : Dict Bool → Dict Bool × ℕ
keep_as_is d = (d, 1)

load-run_file_example :
    load true_or_false (run_file true_or_false (keep_as_is ∷ clear ∷ []) (116 ∷ 10 ∷ 120 ∷ []))
    ≡ run_memory true_or_false (keep_as_is ∷ clear ∷ []) (load true_or_false (116 ∷ 10 ∷ 120 ∷ []))
load-run_file_example =
    load-run_file true_or_false true_or_false-IsLineCodec (keep_as_is ∷ clear ∷ [])
      (116 ∷ 10 ∷ 120 ∷ []) ((λ d k. k), ((λ d k. (tt, tt)), tt))

-- A record whose JSON is a quoted text that holds U+2028, and nothing else is read.
abbrev quoted : Codec ℕ
quoted = record {
  encode = λ n. 34 ∷ n ∷ 34 ∷ [];
  decode = λ t. elim t [ [] ↦ none | a ∷ r ↦ elim r [ [] ↦ none | n ∷ _ ↦ some n ] ];
  key = λ n. "k";
}

separator : is_break 0x2028 ≡ true
unfolding is_break
separator = refl

quote : is_break 34 ≡ false
unfolding is_break
quote = refl

load-save_broken_example : load quoted (save quoted (("k", 0x2028) ∷ [])) ≡ []
load-save_broken_example =
    load-save_broken quoted 0x2028 (34 ∷ []) (34 ∷ []) 0x2028 refl separator (quote, tt) (quote, tt)
      (inr refl) (inr refl)
