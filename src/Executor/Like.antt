-- ===== src/Executor/Like.antt =====
-- crates/executor/src/eval.rs: `like_match`. `sb[si..]` and `pb[pi..]` are the lists `s` and `p`; the
-- loop runs on fuel. A character is its code.
pub mod Meaning
pub mod Search
use crabgresql.Prelude.{
  ℕ, zero, suc, ◌+◌, ◌*◌, Bool, true, false, not, ◌&&◌, List, [], ◌∷◌, map, Option, some, none, ltb,
  leb, ◌==◌, length, if◌then◌else◌,
}

abbrev pub Chars : Type 0
Chars = List ℕ

abbrev pub backslash : ℕ
backslash = 92

-- `Ok(b)`, `Err(InvalidEscape)`; the fuel is the model's own.
pub data Outcome : Type 0 where
  answer : Bool → Outcome
  invalid_escape : Outcome
  out_of_fuel : Outcome

-- `if ci { c.to_ascii_lowercase() } else { c }`.
unfoldable pub fold : Bool → ℕ → ℕ
fold ci c = if ci && leb b'A' c && leb c b'Z' then c + 32 else c

-- What stands at `pb[pi]`, and `pb` from the place after it: nothing, a `\` with nothing after it, a
-- character for itself, `%` or `_`.
pub data Head : Type 0 where
  finished : Head
  dangling : Head
  literal : ℕ → Chars → Head
  percent : Chars → Head
  underscore : Chars → Head

-- `pb.get(pi + 1)`.
unfoldable pub escaped : Chars → Head
escaped [] = dangling
escaped (l ∷ p) = literal l p

unfoldable pub head : Chars → Head
head [] = finished
head (c ∷ p) =
    if c == backslash
    then escaped p
    else if c == b'%'
    then percent p
    else if c == b'_'
    then underscore p
    else literal c p

-- `star` and `star_si`: the pattern after the last `%`, and the text from where it was tried.
abbrev pub Star : Type 0
Star = Option (Chars × Chars)

-- `while pi < pb.len()`: what is left of the pattern may only be `%`.
unfoldable pub after_escape : Chars → Outcome
after_escape [] = invalid_escape
after_escape (_ ∷ _) = answer false

unfoldable pub rest_matches : Chars → Outcome
rest_matches [] = answer true
rest_matches (c ∷ p) = elim (c == b'%') [
  | true ↦ rest_matches p
  | false ↦ if c == backslash then after_escape p else answer false
]

abbrev pub Round : Type 0
Round = Chars → Chars → Star → Outcome

-- A mismatch: back to the last `%`, which takes one more character.
unfoldable pub backtrack : Star → Round → Outcome
backtrack none next = answer false
backtrack (some (p, [])) next = next [] p (some (p, []))
backtrack (some (p, _ ∷ s)) next = next s p (some (p, s))

-- `while si < sb.len()`.
unfoldable pub loop : Bool → ℕ → Round
loop ci zero s p star = out_of_fuel
loop ci (suc fuel) [] p star = rest_matches p
loop ci (suc fuel) (c ∷ s) p star = elim (head p) [
  | finished ↦ backtrack star (loop ci fuel)
  | dangling ↦ invalid_escape
  | literal l p' ↦ elim (c == fold ci l) [
    | true ↦ loop ci fuel s p' star
    | false ↦ backtrack star (loop ci fuel)
  ]
  | percent p' ↦ loop ci fuel (c ∷ s) p' (some (p', c ∷ s))
  | underscore p' ↦ loop ci fuel s p' star
]

unfoldable pub like_match : Chars → Chars → Bool → Outcome
like_match s p ci = loop ci ((length s + 1) * (length p + 1)) (map (fold ci) s) p none
