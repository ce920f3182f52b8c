-- ===== src/Executor/Like/Meaning.antt =====
-- What a `LIKE` pattern means: its tokens, and the texts that they stand for.
use crabgresql.Prelude.{
  ℕ, ◌<◌, ◌≡◌, ◌≢◌, refl, Bool, true, false, List, [], ◌∷◌, arith, ◌==◌, length, Bool-cases, inl,
  inr, if◌then◌else◌,
}
use crabgresql.Executor.Like.{
  Chars, backslash, fold, Head, finished, dangling, literal, percent, underscore, escaped, head,
  Outcome, answer, invalid_escape, out_of_fuel, after_escape, rest_matches,
}

-- A character for itself, any character, any characters, and a `\` at the end.
pub data Token : Type 0 where
  this : ℕ → Token
  any many bad : Token

unfoldable pub token_of : ℕ → Token
token_of c = if c == b'%' then many else if c == b'_' then any else this c

unfoldable pub tokens : Chars → List Token
tokens [] = []
tokens (c ∷ []) = if c == backslash then bad ∷ [] else token_of c ∷ []
tokens (c ∷ l ∷ p) = elim (c == backslash) [
  | true ↦ this l ∷ tokens p
  | false ↦ token_of c ∷ tokens (l ∷ p)
]

-- The text, its letters folded, is one that the tokens stand for. Nothing stands for `bad`.
pub data Likes (ci : Bool) : List Token → Chars → Type 0 where
  nothing : Likes ci [] []
  same :
      {l c : ℕ} {ts : List Token} {s : Chars}
      → c ≡ fold ci l
      → Likes ci ts s
      → Likes ci (this l ∷ ts) (c ∷ s)
  one : {c : ℕ} {ts : List Token} {s : Chars} → Likes ci ts s → Likes ci (any ∷ ts) (c ∷ s)
  no_more : {ts : List Token} {s : Chars} → Likes ci ts s → Likes ci (many ∷ ts) s
  more :
      {c : ℕ} {ts : List Token} {s : Chars} → Likes ci (many ∷ ts) s → Likes ci (many ∷ ts) (c ∷ s)

unfoldable pub EndsBadly : List Token → Type 0
EndsBadly [] = ⊥
EndsBadly (bad ∷ ts) = Unit
EndsBadly (_ ∷ ts) = EndsBadly ts

-- What the head of a pattern says of its tokens.
unfoldable pub View : Chars → Head → Type 0
View p finished = tokens p ≡ []
View p dangling = tokens p ≡ bad ∷ []
View p (literal l p') = (tokens p ≡ this l ∷ tokens p') × (length p' < length p)
View p (percent p') = (tokens p ≡ many ∷ tokens p') × (length p' < length p)
View p (underscore p') = (tokens p ≡ any ∷ tokens p') × (length p' < length p)

-- A character that escapes nothing.
plain-View :
    (c : ℕ) (p : Chars)
    → c == backslash ≡ false
    → tokens (c ∷ p) ≡ token_of c ∷ tokens p
    → View (c ∷ p) (head (c ∷ p))
unfolding head View token_of
plain-View c p n h = elim (Bool-cases (c == b'%')) [
  | inl e ↦ rw (head, n, e) (ground (arith, h, e), omega arith)
  | inr m ↦ elim (Bool-cases (c == b'_')) [
    | inl e ↦ rw (head, n, m, e) (ground (arith, h, m, e), omega arith)
    | inr o ↦ rw (head, n, m, o) (ground (arith, h, m, o), omega arith)
  ]
]

pub head-View : (p : Chars) → View p (head p)
unfolding head View tokens escaped
head-View [] = refl
head-View (c ∷ []) = elim (Bool-cases (c == backslash)) [
  | inl e ↦ rw (head, e) (ground (arith, e))
  | inr n ↦ plain-View c [] n (ground (arith, n))
]
head-View (c ∷ l ∷ p) = elim (Bool-cases (c == backslash)) [
  | inl e ↦ rw (head, e) (ground (arith, e), omega arith)
  | inr n ↦ plain-View c (l ∷ p) n (ground (arith, n))
]

-- An outcome about the question `G`, which may be the error only where `B` holds.
abbrev pub Answers : Type 0 → Type 0 → Outcome → Type 0
Answers G B (answer true) = G
Answers G B (answer false) = G → ⊥
Answers G B invalid_escape = B
Answers G B out_of_fuel = ⊥

tokens-percent : (c : ℕ) (p : Chars) → c == b'%' ≡ true → tokens (c ∷ p) ≡ many ∷ tokens p
unfolding tokens token_of
tokens-percent c [] e = ground (arith, e)
tokens-percent c (l ∷ p) e = ground (arith, e)

pub Answers-map :
    {G G' B B' : Type 0} (o : Outcome)
    → (G → G')
    → (G' → G)
    → (B → B')
    → Answers G B o
    → Answers G' B' o
Answers-map (answer true) f g h a = f a
Answers-map (answer false) f g h a = λ x. a (g x)
Answers-map invalid_escape f g h a = h a
Answers-map out_of_fuel f g h a = a

tokens-plain : (c : ℕ) (p : Chars) → c == backslash ≡ false → tokens (c ∷ p) ≡ token_of c ∷ tokens p
unfolding tokens
tokens-plain c [] n = ground (arith, n)
tokens-plain c (l ∷ p) n = ground (arith, n)

tokens-escape :
    (c l : ℕ) (p : Chars) → c == backslash ≡ true → tokens (c ∷ l ∷ p) ≡ this l ∷ tokens p
unfolding tokens
tokens-escape c l p e = ground (arith, e)

tokens-dangling : (c : ℕ) → c == backslash ≡ true → tokens (c ∷ []) ≡ bad ∷ []
unfolding tokens
tokens-dangling c e = ground (arith, e)

token_of-many : (c : ℕ) → c == b'%' ≡ false → token_of c ≢ many
unfolding token_of
token_of-many c n h = ground (arith, n, h)

module _ (ci : Bool) where
  -- Nothing but `%` stands for the empty text.
  empty_text : (t : Token) {ts : List Token} → t ≢ many → Likes ci (t ∷ ts) [] → ⊥
  empty_text t n (no_more d) = n refl

  pub at_end : {ts : List Token} → Likes ci (many ∷ ts) [] → Likes ci ts []
  at_end (no_more d) = d

  escape-Answers :
      (c : ℕ) (p : Chars)
      → c == backslash ≡ true
      → Answers (Likes ci (tokens (c ∷ p)) []) (EndsBadly (tokens (c ∷ p))) (after_escape p)
  unfolding after_escape EndsBadly
  escape-Answers c [] e = rw (tokens-dangling c e) tt
  escape-Answers c (l ∷ p) e = rw (tokens-escape c l p e) (empty_text (this l) (λ x. cc))

  -- At the end of the text the rest of the pattern may stand for nothing only.
  pub rest_matches-Answers :
      (p : Chars) → Answers (Likes ci (tokens p) []) (EndsBadly (tokens p)) (rest_matches p)
  unfolding rest_matches tokens EndsBadly
  rest_matches-Answers [] = nothing
  rest_matches-Answers (c ∷ p) = elim (Bool-cases (c == b'%')) [
    | inl e ↦
        rw (rest_matches, e, tokens-percent c p e)
          (Answers-map (rest_matches p) no_more at_end (λ b. b) (rest_matches-Answers p))
    | inr n ↦ elim (Bool-cases (c == backslash)) [
      | inl e ↦ rw (rest_matches, n, e) (escape-Answers c p e)
      | inr m ↦
          rw (rest_matches, n, m, tokens-plain c p m) (empty_text (token_of c) (token_of-many c n))
    ]
  ]
