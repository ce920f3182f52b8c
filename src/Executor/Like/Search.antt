-- ===== src/Executor/Like/Search.antt =====
-- The loop of `like_match`, which goes back to the last `%` only.
use crabgresql.Prelude.{
  ℕ, zero, suc, ◌+◌, ◌*◌, ◌<◌, ◌≤◌, ◌≡◌, ◌↔◌, Bool, true, false, List, [], ◌∷◌, map, some, none,
  arith, length, length-map, ◌==◌, ==_iff, Bool-cases, inl, inr,
}
use crabgresql.Executor.Like.{
  Chars, fold, finished, dangling, literal, percent, underscore, head, Outcome, invalid_escape,
  rest_matches, Star, Round, backtrack, loop, like_match,
}
use crabgresql.Executor.Like.Meaning.{
  Token, this, any, many, tokens, Likes, same, one, no_more, more, EndsBadly, View, head-View,
  Answers, Answers-map, rest_matches-Answers, at_end,
}

module _ {ci : Bool} {ts : List Token} where
  same_inv :
      {l c : ℕ} {s : Chars} → Likes ci (this l ∷ ts) (c ∷ s) → (c ≡ fold ci l) × Likes ci ts s
  same_inv (same e d) = (e, d)

  one_inv : {c : ℕ} {s : Chars} → Likes ci (any ∷ ts) (c ∷ s) → Likes ci ts s
  one_inv (one d) = d

  take_more :
      {c : ℕ} {s : Chars}
      → Likes ci (many ∷ ts) (c ∷ s)
      → (Likes ci ts (c ∷ s) → ⊥)
      → Likes ci (many ∷ ts) s
  take_more (no_more d) n = absurd (n d)
  take_more (more d) n = d

  merge : {s : Chars} → Likes ci (many ∷ many ∷ ts) s → Likes ci (many ∷ ts) s
  merge (no_more d) = d
  merge (more d) = more (merge d)

  -- The pattern after a character begins somewhere after the first one.
  after_same :
      {l c : ℕ} (s : Chars) → Likes ci (many ∷ this l ∷ ts) (c ∷ s) → Likes ci (many ∷ ts) s
  after_same s (no_more (same e d)) = no_more d
  after_same [] (more (no_more d)) = elim d [ ]
  after_same (c ∷ s) (more d) = more (after_same s d)

  after_one : {c : ℕ} (s : Chars) → Likes ci (many ∷ any ∷ ts) (c ∷ s) → Likes ci (many ∷ ts) s
  after_one s (no_more (one d)) = no_more d
  after_one [] (more (no_more d)) = elim d [ ]
  after_one (c ∷ s) (more d) = more (after_one s d)

nothing_left : {ci : Bool} {c : ℕ} {s : Chars} → Likes ci [] (c ∷ s) → ⊥
nothing_left d = elim d [ ]

differ : {c d : ℕ} → c == d ≡ false → c ≡ d → ⊥
differ n e = ground (arith, n, e)

-- `G` is what is asked, `B` excuses the error, the patterns in play are shorter than `k`.
module _ (ci : Bool) (G B : Type 0) (k : ℕ) where
  -- The place to go back to decides the question, where the search from here fails; at most `m`
  -- characters are left there.
  unfoldable Kept : ℕ → Chars → Chars → Star → Type 0
  Kept m s p none = G → Likes ci (tokens p) s
  Kept m s p (some (bp, bs)) =
      (G ↔ Likes ci (many ∷ tokens bp) bs)
      × (Likes ci (tokens bp) bs → Likes ci (tokens p) s)
      × (EndsBadly (tokens bp) → B)
      × (length s ≤ length bs)
      × (length bs ≤ m)
      × (length bp < k)

  record Searching (fuel m : ℕ) (s p : Chars) (star : Star) : Type 0 where
    sound : Likes ci (tokens p) s → G
    complete : G → Likes ci (many ∷ tokens p) s
    kept : Kept m s p star
    excused : EndsBadly (tokens p) → B
    text : length s ≤ m
    pattern_len : length p < k
    enough : m * k + length p < fuel

  abbrev Fine : Outcome → Type 0
  Fine = Answers G B

  -- At a `%`, or back at one: it is the place to go back to.
  restart :
      {fuel m : ℕ} {s p : Chars}
      → G ↔ Likes ci (many ∷ tokens p) s
      → (EndsBadly (tokens p) → B)
      → length s ≤ m
      → length p < k
      → m * k + length p < fuel
      → Searching fuel m s p (some (p, s))
  unfolding Kept
  restart iff b ht hp hf = record {
    sound = λ d. iff.1 (no_more d);
    complete = iff.0;
    kept = (iff, (λ d. d), b, omega arith, ht, hp);
    excused = b;
    text = ht;
    pattern_len = hp;
    enough = hf;
  }

  backtrack-Answers :
      {fuel c : ℕ} {s p : Chars} (m : ℕ) (star : Star) (next : Round)
      → ((m' : ℕ) (s' p' : Chars) (b : Star) → Searching fuel m' s' p' b → Fine (next s' p' b))
      → Searching (suc fuel) m (c ∷ s) p star
      → (Likes ci (tokens p) (c ∷ s) → ⊥)
      → Fine (backtrack star next)
  unfolding backtrack Kept
  backtrack-Answers m none next ih i no_match = λ g. no_match (i.kept g)
  backtrack-Answers m (some (bp, [])) next ih i no_match = absurd (omega arith)
  backtrack-Answers zero (some (bp, x ∷ bs)) next ih i no_match = absurd (omega arith)
  backtrack-Answers (suc m) (some (bp, x ∷ bs)) next ih i no_match =
      let (iff, back, b, _, _, _) = i.kept in
      ih m bs bp (some (bp, bs)) (
        restart ((λ g. take_more (iff.0 g) (λ d. no_match (back d))), (λ d. iff.1 (more d))) b
          (omega arith) (omega arith) (omega arith))

  -- One character of the text and of the pattern taken.
  stays_on :
      (m : ℕ) {c : ℕ} {s : Chars} (p p' : Chars) (star : Star)
      → Kept m (c ∷ s) p star
      → (Likes ci (tokens p) (c ∷ s) → Likes ci (tokens p') s)
      → Kept m s p' star
  unfolding Kept
  stays_on m p p' none h f = λ g. f (h g)
  stays_on m p p' (some (bp, bs)) (iff, back, b, ht, hm, hp) f =
      (iff, (λ d. f (back d)), b, omega arith, hm, hp)

  advance :
      {fuel m c : ℕ} {s p p' : Chars} {star : Star}
      → Searching (suc fuel) m (c ∷ s) p star
      → length p' < length p
      → (Likes ci (tokens p) (c ∷ s) → Likes ci (tokens p') s)
      → (Likes ci (tokens p') s → Likes ci (tokens p) (c ∷ s))
      → (Likes ci (many ∷ tokens p) (c ∷ s) → Likes ci (many ∷ tokens p') s)
      → (EndsBadly (tokens p') → EndsBadly (tokens p))
      → Searching fuel m s p' star
  advance {m} {p} {p'} {star} i shorter f g h b = record {
    sound = λ d. i.sound (g d);
    complete = λ x. h (i.complete x);
    kept = stays_on m p p' star i.kept f;
    excused = λ x. i.excused (b x);
    text = omega arith;
    pattern_len = omega arith;
    enough = omega arith;
  }

  loop-Answers :
      (fuel m : ℕ) (s p : Chars) (star : Star)
      → Searching fuel m s p star
      → Fine (loop ci fuel s p star)
  unfolding loop View EndsBadly
  loop-Answers zero m s p star i = omega arith
  loop-Answers (suc fuel) m [] p star i =
      Answers-map (rest_matches p) i.sound (λ g. at_end ci (i.complete g)) i.excused
        (rest_matches-Answers ci p)
  loop-Answers (suc fuel) m (c ∷ s) p star i =
      elim (head p)
          as (λ h.
            View p h
            → Fine (elim h [
              | finished ↦ backtrack star (loop ci fuel)
              | dangling ↦ invalid_escape
              | literal l p' ↦ elim (c == fold ci l) [
                | true ↦ loop ci fuel s p' star
                | false ↦ backtrack star (loop ci fuel)
              ]
              | percent p' ↦ loop ci fuel (c ∷ s) p' (some (p', c ∷ s))
              | underscore p' ↦ loop ci fuel s p' star
            ])) [
              | finished ↦ λ v.
                  backtrack-Answers m star (loop ci fuel) (loop-Answers fuel) i
                    (λ d. nothing_left (rw v at d))
              | dangling ↦ λ v. i.excused (rw v tt)
              | literal l p' ↦ λ v. elim (Bool-cases (c == fold ci l)) [
                | inl e ↦ rw e (
                    loop-Answers fuel m s p' star (
                      advance i v.1 (λ d. (same_inv (rw v.0 at d)).1)
                        (λ d. rw v.0 (same ((==_iff c (fold ci l)).0 e) d))
                        (λ d. after_same s (rw v.0 at d)) (λ b. rw v.0 b)))
                | inr n ↦ rw n (
                    backtrack-Answers m star (loop ci fuel) (loop-Answers fuel) i
                      (λ d. differ n (same_inv (rw v.0 at d)).0))
              ]
              | percent p' ↦ λ v. loop-Answers fuel m (c ∷ s) p' (some (p', c ∷ s)) (
                  restart ((λ g. merge (rw v.0 at (i.complete g))), (λ d. i.sound (rw v.0 d)))
                    (λ b. i.excused (rw v.0 b)) i.text (omega arith) (omega arith))
              | underscore p' ↦ λ v. loop-Answers fuel m s p' star (
                  advance i v.1 (λ d. one_inv (rw v.0 at d)) (λ d. rw v.0 (one d))
                    (λ d. after_one s (rw v.0 at d)) (λ b. rw v.0 b))
            ]
        (head-View p)

-- `like_match` ends within its fuel, on every text and pattern. Where it returns true, the tokens of
-- the pattern stand for the text, both with their letters folded for ILIKE; where it returns false,
-- they do not; and it fails with an invalid escape only on a pattern that ends with a lone `\\`.
pub like_match-Answers :
    (s p : Chars) (ci : Bool)
    → Answers (Likes ci (tokens p) (map (fold ci) s)) (EndsBadly (tokens p)) (like_match s p ci)
unfolding like_match Kept
like_match-Answers s p ci =
    loop-Answers ci (Likes ci (tokens p) (map (fold ci) s)) (EndsBadly (tokens p)) (length p + 1)
      ((length s + 1) * (length p + 1)) (length s) (map (fold ci) s) p none
      (record {
        sound = λ d. d;
        complete = λ d. no_more d;
        kept = λ d. d;
        excused = λ b. b;
        text = omega (arith, length-map (fold ci) s);
        pattern_len = omega arith;
        enough = omega arith;
      })
