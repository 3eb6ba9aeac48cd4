-- ===== src/Match/Glob.antt =====
-- path.Match of the Go library, as internal/resourcematch uses it: whether a well-formed pattern
-- matches the whole of a text. A malformed pattern matches nothing, since the caller drops the error.
-- A run of stars and what follows up to the next star is one chunk, and each chunk is placed at the
-- first position where it fits; a star, and `?`, do not pass a slash.
use Prim.Native.Char.{code}
use mathlib.Core.Option
use kube_insight.Prelude.{
  ℕ, String, Bool, true, false, not, ◌&&◌, ◌||◌, Option, none, some, List, [], ◌∷◌, ◌++◌, leb, eqb,
  any, is_empty, if◌then◌else◌,
}

pub data Single : Type 0 where
  any_char : Single
  lit : ℕ → Single
  class : (negated : Bool) → List (ℕ × ℕ) → Single

pub data Term : Type 0 where
  star : Term
  single : Single → Term

-- Where the pattern's reader stands: outside a class, behind a backslash, behind `[`, before a range,
-- behind the low end of a range, and behind its dash.
pub data Mode : Type 0 where
  plain escape opened : Mode
  range_start range_escape : (negated : Bool) → List (ℕ × ℕ) → Mode
  after_low after_dash dash_escape : (negated : Bool) → List (ℕ × ℕ) → (low : ℕ) → Mode

start_range : Bool → List (ℕ × ℕ) → ℕ → Option (Mode × List Term)
start_range negated ranges c =
    if eqb c b']' && not (is_empty ranges)
    then some (plain, single (class negated ranges) ∷ [])
    else if eqb c b']' || eqb c b'-'
    then none
    else if eqb c b'\\'
    then some (range_escape negated ranges, [])
    else some (after_low negated ranges c, [])

read_char : Mode → ℕ → Option (Mode × List Term)
unfolding start_range
read_char plain c =
    if eqb c b'*'
    then some (plain, star ∷ [])
    else if eqb c b'?'
    then some (plain, single any_char ∷ [])
    else if eqb c b'['
    then some (opened, [])
    else if eqb c b'\\'
    then some (escape, [])
    else some (plain, single (lit c) ∷ [])
read_char escape c = some (plain, single (lit c) ∷ [])
read_char opened c = if eqb c b'^' then some (range_start true [], []) else start_range false [] c
read_char (range_start negated ranges) c = start_range negated ranges c
read_char (range_escape negated ranges) c = some (after_low negated ranges c, [])
read_char (after_low negated ranges low) c =
    if eqb c b'-'
    then some (after_dash negated ranges low, [])
    else start_range negated ((low, low) ∷ ranges) c
read_char (after_dash negated ranges low) c =
    if eqb c b']' || eqb c b'-'
    then none
    else if eqb c b'\\'
    then some (dash_escape negated ranges low, [])
    else some (range_start negated ((low, c) ∷ ranges), [])
read_char (dash_escape negated ranges low) c = some (range_start negated ((low, c) ∷ ranges), [])

-- What stands at the end of the pattern: a class or an escape that is open is malformed.
at_end : Mode → Option (List Term)
at_end plain = some []
at_end _ = none

parse_from : Mode → String → Option (List Term)
unfolding read_char at_end
parse_from m String.[] = at_end m
parse_from m (String.◌∷◌ c s) = elim (read_char m (code c)) [
  | none ↦ none
  | some (next, terms) ↦ Option.map (λ rest. terms ++ rest) (parse_from next s)
]

pub record Chunk : Type 0 where
  pub starred : Bool
  pub singles : List Single

add_star : List Chunk → List Chunk
add_star [] = record { starred = true; singles = [] } ∷ []
add_star (c ∷ cs) = record c { starred = true } ∷ cs

add_single : Single → List Chunk → List Chunk
add_single x [] = record { starred = false; singles = x ∷ [] } ∷ []
add_single x (c ∷ cs) =
    if c.starred
    then record { starred = false; singles = x ∷ [] } ∷ c ∷ cs
    else record c { singles = x ∷ c.singles } ∷ cs

chunks : List Term → List Chunk
unfolding add_star add_single
chunks [] = []
chunks (star ∷ ts) = add_star (chunks ts)
chunks (single x ∷ ts) = add_single x (chunks ts)

matches_single : Single → ℕ → Bool
matches_single any_char c = not (eqb c b'/')
matches_single (lit d) c = eqb d c
matches_single (class negated ranges) c =
    let inside = any (λ r. leb r.0 c && leb c r.1) ranges in
    (inside && not negated) || (not inside && negated)

-- matchChunk: the rest of the text behind the chunk.
match_chunk : List Single → String → Option String
unfolding matches_single
match_chunk [] s = some s
match_chunk (x ∷ xs) String.[] = none
match_chunk (x ∷ xs) (String.◌∷◌ c s) =
    let rest = match_chunk xs s in if matches_single x (code c) then rest else none

abbrev is_empty_text : String → Bool
is_empty_text String.[] = true
is_empty_text (String.◌∷◌ c s) = false

-- The last chunk must use the text up.
fits : Bool → Option String → Option String
fits last none = none
fits last (some rest) = if is_empty_text rest || not last then some rest else none

-- A chunk behind a star: the first position at which it fits.
place : Bool → List Single → String → Option String
unfolding match_chunk fits
place last xs String.[] = fits last (match_chunk xs "")
place last xs (String.◌∷◌ c s) = elim (fits last (match_chunk xs (String.◌∷◌ c s))) [
  | some rest ↦ some rest
  | none ↦ let later = place last xs s in if eqb (code c) b'/' then none else later
]

no_slash : String → Bool
no_slash String.[] = true
no_slash (String.◌∷◌ c s) = not (eqb (code c) b'/') && no_slash s

glob : List Chunk → String → Bool
unfolding place no_slash
glob [] s = is_empty_text s
glob (c ∷ cs) s =
    if c.starred && is_empty c.singles
    then no_slash s
    else elim (if c.starred
        then place (is_empty cs) c.singles s
        else fits (is_empty cs) (match_chunk c.singles s)) [
          | none ↦ false
          | some rest ↦ glob cs rest
        ]

unfoldable pub path_match : String → String → Bool
unfolding parse_from chunks glob
path_match pattern name = elim (parse_from plain pattern) [
  | none ↦ false
  | some terms ↦ glob (chunks terms) name
]
