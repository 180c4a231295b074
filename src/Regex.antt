-- ===== src/Regex.antt =====
-- Python's `re`, for the patterns of the program: backtracking in the order in which `re` tries the
-- alternatives. Every repetition in them is of one character of a class.
use Prim.Native.Nat.{zero, suc}
use Prim.Native.Char.{code}
use dmr_decrep_shahar.Prelude.{
  ℕ, ◌+◌, ◌-◌, String, Bool, true, false, Option, none, some, List, [], ◌∷◌, ◌==◌, if◌then◌else◌,
  string_key,
}
use dmr_decrep_shahar.Dict.{Dict, get}
use dmr_decrep_shahar.Text.{is_space, is_digit, is_upper, size, take_chars}

-- `many greedy p` is `p*`, or `p*?` if it is not greedy
pub data Regex : Type 0 where
  nothing start finish : Regex
  one : (ℕ → Bool) → Regex
  many : Bool → (ℕ → Bool) → Regex
  optional : Regex → Regex
  group : String → Regex → Regex
  both either : Regex → Regex → Regex

infixr 20 ◌▸◌
abbrev pub ◌▸◌ : Regex → Regex → Regex
r ▸ s = both r s

abbrev pub Groups : Type 0
Groups = Dict String String

-- the groups of a match and the text after it
abbrev pub Match : Type 0
Match = Groups × String

-- what is left to do after a part of the pattern: whether this is the start of the text, the rest of
-- the text, and the groups so far
abbrev pub Rest : Type 0
Rest = Bool → String → Groups → Option Match

unfoldable pub first_of : Option Match → Option Match → Option Match
first_of none m = m
first_of (some a) m = some a

-- the most characters first
unfoldable pub match_many : (ℕ → Bool) → Rest → Bool → String → Groups → Option Match
unfolding first_of
match_many p k b String.[] g = k b String.[] g
match_many p k b (String.◌∷◌ c s) g =
    let more = first_of (match_many p k false s g) (k b (String.◌∷◌ c s) g) in
    if p (code c) then more else k b (String.◌∷◌ c s) g

-- the fewest characters first
unfoldable pub match_few : (ℕ → Bool) → Rest → Bool → String → Groups → Option Match
unfolding first_of
match_few p k b String.[] g = k b String.[] g
match_few p k b (String.◌∷◌ c s) g =
    let more = first_of (k b (String.◌∷◌ c s) g) (match_few p k false s g) in
    if p (code c) then more else k b (String.◌∷◌ c s) g

unfoldable pub match_one : (ℕ → Bool) → Rest → String → Groups → Option Match
match_one p k String.[] g = none
match_one p k (String.◌∷◌ c s) g = if p (code c) then k false s g else none

-- the end of the text, or a line feed that ends it
unfoldable pub is_finish : String → Bool
is_finish String.[] = true
is_finish (String.◌∷◌ c String.[]) = code c == 10
is_finish (String.◌∷◌ c (String.◌∷◌ d s)) = false

unfoldable pub match_at : Regex → Rest → Bool → String → Groups → Option Match
unfolding match_many match_few match_one is_finish first_of size take_chars
match_at nothing k b s g = k b s g
match_at start k b s g = if b then k b s g else none
match_at finish k b s g = if is_finish s then k b s g else none
match_at (one p) k b s g = match_one p k s g
match_at (many true p) k b s g = match_many p k b s g
match_at (many false p) k b s g = match_few p k b s g
match_at (optional r) k b s g = first_of (match_at r k b s g) (k b s g)
match_at (group name r) k b s g =
    match_at r (λ b' s' g'. k b' s' ((name, take_chars (size s - size s') s) ∷ g')) b s g
match_at (both q r) k b s g = match_at q (λ b' s' g'. match_at r k b' s' g') b s g
match_at (either q r) k b s g = first_of (match_at q k b s g) (match_at r k b s g)

abbrev done : Rest
done b s g = some (g, s)

-- `pattern.search(s)`, from the first place of the text or a later one
unfoldable pub search_from : Regex → Bool → String → Option Match
unfolding match_at first_of
search_from r b String.[] = match_at r done b String.[] []
search_from r b (String.◌∷◌ c s) =
    first_of (match_at r done b (String.◌∷◌ c s) []) (search_from r false s)

unfoldable pub search_in : Regex → String → Option Match
unfolding search_from
search_in r s = search_from r true s

-- `pattern.finditer(s)`: each match is searched for after the one before; the pattern matches no
-- empty text, so that as many rounds suffice as there are characters
unfoldable pub find_all : Regex → ℕ → String → List Groups
unfolding search_from
find_all r zero s = []
find_all r (suc rounds) s = elim (search_from r false s) [
  | none ↦ []
  | some (g, rest) ↦ g ∷ find_all r rounds rest
]

-- `pattern.sub("", s)`, for a pattern that matches no empty text
unfoldable pub remove_all : Regex → ℕ → String → String
unfolding match_at
remove_all r zero s = s
remove_all r (suc rounds) String.[] = String.[]
remove_all r (suc rounds) (String.◌∷◌ c s) = elim (match_at r done false (String.◌∷◌ c s) []) [
  | none ↦ String.◌∷◌ c (remove_all r rounds s)
  | some (g, rest) ↦ remove_all r rounds rest
]

-- a part of the pattern that is written out, in its case or in either case
unfoldable pub exact : String → Regex
exact String.[] = nothing
exact (String.◌∷◌ c s) = one (λ d. d == code c) ▸ exact s

unfoldable pub fold : ℕ → ℕ
unfolding is_upper
fold c = if is_upper c then c + 32 else c

unfoldable pub any_case : String → Regex
unfolding fold
any_case String.[] = nothing
any_case (String.◌∷◌ c s) = one (λ d. fold d == fold (code c)) ▸ any_case s

-- `p+`, `\s*`, `\s+`, `\d+`
abbrev pub some_of : (ℕ → Bool) → Regex
some_of p = one p ▸ many true p

abbrev pub spaces : Regex
spaces = many true is_space

abbrev pub spaces1 : Regex
spaces1 = some_of is_space

abbrev pub digits : Regex
digits = some_of is_digit

-- `m.group(name)`, and the empty text if the group took no part
unfoldable pub group_text : Groups → String → String
unfolding get
group_text g name = elim (get g name) [ none ↦ String.[] | some s ↦ s ]
