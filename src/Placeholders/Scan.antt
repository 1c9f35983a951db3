-- ===== src/Placeholders/Scan.antt =====
-- The loop of `substituteString` in apps/web/src/server/config/placeholders.ts.
pub mod Laws
pub mod Escape
pub mod Opening
pub mod Template
use semantius_idp.Prelude.{
  ℕ, suc, zero, Text, String, codes, starts_with, cut_at, length, Bool, true, false, not, ◌&&◌,
  ◌||◌, Option, none, some, if◌then◌else◌, List, [], ◌∷◌, ◌++◌, text_eq,
}
use semantius_idp.Placeholders.{
  Issue, unterminated, Environment, Cache, Segment, Resolved, resolved, refused,
  resolve_placeholder,
}

-- What stands at `index`: an escape, a placeholder, or a unit of literal text.
pub data Head : Type 0 where
  nothing : Head
  escaped opening : Text → Head
  letter : ℕ → Text → Head

abbrev skip_two : Text → Text
skip_two (_ ∷ _ ∷ s) = s
skip_two s = []

abbrev skip_one : Text → Text
skip_one (_ ∷ s) = s
skip_one [] = []

unfoldable pub head_of : Text → Head
head_of [] = nothing
head_of (c ∷ s) =
    if starts_with (c ∷ s) (codes "$${")
    then escaped (skip_two s)
    else if starts_with (c ∷ s) (codes "${")
    then opening (skip_one s)
    else letter c s

-- `flushLiteral`
abbrev pub flush : List Segment → Text → List Segment
flush segments [] = segments
flush segments (c ∷ literal) =
    segments ++ record { text = c ∷ literal; from_placeholder = false; from_source = false } ∷ []

-- The end of the loop, or the return of the input with an issue
pub data Scanned : Type 0 where
  finished : List Segment → Cache → Scanned
  stopped : Issue → Cache → Scanned

abbrev pub join_segments : List Segment → Text
join_segments [] = []
join_segments (s ∷ segments) = s.text ++ join_segments segments

-- `coercedPointers.add` and `placeholderPointers.add`
abbrev pub is_coerced : List Segment → Bool
is_coerced (s ∷ []) = s.from_placeholder
is_coerced _ = false

abbrev pub is_sourced : List Segment → Bool
is_sourced (s ∷ []) = s.from_placeholder && s.from_source
is_sourced _ = false

-- What a text becomes, with what is recorded under its pointer.
pub record Substituted : Type 0 where
  pub value : Text
  pub issue : Option Issue
  pub coerced : Bool
  pub sourced : Bool
  pub cache : Cache

abbrev pub untouched : Text → Cache → Substituted
untouched input cache = record {
  value = input;
  issue = none;
  coerced = false;
  sourced = false;
  cache = cache;
}

abbrev pub outcome : Text → Scanned → Substituted
outcome input (stopped issue cache) = record {
  value = input;
  issue = some issue;
  coerced = false;
  sourced = false;
  cache = cache;
}
outcome input (finished segments cache) = record {
  value = join_segments segments;
  issue = none;
  coerced = is_coerced segments;
  sourced = is_sourced segments;
  cache = cache;
}

-- `input.includes(t)`
unfoldable pub includes : Text → Text → Bool
includes [] t = text_eq [] t
includes (c ∷ s) t = starts_with (c ∷ s) t || includes s t

module _ (environment : Environment) where
  -- The `while` loop from `index` on, where `rest` is what is left of the input; `none` only if
  -- the fuel is less than its length.
  unfoldable pub scan : ℕ → Cache → List Segment → Text → Text → Option Scanned
  scan fuel cache segments literal [] = some (finished (flush segments literal) cache)
  scan zero cache segments literal (c ∷ s) = none
  scan (suc fuel) cache segments literal (c ∷ s) = elim (head_of (c ∷ s)) [
    | nothing ↦ none
    | escaped rest ↦ scan fuel cache segments (literal ++ codes "${") rest
    | letter d rest ↦ scan fuel cache segments (literal ++ d ∷ []) rest
    | opening rest ↦ elim (cut_at b'}' rest) [
      | none ↦ some (stopped unterminated cache)
      | some (body, after) ↦ elim (resolve_placeholder environment cache body) [
        | refused issue ↦ some (stopped issue cache)
        | resolved text from_source cache' ↦
            scan fuel cache'
              (flush segments literal
                ++ record { text = text; from_placeholder = true; from_source = from_source } ∷ [])
              [] after
      ]
    ]
  ]

  abbrev map_outcome : Text → Option Scanned → Option Substituted
  map_outcome input none = none
  map_outcome input (some scanned) = some (outcome input scanned)

  -- `substituteString`, with the input's length as fuel
  unfoldable pub substitute_string : Cache → Text → Option Substituted
  substitute_string cache input =
      if not (includes input (codes "${")) && not (includes input (codes "$$"))
      then some (untouched input cache)
      else map_outcome input (scan (length input) cache [] [] input)

-- A text written so that it stands for itself: `$` before each `${`.
unfoldable pub escape : Text → Text
escape [] = []
escape (c ∷ s) =
    let rest = escape s in if starts_with (c ∷ s) (codes "${") then b'$' ∷ c ∷ rest else c ∷ rest
