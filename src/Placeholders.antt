-- ===== src/Placeholders.antt =====
-- The placeholders of configuration texts: apps/web/src/server/config/placeholders.ts.
pub mod Scan
pub mod Walk
use semantius_idp.Prelude.{
  ℕ, suc, zero, Text, String, codes, text_eq, is_empty, trim, cut_at, leb, nat_eq, all, Bool, true,
  false, not, ◌&&◌, ◌||◌, Option, none, some, if◌then◌else◌, List, [], ◌∷◌,
}

-- The issues that are recorded, each under the pointer of its text.
pub data Issue : Type 0 where
  unterminated empty_path : Issue
  not_namespaced malformed invalid_name not_set not_absolute unreadable : Text → Issue

-- `SubstitutionEnvironment`; a file that cannot be read is `none`.
pub record Environment : Type 0 where
  pub env : Text → Option Text
  pub read_file : Text → Option Text
  pub is_absolute_path : Text → Bool

-- `fileCache`
abbrev pub Cache : Type 0
Cache = List (Text × Text)

unfoldable pub cached : Text → Cache → Option Text
cached path [] = none
cached path ((p, content) ∷ rest) = if text_eq p path then some content else cached path rest

-- `Segment`
pub record Segment : Type 0 where
  pub text : Text
  pub from_placeholder : Bool
  pub from_source : Bool

-- `Resolution | undefined`, with the file cache after it
pub data Resolved : Type 0 where
  resolved : Text → Bool → Cache → Resolved
  refused : Issue → Resolved

abbrev is_name_head : ℕ → Bool
is_name_head c = (leb b'A' c && leb c b'Z') || nat_eq c b'_'

abbrev is_name_part : ℕ → Bool
is_name_part c = is_name_head c || (leb b'0' c && leb c b'9')

-- `ENV_NAME_RE`
unfoldable pub is_env_name : Text → Bool
is_env_name [] = false
is_env_name (c ∷ s) = is_name_head c && all is_name_part s

abbrev cons_head : ℕ → Option (Text × Text) → Option (Text × Text)
cons_head c none = none
cons_head c (some (a, b)) = some (c ∷ a, b)

abbrev pub without_dash : Text → Option Text
without_dash [] = none
without_dash (d ∷ s) = if nat_eq d b'-' then some s else none

abbrev marker_here : ℕ → Text → Option Text
marker_here c s = if nat_eq c b':' then without_dash s else none

-- The text before and after the first `:-`
unfoldable pub cut_default : Text → Option (Text × Text)
cut_default [] = none
cut_default (c ∷ s) =
    let rest = cut_default s in
    elim (marker_here c s) [ none ↦ cons_head c rest | some after ↦ some ([], after) ]

abbrev name_of : Text → Option (Text × Text) → Text
name_of rest none = rest
name_of rest (some (name, fallback)) = name

abbrev fallback_of : Option (Text × Text) → Option Text
fallback_of none = none
fallback_of (some (name, fallback)) = some fallback

abbrev or_fallback : Cache → Text → Option Text → Resolved
or_fallback cache name none = refused (not_set name)
or_fallback cache name (some fallback) = resolved fallback false cache

abbrev env_value : Cache → Text → Option Text → Option Text → Resolved
env_value cache name (some (c ∷ s)) fallback = resolved (c ∷ s) true cache
env_value cache name _ fallback = or_fallback cache name fallback

-- `.replace(/\r?\n$/, "")`
unfoldable pub drop_newline : Text → Text
drop_newline [] = []
drop_newline (c ∷ []) = if nat_eq c 10 then [] else c ∷ []
drop_newline (c ∷ d ∷ []) = if nat_eq d 10 then (if nat_eq c 13 then [] else c ∷ []) else c ∷ d ∷ []
drop_newline (c ∷ d ∷ e ∷ s) = c ∷ drop_newline (d ∷ e ∷ s)

module _ (environment : Environment) where
  open environment use {env, read_file, is_absolute_path}

  -- `resolveEnv`
  unfoldable pub resolve_env : Cache → Text → Resolved
  resolve_env cache rest =
      let parts = cut_default rest in
      let name = name_of rest parts in
      if not (is_env_name name)
      then refused (invalid_name name)
      else env_value cache name (env name) (fallback_of parts)

  read_uncached : Cache → Text → Resolved
  read_uncached cache path = elim (read_file path) [
    | none ↦ refused (unreadable path)
    | some content ↦ resolved (drop_newline content) true ((path, drop_newline content) ∷ cache)
  ]

  read_path : Cache → Text → Resolved
  unfolding read_uncached
  read_path cache path =
      if is_empty path
      then refused empty_path
      else if not (is_absolute_path path)
      then refused (not_absolute path)
      else elim (cached path cache) [
        | some content ↦ resolved content true cache
        | none ↦ read_uncached cache path
      ]

  -- `resolveFile`
  unfoldable pub resolve_file : Cache → Text → Resolved
  unfolding read_path
  resolve_file cache raw_path = read_path cache (trim raw_path)

  -- `resolvePlaceholder`
  unfoldable pub resolve_placeholder : Cache → Text → Resolved
  unfolding resolve_env resolve_file
  resolve_placeholder cache body = elim (cut_at b':' body) [
    | none ↦ if is_env_name body then refused (not_namespaced body) else refused (malformed body)
    | some (namespace, rest) ↦
        if text_eq namespace (codes "env")
        then resolve_env cache rest
        else if text_eq namespace (codes "file")
        then resolve_file cache rest
        else refused (malformed body)
  ]
