-- ===== src/Tests/PlaceholderCases.antt =====
-- Placeholders in configuration texts.
use semantius_idp.Prelude.{
  codes, has_char, has_char-Lacks, text_eq, trim, cut_at, starts_with, true, false, none, some, [],
  ◌∷◌, ◌++◌, ◌≡◌, refl, if◌then◌else◌,
}
use semantius_idp.Placeholders.{
  Environment, resolve_placeholder, resolved, is_env_name, cut_default, drop_newline, cached,
}
use semantius_idp.Placeholders.Scan.{substitute_string, scan, head_of, includes, Substituted}
use semantius_idp.Placeholders.Scan.Template.{
  Part, AreResolved, written, replaced, substitute_string-template,
}
use semantius_idp.Js.{Value, obj, field, str, arr, cons, num, nil, end}
use semantius_idp.Placeholders.Walk.{Context, substitute_placeholders}
use semantius_idp.Placeholders.Walk.Laws.{substitute_placeholders_end}

abbrev machine : Environment
machine = record {
  env = λ name. if text_eq name (codes "HOST") then some (codes "idp") else none;
  read_file = λ path. some (codes "secret" ++ 13 ∷ 10 ∷ []);
  is_absolute_path = λ path. starts_with path (codes "/");
}

mixed :
    substitute_string machine [] (codes "http://${env:HOST}:${env:PORT:-80}/$${x}")
    ≡ some (record {
      value = codes "http://idp:80/${x}";
      issue = none;
      coerced = false;
      sourced = false;
      cache = [];
    })
unfolding substitute_string scan head_of includes starts_with cut_at resolve_placeholder is_env_name
    cut_default text_eq
mixed = refl

abbrev settings : Value
settings = obj (
    field (codes "url") (str (codes "http://${env:HOST}"))
      (field (codes "ports") (arr (cons (num 80) (cons (str (codes "${env:PORT}")) nil))) end))

settings_end : (result : Value × Context) × (substitute_placeholders machine settings ≡ some result)
settings_end = substitute_placeholders_end machine settings

-- An address with two placeholders, the second of them with a default, and a text that is none
abbrev host_part : Part
host_part = record {
  before = codes "http://";
  body = codes "env:HOST";
  value = codes "idp";
  from_source = true;
}

abbrev port_part : Part
port_part = record {
  before = codes "$:";
  body = codes "env:PORT:-80";
  value = codes "80";
  from_source = false;
}

parts-AreResolved : AreResolved machine [] (host_part ∷ port_part ∷ []) []
unfolding resolve_placeholder is_env_name cut_default cut_at text_eq starts_with has_char
parts-AreResolved = (
  λ e. cc e,
  has_char-Lacks b'}' (codes "env:HOST") refl,
  ([], refl, (λ e. cc e, has_char-Lacks b'}' (codes "env:PORT:-80") refl, ([], refl, refl))),
)

substitute_string-template_example :
    (result : Substituted) × (substitute_string machine []
        (written (host_part ∷ port_part ∷ []) (codes "/${x}"))
      ≡ some result)
    × (result.value ≡ replaced (host_part ∷ port_part ∷ []) (codes "/${x}"))
    × (result.issue ≡ none)
    × (result.cache ≡ [])
substitute_string-template_example =
    substitute_string-template machine [] [] (host_part ∷ port_part ∷ []) (codes "/${x}")
      parts-AreResolved

secret_resolved :
    resolve_placeholder machine [] (codes "file:/run/s")
    ≡ resolved (codes "secret") true ((codes "/run/s", codes "secret") ∷ [])
unfolding resolve_placeholder cut_at text_eq starts_with trim cached drop_newline
secret_resolved = refl
