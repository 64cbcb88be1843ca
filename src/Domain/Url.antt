-- ===== src/Domain/Url.antt =====
-- internal/domain/model/url.go. Go's net/url is a parameter, and so is `strings.ToLower`.
pub mod Normal
use Prim.Native.String.{◌++◌ as str_append}
use Prim.Native.String
use Prim.Native.Char.{Char, code}
use text.Mathlib.Text.{starts_with}
use oafse.Common.{
  ℕ, ◌≡◌, String, Bool, true, false, ◌&&◌, ◌||◌, not, Option, none, some, str_eq, ◌==◌,
  if◌then◌else◌,
}

-- `url.URL`; `Userinfo` is kept as its text.
pub record GoUrl : Type 0 where
  pub scheme : String
  pub opaque : String
  pub user : Option String
  pub host : String
  pub path : String
  pub raw_path : String
  pub omit_host : Bool
  pub force_query : Bool
  pub raw_query : String
  pub fragment : String
  pub raw_fragment : String

-- What the program calls of net/url and strings: `url.Parse` (none is its error), `URL.String`,
-- `URL.Hostname`, `URL.ResolveReference` and `strings.ToLower`, which lowers no letter twice.
pub record NetUrl : Type 0 where
  pub parse : String → Option GoUrl
  pub string : GoUrl → String
  pub hostname : GoUrl → String
  pub resolve : GoUrl → GoUrl → GoUrl
  pub to_lower : String → String
  pub to_lower_idem : (s : String) → to_lower (to_lower s) ≡ to_lower s

-- `model.URL`
pub record Url : Type 0 where
  pub url : GoUrl
  pub parent : String
  pub try : ℕ

abbrev pub keep_char : Char → String → String
keep_char c String.[] = if code c == b'/' then String.[] else String.◌∷◌ c String.[]
keep_char c (String.◌∷◌ d s) = String.◌∷◌ c (String.◌∷◌ d s)

-- `strings.TrimRight(s, "/")`
abbrev pub trim_slashes : String → String
trim_slashes String.[] = String.[]
trim_slashes (String.◌∷◌ c s) = keep_char c (trim_slashes s)

-- The error of `NormalizeStartURL`, or its result.
pub data StartUrl : Type 0 where
  start_at : String → StartUrl
  parse_failed : StartUrl
  missing_host : StartUrl

module _ (net : NetUrl) where
  unfoldable pub normalize : GoUrl → GoUrl
  normalize u = record u {
    host = net.to_lower u.host;
    user = none;
    fragment = "";
    raw_fragment = "";
    raw_query = "";
    force_query = false;
    path = trim_slashes u.path;
  }

  unfoldable pub new_url_from_parsed : GoUrl → Option Url
  unfolding normalize
  new_url_from_parsed u =
      if str_eq u.scheme "" || str_eq u.host ""
      then none
      else some (record { url = normalize u; parent = ""; try = 0 })

  abbrev pub new_url_of : Option GoUrl → Option Url
  new_url_of none = none
  new_url_of (some u) =
      if str_eq u.scheme "" || str_eq u.host ""
      then none
      else some (record { url = normalize u; parent = ""; try = 0 })

  unfoldable pub new_url : String → Option Url
  unfolding normalize
  new_url raw = new_url_of (net.parse raw)

  unfoldable pub is_same_domain : Url → Url → Bool
  is_same_domain u other = str_eq (net.hostname u.url) (net.hostname other.url)

  unfoldable pub equals : Url → Url → Bool
  equals u other = str_eq (net.string u.url) (net.string other.url)

  abbrev pub start_of : Option GoUrl → StartUrl
  start_of none = parse_failed
  start_of (some u) =
      if str_eq u.host ""
      then missing_host
      else start_at (str_append u.scheme (str_append "://" u.host))

  abbrev pub with_scheme : String → String
  with_scheme raw =
      if not (starts_with raw "http://") && not (starts_with raw "https://")
      then str_append "https://" raw
      else raw

  unfoldable pub normalize_start_url : String → StartUrl
  normalize_start_url raw = start_of (net.parse (with_scheme raw))
