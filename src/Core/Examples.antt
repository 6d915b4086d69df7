-- ===== src/Core/Examples.antt =====
-- A registered redirect URI with a wildcard, and a scope text.
use geonosis.Base.{ℕ, true, List, [], ◌∷◌, ok, All, any, ◌≡◌, refl, ◌↔◌, ◌⊎◌}
use geonosis.Core.RedirectUri.{RedirectUri, matches}
use geonosis.OAuth.Bytes.{as_bytes}
use geonosis.Core.Scope.{
  is_scope_char, all_scope_chars, is_ascii_space, goes_on, grow_first, scope_name, tokens_of,
  collect_scopes, parse_scope_string, format_scope_string,
}
use geonosis.Core.Scope.Names.{IsDistinct}
use geonosis.Core.Scope.RoundTrip.{parse_scope_string-format_scope_string}
use geonosis.Core.RedirectUri.Covered.{IsUnder, matches_iff}

-- "a:/*"
abbrev registered : RedirectUri
registered = record { uri = 97 ∷ 58 ∷ 47 ∷ 42 ∷ []; wildcard_path = true }

-- "a:/b"
abbrev asked : List ℕ
asked = 97 ∷ 58 ∷ 47 ∷ 98 ∷ []

matches_iff_example :
    (matches registered asked ≡ true) ↔ ((registered.uri ≡ asked) ⊎ IsUnder registered asked)
matches_iff_example = matches_iff registered asked

-- The name that stands twice is taken once.
parses : parse_scope_string "openid  openid api:read" ≡ ok ("openid" ∷ "api:read" ∷ [])
unfolding parse_scope_string collect_scopes scope_name tokens_of is_ascii_space any goes_on
    grow_first as_bytes all_scope_chars is_scope_char
parses = refl

parse_scope_string-format_scope_string_example :
    All (λ n. scope_name n ≡ ok n) ("openid" ∷ "api:read" ∷ [])
    × IsDistinct ("openid" ∷ "api:read" ∷ [])
    × (parse_scope_string (format_scope_string ("openid" ∷ "api:read" ∷ []))
        ≡ ok ("openid" ∷ "api:read" ∷ []))
parse_scope_string-format_scope_string_example =
    parse_scope_string-format_scope_string "openid  openid api:read" ("openid" ∷ "api:read" ∷ [])
      parses
