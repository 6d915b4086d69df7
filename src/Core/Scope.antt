-- ===== src/Core/Scope.antt =====
-- crates/geonosis-core/src/scope.rs: scope names, and the text of a list of them.
pub mod Names
pub mod Texts
pub mod RoundTrip
use Prim.Native.Char.{Char, code}
use geonosis.Base.{
  String, Bool, true, false, not, ◌&&◌, ◌||◌, List, [], ◌∷◌, Result, ok, err, ◌>>=◌, if◌then◌else◌,
  leb, ltb, nat_beq, any, length, ◌==◌, string_eq, str_append,
}
use geonosis.OAuth.Bytes.{as_bytes}

-- `c.is_ascii_alphanumeric() || matches!(c, '-' | '_' | ':' | '.' | '/')`
unfoldable pub is_scope_char : Char → Bool
is_scope_char c =
    (leb b'0' (code c) && leb (code c) b'9')
    || (leb b'A' (code c) && leb (code c) b'Z')
    || (leb b'a' (code c) && leb (code c) b'z')
    || any (nat_beq (code c)) (b'-' ∷ b'_' ∷ b':' ∷ b'.' ∷ b'/' ∷ [])

unfoldable pub all_scope_chars : String → Bool
all_scope_chars String.[] = true
all_scope_chars (String.◌∷◌ c s) = is_scope_char c && all_scope_chars s

-- `ScopeName::new`; the error carries the text.
unfoldable pub scope_name : String → Result String String
scope_name s =
    if s == "" || ltb 128 (length (as_bytes s))
    then err s
    else if not (all_scope_chars s)
    then err s
    else ok s

-- Space, tab, line feed, form feed and carriage return.
unfoldable pub is_ascii_space : Char → Bool
is_ascii_space c = any (nat_beq (code c)) (32 ∷ 9 ∷ 10 ∷ 12 ∷ 13 ∷ [])

-- The text goes on with a character of a token.
unfoldable pub goes_on : String → Bool
goes_on String.[] = false
goes_on (String.◌∷◌ c s) = not (is_ascii_space c)

unfoldable pub grow_first : Char → List String → List String
grow_first c [] = String.◌∷◌ c String.[] ∷ []
grow_first c (token ∷ tokens) = String.◌∷◌ c token ∷ tokens

-- `split_ascii_whitespace()`
unfoldable pub tokens_of : String → List String
tokens_of String.[] = []
tokens_of (String.◌∷◌ c s) =
    let rest = tokens_of s in
    if is_ascii_space c
    then rest
    else if goes_on s
    then grow_first c rest
    else String.◌∷◌ c String.[] ∷ rest

-- The loop of `parse_scope_string`.
unfoldable pub collect_scopes : List String → List String → Result String (List String)
collect_scopes seen [] = ok []
collect_scopes seen (token ∷ tokens) =
    let skipped = collect_scopes seen tokens in
    let taken = collect_scopes (token ∷ seen) tokens in
    if any (λ s. s == token) seen
    then skipped
    else scope_name token >>= λ name. taken >>= λ out. ok (name ∷ out)

unfoldable pub parse_scope_string : String → Result String (List String)
parse_scope_string s = collect_scopes [] (tokens_of s)

unfoldable pub format_scope_string : List String → String
format_scope_string [] = ""
format_scope_string (s ∷ []) = s
format_scope_string (s ∷ r ∷ rest) = str_append s (str_append " " (format_scope_string (r ∷ rest)))
