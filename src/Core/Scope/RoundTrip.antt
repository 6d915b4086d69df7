-- ===== src/Core/Scope/RoundTrip.antt =====
-- Formatting a list of scope names and parsing it again, crates/geonosis-core/src/scope.rs.
use geonosis.Base.{
  String, true, List, [], ◌∷◌, ok, any, All, In, ==_iff, string_eq, ◌≡◌, refl, ap, ◌∙◌, arith, inl,
  inr,
}
use geonosis.Core.Scope.{
  all_scope_chars, scope_name, tokens_of, collect_scopes, parse_scope_string, format_scope_string,
}
use geonosis.Core.Scope.Names.{IsNew, IsDistinct, new_step, collect_scopes-ok}
use geonosis.Core.Scope.Texts.{IsWord, IsNonempty, scope_char_word, tokens_word, tokens_spaced}

all_scope_chars-IsWord : (s : String) → all_scope_chars s ≡ true → IsWord s
unfolding all_scope_chars
all_scope_chars-IsWord String.[] h = tt
all_scope_chars-IsWord (String.◌∷◌ c s) h =
    (scope_char_word c (ground arith), all_scope_chars-IsWord s (ground arith))

valid_chars : (s : String) → scope_name s ≡ ok s → all_scope_chars s ≡ true
unfolding scope_name
valid_chars s h = ground arith

valid-IsNonempty : (s : String) → scope_name s ≡ ok s → IsNonempty s
unfolding scope_name
valid-IsNonempty String.[] h = ground arith
valid-IsNonempty (String.◌∷◌ c s) h = tt

-- The text splits into the names.
tokens_of-format_scope_string :
    (names : List String)
    → All (λ s. scope_name s ≡ ok s) names
    → tokens_of (format_scope_string names) ≡ names
unfolding format_scope_string tokens_of
tokens_of-format_scope_string [] h = refl
tokens_of-format_scope_string (s ∷ []) (v, h) =
    tokens_word s (all_scope_chars-IsWord s (valid_chars s v)) (valid-IsNonempty s v)
tokens_of-format_scope_string (s ∷ r ∷ rest) (v, h) =
    tokens_spaced s (format_scope_string (r ∷ rest)) (all_scope_chars-IsWord s (valid_chars s v))
      (valid-IsNonempty s v)
    ∙ ap (λ l. s ∷ l) (tokens_of-format_scope_string (r ∷ rest) h)

-- Names that are not seen stay so after one that is not among them.
still-IsNew :
    (seen : List String) (token : String) (names : List String)
    → All (IsNew seen) names
    → ¬ In token names
    → All (IsNew (token ∷ seen)) names
unfolding any
still-IsNew seen token [] h absent = tt
still-IsNew seen token (s ∷ names) ((valid, fresh), rest) absent =
    let other : ¬ (s ≡ token) = λ e. absent (inl e) in
    (
      (valid, ground (arith, ==_iff token s)),
      still-IsNew seen token names rest (λ m. absent (inr m)),
    )

collect_scopes-distinct :
    (seen names : List String)
    → All (IsNew seen) names
    → IsDistinct names
    → collect_scopes seen names ≡ ok names
unfolding collect_scopes
collect_scopes-distinct seen [] h d = refl
collect_scopes-distinct seen (s ∷ names) ((valid, fresh), rest) (absent, d) =
    let below = collect_scopes-distinct (s ∷ seen) names (still-IsNew seen s names rest absent) d in
    new_step s seen names fresh ∙ (rw (valid, below) refl)

none_seen : (names : List String) → All (λ s. scope_name s ≡ ok s) names → All (IsNew []) names
unfolding any
none_seen [] h = tt
none_seen (s ∷ names) (v, h) = ((v, refl), none_seen names h)

-- Valid names that are distinct, written as a scope text, parse to themselves.
parse_distinct :
    (names : List String)
    → All (λ s. scope_name s ≡ ok s) names
    → IsDistinct names
    → parse_scope_string (format_scope_string names) ≡ ok names
unfolding parse_scope_string
parse_distinct names h d =
    ap (collect_scopes []) (tokens_of-format_scope_string names h)
    ∙ collect_scopes-distinct [] names (none_seen names h) d

only_valid :
    (seen names : List String) → All (IsNew seen) names → All (λ s. scope_name s ≡ ok s) names
only_valid seen [] h = tt
only_valid seen (s ∷ names) ((v, fresh), h) = (v, only_valid seen names h)

-- What a scope text parses to is a list of valid names in which no name stands twice, and
-- the text that the list is formatted to parses to the same list.
pub parse_scope_string-format_scope_string :
    (s : String) (names : List String)
    → parse_scope_string s ≡ ok names
    → All (λ n. scope_name n ≡ ok n) names
      × IsDistinct names
      × (parse_scope_string (format_scope_string names) ≡ ok names)
unfolding parse_scope_string
parse_scope_string-format_scope_string s names h =
    let (news, distinct) = collect_scopes-ok (tokens_of s) [] names h in
    let valid = only_valid [] names news in (valid, distinct, parse_distinct names valid distinct)
