-- ===== src/Core/Scope/Texts.antt =====
-- The text of a list of scope names read back, crates/geonosis-core/src/scope.rs.
use Prim.Native.Char.{Char}
use Prim.Native.String.append
use geonosis.Base.{
  String, true, false, [], ◌∷◌, any, string_eq, str_append, ◌≡◌, refl, ap, ◌∙◌, arith, nat_beq_iff,
}
use geonosis.Core.Scope.{is_scope_char, is_ascii_space, goes_on, grow_first, tokens_of}

-- A text without a space.
abbrev pub IsWord : String → Type 0
IsWord String.[] = Unit
IsWord (String.◌∷◌ c s) = (is_ascii_space c ≡ false) × IsWord s

abbrev pub IsNonempty : String → Type 0
IsNonempty String.[] = ⊥
IsNonempty (String.◌∷◌ c s) = Unit

-- A character of a scope name is no space.
pub scope_char_word : (c : Char) → is_scope_char c ≡ true → is_ascii_space c ≡ false
unfolding is_scope_char is_ascii_space any
scope_char_word c h = grind (arith, nat_beq_iff)

token_inner :
    (c : Char) (s : String)
    → is_ascii_space c ≡ false
    → goes_on s ≡ true
    → tokens_of (String.◌∷◌ c s) ≡ grow_first c (tokens_of s)
unfolding tokens_of
token_inner c s h g = rw (h, g) refl

token_edge :
    (c : Char) (s : String)
    → is_ascii_space c ≡ false
    → goes_on s ≡ false
    → tokens_of (String.◌∷◌ c s) ≡ String.◌∷◌ c String.[] ∷ tokens_of s
unfolding tokens_of
token_edge c s h g = rw (h, g) refl

word_goes_on : (d : Char) (s : String) → is_ascii_space d ≡ false → goes_on (String.◌∷◌ d s) ≡ true
unfolding goes_on
word_goes_on d s h = rw (h) refl

append_cons :
    (c : Char) (s t : String) → str_append (String.◌∷◌ c s) t ≡ String.◌∷◌ c (str_append s t)
append_cons c s t = λ i. append.cons c s t i

append_nil : (t : String) → str_append "" t ≡ t
append_nil t = λ i. append.nil t i

-- A space before a text.
spaced : (s : String) → str_append " " s ≡ String.◌∷◌ " " s
spaced s = append_cons " " "" s ∙ ap (String.◌∷◌ " ") (append_nil s)

space_stops : (s : String) → goes_on (str_append " " s) ≡ false
unfolding goes_on is_ascii_space any
space_stops s = ap goes_on (spaced s)

token_space : (s : String) → tokens_of (str_append " " s) ≡ tokens_of s
unfolding tokens_of is_ascii_space any
token_space s = ap tokens_of (spaced s)

pub tokens_word : (w : String) → IsWord w → IsNonempty w → tokens_of w ≡ w ∷ []
unfolding grow_first tokens_of goes_on
tokens_word String.[] h n = absurd n
tokens_word (String.◌∷◌ c String.[]) (h, rest) n = token_edge c String.[] h refl
tokens_word (String.◌∷◌ c (String.◌∷◌ d w)) (h, rest) n =
    token_inner c (String.◌∷◌ d w) h (word_goes_on d w rest.0)
    ∙ ap (grow_first c) (tokens_word (String.◌∷◌ d w) rest tt)

pub tokens_spaced :
    (w s : String)
    → IsWord w
    → IsNonempty w
    → tokens_of (str_append w (str_append " " s)) ≡ w ∷ tokens_of s
unfolding grow_first
tokens_spaced String.[] s h n = absurd n
tokens_spaced (String.◌∷◌ c String.[]) s (h, rest) n =
    let after = str_append " " s in
    ap tokens_of (append_cons c "" after ∙ ap (String.◌∷◌ c) (append_nil after))
    ∙ token_edge c after h (space_stops s)
    ∙ ap (λ t. String.◌∷◌ c String.[] ∷ t) (token_space s)
tokens_spaced (String.◌∷◌ c (String.◌∷◌ d w)) s (h, rest) n =
    let after = str_append " " s in
    let whole = str_append (String.◌∷◌ d w) after in
    ap tokens_of (append_cons c (String.◌∷◌ d w) after)
    ∙ token_inner c whole h
        (ap goes_on (append_cons d w after) ∙ word_goes_on d (str_append w after) rest.0)
    ∙ ap (grow_first c) (tokens_spaced (String.◌∷◌ d w) s rest tt)
