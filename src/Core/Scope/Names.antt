-- ===== src/Core/Scope/Names.antt =====
-- What a parsed scope holds, crates/geonosis-core/src/scope.rs.
use geonosis.Base.{
  String, true, false, List, [], ◌∷◌, ok, ◌>>=◌, >>=-eq-ok, any, All, In, ◌==◌, ==_iff, string_eq,
  ◌≡◌, refl, sym, ◌∙◌, arith, inl, inr, Bool-cases, subst,
}
use geonosis.Core.Scope.{scope_name, collect_scopes}

-- No name stands twice.
abbrev pub IsDistinct : List String → Type 0
IsDistinct [] = Unit
IsDistinct (s ∷ rest) = ¬ In s rest × IsDistinct rest

-- A name is valid, and is not one of those seen.
abbrev pub IsNew : List String → String → Type 0
IsNew seen s = (scope_name s ≡ ok s) × (any (λ x. x == s) seen ≡ false)

pub scope_name-same : (s name : String) → scope_name s ≡ ok name → name ≡ s
unfolding scope_name
scope_name-same s name h = ground arith

any-In : (seen : List String) (s : String) → any (λ x. x == s) seen ≡ false → ¬ In s seen
unfolding any
any-In [] s h m = absurd m
any-In (x ∷ seen) s h (inl e) = ground (arith, ==_iff x s)
any-In (x ∷ seen) s h (inr m) = any-In seen s (ground arith) m

-- Names that are new to a longer list.
weaken :
    (seen : List String) (token : String) (out : List String)
    → All (IsNew (token ∷ seen)) out
    → All (IsNew seen) out × ¬ In token out
unfolding any
weaken seen token [] h = (tt, λ m. m)
weaken seen token (s ∷ out) ((valid, fresh), rest) =
    let (below, absent) = weaken seen token out rest in
    (
      ((valid, ground arith), below),
      λ m. elim m [ inl e ↦ ground (arith, ==_iff token s) | inr m' ↦ absent m' ],
    )

seen_step :
    (token : String) (seen tokens : List String)
    → any (λ s. s == token) seen ≡ true
    → collect_scopes seen (token ∷ tokens) ≡ collect_scopes seen tokens
unfolding collect_scopes
seen_step token seen tokens h = rw (h) refl

pub new_step :
    (token : String) (seen tokens : List String)
    → any (λ s. s == token) seen ≡ false
    → collect_scopes seen (token ∷ tokens) ≡ (
        scope_name token >>= λ name.
        collect_scopes (token ∷ seen) tokens >>= λ out. ok (name ∷ out))
unfolding collect_scopes
new_step token seen tokens h = rw (h) refl

pub collect_scopes-ok :
    (tokens seen out : List String)
    → collect_scopes seen tokens ≡ ok out
    → All (IsNew seen) out × IsDistinct out
unfolding collect_scopes
collect_scopes-ok [] seen out h =
    let e : [] ≡ out = cc in subst (λ o. All (IsNew seen) o × IsDistinct o) e (tt, tt)
collect_scopes-ok (token ∷ tokens) seen out h = elim (Bool-cases (any (λ s. s == token) seen)) [
  | inl held ↦ collect_scopes-ok tokens seen out (sym (seen_step token seen tokens held) ∙ h)
  | inr fresh ↦
      let (name, valid, h') =
        >>=-eq-ok (scope_name token) (λ n. collect_scopes (token ∷ seen) tokens >>= λ o. ok (n ∷ o))
          out (sym (new_step token seen tokens fresh) ∙ h) in
      let (rest, taken, h'') =
        >>=-eq-ok (collect_scopes (token ∷ seen) tokens) (λ o. ok (name ∷ o)) out h' in
      let (news, distinct) = collect_scopes-ok tokens (token ∷ seen) rest taken in
      let same = scope_name-same token name valid in
      let (below, absent) = weaken seen token rest news in
      let whole : name ∷ rest ≡ out = cc in
      let e : token ∷ rest ≡ out = subst (λ n. n ∷ rest ≡ out) same whole in
      subst (λ o. All (IsNew seen) o × IsDistinct o) e
        (((subst (λ n. scope_name token ≡ ok n) same valid, fresh), below), (absent, distinct))
]
