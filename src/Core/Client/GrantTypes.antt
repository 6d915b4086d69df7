-- ===== src/Core/Client/GrantTypes.antt =====
-- The names of the grants on the wire, crates/geonosis-core/src/client.rs.
use geonosis.Base.{
  String, Option, some, ◌==◌, string_eq, if◌then◌else◌, ◌≡◌, ◌↔◌, inl, inr, Bool-cases, sym, ap,
  ◌∙◌, subst, refl, arith,
}
use text.Mathlib.TextEquality.{eq_iff}
use geonosis.Core.Client.{
  GrantType, authorization_code, refresh_token, client_credentials, password, device_code,
  token_exchange, as_token_param, parse,
}

parse-as_token_param : (g : GrantType) → parse (as_token_param g) ≡ some g
unfolding parse as_token_param
parse-as_token_param authorization_code = refl
parse-as_token_param refresh_token = refl
parse-as_token_param client_credentials = refl
parse-as_token_param password = refl
parse-as_token_param device_code = refl
parse-as_token_param token_exchange = refl

-- One test of the chain.
tested :
    (s : String) (mine g : GrantType) (rest : Option GrantType)
    → (if s == as_token_param mine then some mine else rest) ≡ some g
    → (rest ≡ some g → as_token_param g ≡ s)
    → as_token_param g ≡ s
tested s mine g rest h later = elim (Bool-cases (s == as_token_param mine)) [
  | inl hit ↦
      let it : mine ≡ g = ground arith in
      sym (ap as_token_param it) ∙ sym ((eq_iff s (as_token_param mine)).0 hit)
  | inr miss ↦ later (ground arith)
]

as_token_param-parse : (s : String) (g : GrantType) → parse s ≡ some g → as_token_param g ≡ s
unfolding parse as_token_param
as_token_param-parse s g h = tested s authorization_code g _ h (λ h1.
    tested s refresh_token g _ h1 (λ h2. tested s client_credentials g _ h2 (λ h3.
      tested s password g _ h3
        (λ h4. tested s device_code g _ h4 (λ h5. tested s token_exchange g _ h5 (λ h6. cc))))))

-- A text parses as a grant type exactly when it is that grant type's name.
parse_iff : (s : String) (g : GrantType) → (parse s ≡ some g) ↔ (as_token_param g ≡ s)
parse_iff s g = (
  as_token_param-parse s g,
  λ e. subst (λ (t : String). parse t ≡ some g) e (parse-as_token_param g),
)
