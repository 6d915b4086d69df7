-- ===== src/Server/NameId/Stable.antt =====
-- Which name ids a user's requests get, crates/geonosis-server/src/handlers/login_actions.rs.
use geonosis.Base.{
  ℕ, String, Option, none, some, List, [], ◌∷◌, lookup, contains_key, lookup-insert_self,
  insert_other, nat_eq, string_eq, pair_eq, ◌≡◌, refl, sym, ap, ◌∙◌, inl, inr, Option-cases,
}
use geonosis.Storage.Federation.{
  Federation, SamlPersistentIdRow, get_saml_persistent_id, save_saml_persistent_id,
}
use geonosis.Server.NameId.{
  NameIdRequest, minted, row_of, look, settle, resolve_persistent_name_id, resolve_all,
}

absent_held : {A : Type 0} {a : A} → ¬ (none ≡ some a)
absent_held q = cc

-- A saved id is never written over.
save_keeps :
    (t : Federation) (r : NameIdRequest) (row new : SamlPersistentIdRow)
    → look r t ≡ some row
    → look r (save_saml_persistent_id new t) ≡ some row
unfolding look get_saml_persistent_id save_saml_persistent_id contains_key
save_keeps t r row new held =
    elim (Option-cases
      (lookup (new.realm_id, (new.user_id, new.sp_entity_id)) t.saml_persistent_ids)) [
        | inl free ↦
            rw (save_saml_persistent_id, free)
              (insert_other (new.realm_id, (new.user_id, new.sp_entity_id))
                  (r.realm_id, (r.user_id, r.sp_entity_id)) new t.saml_persistent_ids
                  (λ q. absent_held (sym free ∙ ap (λ k. lookup k t.saml_persistent_ids) q ∙ held))
                ∙ held)
        | inr (old, there) ↦ rw (save_saml_persistent_id, there) held
      ]

settle_keeps :
    (t : Federation) (r other : NameIdRequest) (read : Option SamlPersistentIdRow)
    (row : SamlPersistentIdRow)
    → look r t ≡ some row
    → look r (settle other read t).0 ≡ some row
unfolding settle
settle_keeps t r other none row held = save_keeps t r row (row_of other) held
settle_keeps t r other (some old) row held = held

resolve_all_keeps :
    (rs : List NameIdRequest) (t : Federation) (r : NameIdRequest) (row : SamlPersistentIdRow)
    → look r t ≡ some row
    → look r (resolve_all rs t) ≡ some row
unfolding resolve_all resolve_persistent_name_id
resolve_all_keeps [] t r row held = held
resolve_all_keeps (other ∷ rs) t r row held =
    resolve_all_keeps rs (settle other (look other t) t).0 r row
      (settle_keeps t r other (look other t) row held)

-- A free id is what the first save writes.
saved :
    (t : Federation) (r : NameIdRequest)
    → look r t ≡ none
    → look r (save_saml_persistent_id (row_of r) t) ≡ some (row_of r)
unfolding look get_saml_persistent_id save_saml_persistent_id contains_key
saved t r free =
    rw (save_saml_persistent_id, free)
      (lookup-insert_self (r.realm_id, (r.user_id, r.sp_entity_id)) (row_of r)
        t.saml_persistent_ids)

resolved :
    (t : Federation) (r : NameIdRequest) (read : Option SamlPersistentIdRow)
    → look r t ≡ read
    → (row : SamlPersistentIdRow) × (look r (settle r read t).0 ≡ some row)
      × (row.name_id ≡ (settle r read t).1)
unfolding settle
resolved t r none q = (row_of r, saved t r q, refl)
resolved t r (some row) q = (row, q, refl)

-- A request for the same user at the same service provider.
abbrev again : NameIdRequest → String → ℕ → NameIdRequest
again r fresh now = record r { fresh = fresh; now = now }

same_look :
    (r : NameIdRequest) (fresh : String) (now : ℕ) (t : Federation) (o : Option SamlPersistentIdRow)
    → look r t ≡ o
    → look (again r fresh now) t ≡ o
unfolding look
same_look r fresh now t o q = q

settled :
    (r : NameIdRequest) (t : Federation) (row : SamlPersistentIdRow)
    → look r t ≡ some row
    → (settle r (look r t) t).1 ≡ row.name_id
unfolding settle
settled r t row q = rw (q) refl

-- When requests run one after the other, a request gets the name id that an earlier request for the
-- same user and service provider got, whatever was requested in between and before.
pub resolve_persistent_name_id-again :
    (t : Federation) (r : NameIdRequest) (between : List NameIdRequest) (fresh : String) (now : ℕ)
    → let first = resolve_persistent_name_id r t in
      (resolve_persistent_name_id (again r fresh now) (resolve_all between first.0)).1 ≡ first.1
unfolding resolve_persistent_name_id
resolve_persistent_name_id-again t r between fresh now =
    let first = settle r (look r t) t in
    let (row, held, named) = resolved t r (look r t) refl in
    let later = resolve_all_keeps between first.0 r row held in
    settled (again r fresh now) (resolve_all between first.0) row
      (same_look r fresh now _ (some row) later)
    ∙ named

-- When a second request for a user and a service provider, neither having an id, looks before the
-- first one saves, the first name id is stored and the second request still returns the one that it
-- minted itself.
pub settle_twice :
    (t : Federation) (r : NameIdRequest) (fresh : String) (now : ℕ)
    → look r t ≡ none
    → let second = again r fresh now in
      let first_end = settle r (look r t) t in
      let second_end = settle second (look second t) first_end.0 in
      (first_end.1 ≡ minted r)
      × (second_end.1 ≡ minted second)
      × (look r second_end.0 ≡ some (row_of r))
unfolding settle
settle_twice t r fresh now free =
    let again_free : look (again r fresh now) t ≡ none = same_look r fresh now t none free in
    rw (free, again_free)
      (
        refl,
        refl,
        save_keeps (save_saml_persistent_id (row_of r) t) r (row_of r) (row_of (again r fresh now))
            (saved t r free),
      )
