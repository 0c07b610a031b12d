-- ===== src/Token/Issues.antt =====
-- What creating and rotating tokens does: the secret that is issued is valid, no token had it, and the
-- token that has it then has the scopes asked for, or those that it had.
use dicer.Prelude.{
  String, ◌≡◌, ◌≢◌, refl, sym, ap, ◌∙◌, ◌⊎◌, inl, inr, true, none, some, List, [], ◌∷◌, ◌==◌,
  string_Eq, Bool-cases, subst, In,
}
use dicer.Text.{Runes, runes_Eq, runes_eq_iff}
use dicer.Maps.{lookup}
use dicer.Maps.Lookup.{ne_of_beq}
use dicer.Maps.Exact.{lookup-In}
use dicer.Errors.{Error, Result, ok, err, not_found, exists, invalid_argument}
use dicer.Token.{Token}
use dicer.Token.Secret.{validate_secret}
use dicer.Token.Access.{token_by_sha}
use dicer.Token.Manager.{
  Fresh, Issued, unused, validate_token, answered, new_secret, create_with, create_token,
  rotate_with, rotate_found, rotate_token,
}
use dicer.Store.{Catalogue}
use dicer.Store.Definitions.{Disk, find}
use dicer.Store.Sound.{IsSound}
use dicer.Store.Calls.{IsFresh, find-cases, fresh-Fits, kept-Fits}
use dicer.Store.Kept.{with_definition, with_definition-IsSound, create-cases, update-cases}
use dicer.Store.Kinds.{token_Kind}

pub token_by_sha-cases :
    (sha : Runes) (tokens : List (String × Token))
    → ((token_by_sha sha tokens ≡ err not_found)
        × ((n : String) (t : Token) → In (n, t) tokens → t.secret_sha256 ≢ sha))
      ⊎ ((n : String) × (t : Token) × (token_by_sha sha tokens ≡ ok t)
          × In (n, t) tokens
          × (t.secret_sha256 ≡ sha))
unfolding token_by_sha
token_by_sha-cases sha [] = inl (refl, λ n t i. absurd i.1)
token_by_sha-cases sha ((k, u) ∷ tokens) = elim (Bool-cases (u.secret_sha256 == sha)) [
  | inl same ↦ inr (k, u, rw same refl, inl refl, (runes_eq_iff u.secret_sha256 sha).0 same)
  | inr differs ↦ elim (token_by_sha-cases sha tokens) [
    | inl (f, no_) ↦ inl (
      rw differs f,
      λ n t i. elim i [
        | inl e ↦ λ q.
            ne_of_beq u.secret_sha256 sha differs
              (ap (λ (x : String × Token). x.1.secret_sha256) (sym e) ∙ q)
        | inr j ↦ no_ n t j
      ],
    )
    | inr (n, t, f, i, q) ↦ inr (n, t, rw differs f, inr i, q)
  ]
]

module _ (sha256 : Runes → Runes) (c : Catalogue Token) where
  -- A valid secret that no token has.
  pub record IsUnused (secret : Runes) : Type 0 where
    pub valid : validate_secret secret ≡ true
    pub no_token :
        (n : String) (t : Token) → lookup n c.by_name ≡ some t → t.secret_sha256 ≢ sha256 secret

  new_secret-cases :
      (given : Runes) (fresh : Fresh)
      → IsUnused fresh.secret
      → ((e : Error) × (new_secret sha256 given fresh c ≡ err e))
        ⊎ ((secret : Runes) × (new_secret sha256 given fresh c ≡ ok secret) × IsUnused secret)
  unfolding new_secret unused
  new_secret-cases [] fresh u = inr (fresh.secret, refl, u)
  new_secret-cases (r ∷ s) fresh u = elim (Bool-cases (validate_secret (r ∷ s))) [
    | inr bad ↦ inl (invalid_argument, rw bad refl)
    | inl good ↦ elim (token_by_sha-cases (sha256 (r ∷ s)) c.by_name) [
      | inr (n, t, f, _, _) ↦ inl (exists, rw (good, f) refl)
      | inl (f, no_) ↦ inr (
        r ∷ s,
        rw (good, f) refl,
        record { valid = good; no_token = λ n t l. no_ n t (lookup-In n c.by_name l) },
      )
    ]
  ]

  -- A call that fails and changes nothing, or issues a secret with a token of those scopes.
  abbrev pub Issues : List Runes → Catalogue Token × Result Issued → Type 0
  Issues scopes out =
      ((e : Error) × (out ≡ (c, err e)))
      ⊎ ((t : Token) × (secret : Runes) × (out
            ≡ (with_definition t c, ok (record { token = t; secret = secret })))
          × IsUnused secret
          × (t.secret_sha256 ≡ sha256 secret)
          × (t.scopes ≡ scopes)
          × IsSound (with_definition t c))

  pub create_token-Issues :
      (name : String) (given : Runes) (scopes : List Runes) (fresh : Fresh) (disk : Disk)
      → IsSound c
      → IsUnused fresh.secret
      → IsFresh
          (record { id = fresh.id; name = name; secret_sha256 = []; scopes = []; last_used_at = 0 })
          c
      → Issues scopes (create_token sha256 name given scopes fresh disk c)
  unfolding create_token create_with answered
  create_token-Issues name given scopes fresh disk s u f = elim (new_secret-cases given fresh u) [
    | inl (e, q) ↦ inl (e, rw q refl)
    | inr (secret, q, unused_) ↦
        let t : Token = record {
          id = fresh.id;
          name = name;
          secret_sha256 = sha256 secret;
          scopes = scopes;
          last_used_at = 0;
        } in
        elim (Bool-cases (validate_token t)) [
          | inr bad ↦ inl (invalid_argument, rw (q, bad) refl)
          | inl good ↦ elim (create-cases none t disk c s) [
            | inl (e, w) ↦ inl (e, rw (q, good, w) refl)
            | inr (w, _, _, a, b) ↦
                let f' : IsFresh t c = record {
                  some_id = f.some_id;
                  not_name = f.not_name;
                  free_name = f.free_name;
                  free_id = f.free_id;
                } in
                inr (
                  t,
                  secret,
                  rw (q, good, w) refl,
                  unused_,
                  refl,
                  refl,
                  with_definition-IsSound t c s (fresh-Fits t c s f' a b),
                )
          ]
        ]
  ]

  pub found_at :
      (k : String) (t : Token) → IsSound c → find k c ≡ ok t → lookup t.name c.by_name ≡ some t
  found_at k t s f = elim (find-cases k c s) [
    | inl (g, _, _) ↦ absurd (differ (sym f ∙ g))
    | inr (v, g, l, _) ↦
        let e : v ≡ t = same_ok (sym g ∙ f) in subst (λ x. lookup x.name c.by_name ≡ some x) e l
  ]
    where
      differ : {a : Token} {e : Error} → ok a ≡ err e → ⊥
      differ q = cc

      same_ok : {a b : Token} → ok a ≡ ok b → a ≡ b
      same_ok q = cc

  pub rotate_token-Issues :
      (k : String) (given : Runes) (fresh : Fresh) (disk : Disk) (t : Token)
      → IsSound c
      → IsUnused fresh.secret
      → find k c ≡ ok t
      → Issues t.scopes (rotate_token sha256 k given fresh disk c)
  unfolding rotate_token rotate_found rotate_with answered
  rotate_token-Issues k given fresh disk t s u f = elim (new_secret-cases given fresh u) [
    | inl (e, q) ↦ inl (e, rw (f, q) refl)
    | inr (secret, q, unused_) ↦
        let t' : Token = record t { secret_sha256 = sha256 secret } in
        elim (update-cases none t' disk c) [
          | inl (e, w) ↦ inl (e, rw (f, q, w) refl)
          | inr (w, _) ↦ inr (
            t',
            secret,
            rw (f, q, w) refl,
            unused_,
            refl,
            refl,
            with_definition-IsSound t' c s (kept-Fits t' t c s (found_at k t s f) refl),
          )
        ]
  ]
