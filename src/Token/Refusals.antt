-- ===== src/Token/Refusals.antt =====
-- What becomes of each call over TCP, its errors included.
use dicer.Prelude.{
  true, false, ◌≡◌, ◌≢◌, ◌∙◌, sym, ap, refl, ◌⊎◌, inl, inr, Bool-cases, Option-cases, Option, none,
  some, List, [], ◌∷◌, String, string_Eq, ◌==◌,
}
use dicer.Text.{Runes, runes_Eq, codes, cut_prefix}
use dicer.Maps.{lookup}
use dicer.Maps.Lookup.{ne_of_beq}
use dicer.Maps.Exact.{lookup-In}
use dicer.Token.Issues.{token_by_sha-cases}
use dicer.Errors.{Result, ok, err, unauthenticated, permission_denied}
use dicer.Token.{Token}
use dicer.Token.Scope.{allows}
use dicer.Token.Value.{Parsed, parsed, refused, parse}
use dicer.Token.Access.{
  authorize, allowed_scope, method_scopes, presented_token, bearer, parsed_token, or_unknown,
  token_by_sha, record_use_of,
}
use dicer.Token.Handler.{
  Daemon, Moment, Request, method_of, after_check, handle, serve_token, serve,
}
use dicer.Token.Attack.{Presents, presented_token-Presents}
use dicer.Store.{Catalogue}
use dicer.Store.Sound.{IsSound}
use dicer.Store.Kinds.{token_Kind}

-- A method that is open to a token: it needs no scope, or one that the token allows.
abbrev pub MayCall : Token → Runes → Type 0
MayCall t method =
    (scope : Runes) × (lookup method method_scopes ≡ some scope)
    × ((scope ≡ []) ⊎ (allows t.scopes scope ≡ true))

-- A method that is not: it is open to no token, or needs a scope that the token does not allow.
abbrev pub MayNotCall : Token → Runes → Type 0
MayNotCall t method =
    (lookup method method_scopes ≡ none)
    ⊎ ((scope : Runes) × (lookup method method_scopes ≡ some scope)
        × (scope ≢ [])
        × (allows t.scopes scope ≡ false))

-- A header that presents no secret of a token.
abbrev pub IsUnknown : (Runes → Runes) → List Runes → Catalogue Token → Type 0
IsUnknown sha256 header c =
    (secret : Runes)
    → Presents header secret
    → (n : String) (t : Token) → lookup n c.by_name ≡ some t
    → t.secret_sha256 ≢ sha256 secret

authorize-cases :
    (t : Token) (method : Runes)
    → ((authorize (some t) method ≡ none) × MayCall t method)
      ⊎ ((authorize (some t) method ≡ some permission_denied) × MayNotCall t method)
unfolding authorize allowed_scope
authorize-cases t method = elim (Option-cases (lookup method method_scopes)) [
  | inl e ↦ inr (rw e refl, inl e)
  | inr (scope, e) ↦ elim (Bool-cases (scope == [])) [
    | inl none_ ↦ inl (rw (e, none_) refl, (scope, e, inl ((runes_Eq.same_iff scope []).0 none_)))
    | inr some_ ↦ elim (Bool-cases (allows t.scopes scope)) [
      | inl y ↦ inl (rw (e, some_, y) refl, (scope, e, inr y))
      | inr n ↦ inr (rw (e, some_, n) refl, inr (scope, e, ne_of_beq scope [] some_, n))
    ]
  ]
]

module _ (sha256 : Runes → Runes) where
  or_unknown-cases :
      (r : Result Token)
      → ((t : Token) × (or_unknown r ≡ ok t)) ⊎ (or_unknown r ≡ err unauthenticated)
  unfolding or_unknown
  or_unknown-cases (ok t) = inl (t, refl)
  or_unknown-cases (err e) = inr refl

  presented_token-cases :
      (header : List Runes) (c : Catalogue Token)
      → ((t : Token) × (presented_token sha256 header c ≡ ok t))
        ⊎ (presented_token sha256 header c ≡ err unauthenticated)
  unfolding presented_token bearer parsed_token
  presented_token-cases [] c = inr refl
  presented_token-cases (value ∷ values) c = of_bearer (cut_prefix (codes "Bearer ") value)
    where
      of_parsed :
          (p : Parsed)
          → ((t : Token) × (parsed_token sha256 p c ≡ ok t))
            ⊎ (parsed_token sha256 p c ≡ err unauthenticated)
      of_parsed (refused e) = inr refl
      of_parsed (parsed secret fingerprint) =
          or_unknown-cases (token_by_sha (sha256 secret) c.by_name)

      of_bearer :
          (o : Option Runes)
          → ((t : Token) × (bearer sha256 o c ≡ ok t)) ⊎ (bearer sha256 o c ≡ err unauthenticated)
      of_bearer none = inr refl
      of_bearer (some token) = of_parsed (parse token)

  -- A header that is refused presents no secret of a token.
  refused-IsUnknown :
      (header : List Runes) (c : Catalogue Token)
      → presented_token sha256 header c ≡ err unauthenticated
      → IsUnknown sha256 header c
  unfolding presented_token bearer parsed_token or_unknown
  refused-IsUnknown header c h secret (value, rest, token, fingerprint, q, cuts, reads) n t l same =
      elim (token_by_sha-cases (sha256 secret) c.by_name) [
        | inl (_, no_) ↦ no_ n t (lookup-In n c.by_name l) same
        | inr (k, u, g, _, _) ↦
            let answers : presented_token sha256 (value ∷ rest) c ≡ ok u =
              rw (cuts, reads, g) refl in
            ok_err (sym answers ∙ ap (λ x. presented_token sha256 x c) (sym q) ∙ h)
      ]
    where
      ok_err : {u : Token} → ok u ≡ err unauthenticated → ⊥
      ok_err e = cc

  -- A call over TCP changes nothing and is unauthenticated, where its header presents no secret of a
  -- token; or its header presents the secret of a token, whose use is recorded: and then the call is
  -- denied, where the method is open to no token or needs a scope that the token does not allow, or
  -- the method's handler runs for the token, where it needs no scope or one that the token allows.
  pub serve-Refuses :
      (d : Daemon) (header : List Runes) (request : Request) (m : Moment) (c : Catalogue Token)
      → IsSound c
      → (IsUnknown sha256 header c × (serve sha256 d header request m c ≡ (c, err unauthenticated)))
        ⊎ ((t : Token) × (secret : Runes) × (n : String) × Presents header secret
            × (lookup n c.by_name ≡ some t)
            × (t.secret_sha256 ≡ sha256 secret)
            × ((MayNotCall t (method_of request)
                  × (serve sha256 d header request m c
                      ≡ (record_use_of t m.now m.use_disk c, err permission_denied)))
                ⊎ (MayCall t (method_of request)
                    × (serve sha256 d header request m c
                        ≡ handle sha256 d
                            (some t)
                            m
                            request
                            (record_use_of t m.now m.use_disk c)))))
  unfolding serve serve_token after_check
  serve-Refuses d header request m c s = elim (presented_token-cases header c) [
    | inr e ↦ inl (refused-IsUnknown header c e, rw e refl)
    | inl (t, e) ↦
        let (secret, n, p, l, same) = presented_token-Presents sha256 header c s e in
        inr (
          t,
          secret,
          n,
          p,
          l,
          same,
          elim (authorize-cases t (method_of request)) [
            | inr (a, may_not) ↦ inl (may_not, rw (e, a) refl)
            | inl (a, may) ↦ inr (may, rw (e, a) refl)
          ],
        )
  ]
