-- ===== src/Token/Attack.antt =====
-- A client that holds tokens, over any sequence of its calls: what it is issued stays within the
-- scopes that it had.
use dicer.Prelude.{
  ℕ, ◌+◌, ◌-◌, ◌%◌, String, ◌≡◌, refl, sym, ap, ◌∙◌, inl, inr, none, some, List, [], ◌∷◌, string_Eq,
  Bool-cases, Option-cases, subst, ltb,
}
use dicer.Text.{Runes, runes_Eq, codes, cut_prefix}
use dicer.Maps.{lookup}
use dicer.Maps.Exact.{In-lookup}
use dicer.Errors.{Result, ok, err, not_found}
use dicer.Token.{Token}
use dicer.Token.Value.{Parsed, parsed, refused, parse}
use dicer.Token.Access.{
  presented_token, bearer, parsed_token, or_unknown, record_use_of, last_use_resolution,
}
use dicer.Token.Issues.{token_by_sha-cases}
use dicer.Store.{Catalogue}
use dicer.Store.Definitions.{Disk, done, failed, half, find, write_definition}
use dicer.Store.Sound.{IsSound}
use dicer.Store.Calls.{find-cases}
use dicer.Store.Found.{with-From}
use dicer.Store.Kinds.{token_Kind, record_token_use, record_use}
use dicer.Store.Runs.{use_token-IsSound}

-- The secret that a header presents.
abbrev pub Presents : List Runes → Runes → Type 0
Presents header secret =
    (value : Runes) × (rest : List Runes) × (token : Runes) × (fingerprint : Runes) × (header
      ≡ value ∷ rest)
    × (cut_prefix (codes "Bearer ") value ≡ some token)
    × (parse token ≡ parsed secret fingerprint)

module _ (sha256 : Runes → Runes) where
  -- A header that is accepted presents the secret of a token.
  pub presented_token-Presents :
      (header : List Runes) (c : Catalogue Token) {t : Token}
      → IsSound c
      → presented_token sha256 header c ≡ ok t
      → (secret : Runes) × (n : String) × Presents header secret
        × (lookup n c.by_name ≡ some t)
        × (t.secret_sha256 ≡ sha256 secret)
  unfolding presented_token bearer parsed_token or_unknown
  presented_token-Presents [] c s h = cc
  presented_token-Presents (value ∷ rest) c {t} s h =
      elim (Option-cases (cut_prefix (codes "Bearer ") value)) [
        | inl e ↦ cc (rw e at h)
        | inr (token, e) ↦ read (parse token) refl e (rw e at h)
      ]
    where
      read :
          {token : Runes} (p : Parsed)
          → parse token ≡ p
          → cut_prefix (codes "Bearer ") value ≡ some token
          → parsed_token sha256 (parse token) c ≡ ok t
          → (secret : Runes) × (n : String) × Presents (value ∷ rest) secret
            × (lookup n c.by_name ≡ some t)
            × (t.secret_sha256 ≡ sha256 secret)
      read (refused _) q e k = cc (rw q at k)
      read {token} (parsed secret fingerprint) q e k =
          elim (token_by_sha-cases (sha256 secret) c.by_name) [
            | inl (g, _) ↦ cc (rw (q, g) at k)
            | inr (n, u, g, i, same) ↦
                let eq : u ≡ t = cc (rw (q, g) at k) in
                (
                  secret,
                  n,
                  (value, rest, token, fingerprint, refl, e, q),
                  In-lookup n u c.by_name s.exact i ∙ ap some eq,
                  ap (λ (x : Token). x.secret_sha256) (sym eq) ∙ same,
                )
          ]

  -- What recording a use changes: no token's name, ID, secret or scopes.
  pub record AreAlike (d c : Catalogue Token) : Type 0 where
    pub sound : IsSound d
    pub alike :
        (n : String) (t : Token)
        → lookup n d.by_name ≡ some t
        → (u : Token) × (lookup n c.by_name ≡ some u)
          × (t.id ≡ u.id)
          × (t.secret_sha256 ≡ u.secret_sha256)
          × (t.scopes ≡ u.scopes)

  AreAlike-self : (c : Catalogue Token) → IsSound c → AreAlike c c
  AreAlike-self c s = record { sound = s; alike = λ n u l. (u, l, refl, refl, refl) }

  written-AreAlike :
      (v : Token) (at : ℕ) (disk : Disk) (c : Catalogue Token)
      → IsSound c
      → lookup v.name c.by_name ≡ some v
      → IsSound (write_definition (record v { last_used_at = at }) disk c).0
      → AreAlike (write_definition (record v { last_used_at = at }) disk c).0 c
  unfolding write_definition
  written-AreAlike v at failed c s l after = AreAlike-self c s
  written-AreAlike v at half c s l after = AreAlike-self c s
  written-AreAlike v at done c s l after = record {
    sound = after;
    alike = λ n w m. elim (with-From none (record v { last_used_at = at }) c refl n w m) [
      | inl old ↦ (w, old, refl, refl, refl)
      | inr (e, _) ↦
          let name : v.name ≡ n = ap (λ (x : Token). x.name) (sym e) ∙ after.keyed n m in
          (
            v,
            subst (λ k. lookup k c.by_name ≡ some v) name l,
            ap (λ (x : Token). x.id) e,
            ap (λ (x : Token). x.secret_sha256) e,
            ap (λ (x : Token). x.scopes) e,
          )
    ];
  }

  record_token_use-AreAlike :
      (k : String) (at : ℕ) (disk : Disk) (c : Catalogue Token)
      → IsSound c
      → AreAlike (record_token_use k at disk c).0 c
  unfolding record_token_use record_use
  record_token_use-AreAlike k at disk c s = elim (find-cases k c s) [
    | inl (f, _, _) ↦
        subst (λ (o : Catalogue Token × Result (Unit {0})). AreAlike o.0 c) (sym (failing f))
          (AreAlike-self c s)
    | inr (v, f, l, _) ↦
        subst (λ (o : Catalogue Token × Result (Unit {0})). AreAlike o.0 c) (sym (writing v f))
          (written-AreAlike v at disk c s l (
            subst (λ (o : Catalogue Token × Result (Unit {0})). IsSound o.0) (writing v f)
              (use_token-IsSound k at disk c s)))
  ]
    where
      failing : find k c ≡ err not_found → record_token_use k at disk c ≡ (c, err not_found)
      failing f = rw f refl

      writing :
          (v : Token)
          → find k c ≡ ok v
          → record_token_use k at disk c ≡ write_definition (record v { last_used_at = at }) disk c
      writing v f = rw f refl

  pub record_use_of-AreAlike :
      (t : Token) (now : ℕ) (disk : Disk) (c : Catalogue Token)
      → IsSound c
      → AreAlike (record_use_of t now disk c) c
  unfolding record_use_of
  record_use_of-AreAlike t now disk c s =
      elim (Bool-cases (ltb now (t.last_used_at + last_use_resolution))) [
        | inl soon ↦ rw soon (AreAlike-self c s)
        | inr later ↦
            rw later (record_token_use-AreAlike t.id (now - now % last_use_resolution) disk c s)
      ]
