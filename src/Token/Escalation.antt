-- ===== src/Token/Escalation.antt =====
-- No sequence of calls gives the holder of a token more than it had.
use dicer.Prelude.{
  String, ◌≡◌, ◌≢◌, refl, sym, ap, ◌∙◌, ◌⊎◌, inl, inr, true, none, some, List, [], ◌∷◌, ◌==◌,
  string_Eq, Bool-cases, Option-cases, subst, In,
}
use dicer.Text.{Runes, runes_Eq, runes_eq_iff}
use dicer.Maps.{lookup}
use dicer.Errors.{Result, ok, err}
use dicer.Token.{Token}
use dicer.Token.Scope.{allows, allows_all}
use dicer.Token.RoundTrip.{MayFollow}
use dicer.Token.Grants.{allows_all_trans}
use dicer.Token.Access.{authorize, allowed_scope, method_scopes, presented_token, record_use_of}
use dicer.Token.Handler.{Daemon, Moment, Request, method_of, after_check, serve_token, serve}
use dicer.Token.Contained.{learn, IsContained, IsRandom, Leaves, handle-Leaves}
use dicer.Token.Attack.{Presents, presented_token-Presents, AreAlike, record_use_of-AreAlike}
use dicer.Store.{Catalogue}
use dicer.Store.Sound.{IsSound, is_none}
use dicer.Store.Kinds.{token_Kind}

-- A call of a client: the values of its authorization header and what it asks for.
pub record ClientCall : Type 0 where
  pub header : List Runes
  pub request : Request
  pub moment : Moment

module _ (sha256 : Runes → Runes) (d : Daemon) where
  -- What the client knows and what tokens there are, after its calls.
  unfoldable pub attack :
      List ClientCall → List Runes → Catalogue Token → List Runes × Catalogue Token
  unfolding serve learn
  attack [] known c = (known, c)
  attack (call ∷ calls) known c =
      let out = serve sha256 d call.header call.request call.moment c in
      attack calls (learn out.1 known) out.0

  -- The client guesses no secret of a token, and the random numbers of its calls are new.
  abbrev pub GuessesNothing : List ClientCall → List Runes → Catalogue Token → Type 0
  GuessesNothing [] known c = Unit
  GuessesNothing (call ∷ calls) known c =
      ((secret : Runes)
        → Presents call.header secret
        → In secret known
          ⊎ ((n : String) (t : Token)
              → lookup n c.by_name ≡ some t
              → t.secret_sha256 ≢ sha256 secret))
      × IsRandom sha256 call.request call.moment c
      × GuessesNothing calls (learn (serve sha256 d call.header call.request call.moment c).1 known)
          (serve sha256 d call.header call.request call.moment c).0

module _ (sha256 : Runes → Runes) (limit : List Runes) (d : Daemon)
    (fits : MayFollow d.fingerprint) where
  alike-IsContained :
      (known : List Runes) (c e : Catalogue Token)
      → AreAlike sha256 e c
      → IsContained sha256 limit known c
      → IsContained sha256 limit known e
  alike-IsContained known c e a h = record {
    sound = a.sound;
    contains = λ s i n t l same.
        let (u, m, _, hash, scopes) = a.alike n t l in
        subst (λ x. allows_all limit x ≡ true) (sym scopes)
          (h.contains s i n u m (sym hash ∙ same));
  }

  alike-IsRandom :
      (request : Request) (m : Moment) (c e : Catalogue Token)
      → AreAlike sha256 e c
      → IsSound c
      → IsRandom sha256 request m c
      → IsRandom sha256 request m e
  alike-IsRandom request m c e a s r = record {
    unused = record {
      valid = r.unused.valid;
      no_token = λ n t l q.
          let (u, k, _, hash, _) = a.alike n t l in r.unused.no_token n u k (sym hash ∙ q);
    };
    some_id = r.some_id;
    free_name = elim (Option-cases (lookup m.fresh.id e.by_name)) [
      | inl f ↦ f
      | inr (t, f) ↦ let (u, k, _, _, _) = a.alike m.fresh.id t f in absurd (is_none r.free_name k)
    ];
    free_id = elim (Option-cases (lookup m.fresh.id e.names_by_id)) [
      | inl f ↦ f
      | inr (n, f) ↦
          let (t, l, q) = a.sound.leads m.fresh.id f in
          let (u, k, i, _, _) = a.alike n t l in
          absurd (is_none r.free_id (ap (λ x. lookup x c.names_by_id) (sym q ∙ i) ∙ s.indexed n k))
    ];
    not_asked = r.not_asked;
  }

  serve-Leaves :
      (header : List Runes) (request : Request) (m : Moment) (known : List Runes)
      (c : Catalogue Token)
      → IsContained sha256 limit known c
      → ((secret : Runes)
          → Presents header secret
          → In secret known
            ⊎ ((n : String) (t : Token)
                → lookup n c.by_name ≡ some t
                → t.secret_sha256 ≢ sha256 secret))
      → IsRandom sha256 request m c
      → Leaves sha256 limit known (serve sha256 d header request m c)
  unfolding serve serve_token after_check learn
  serve-Leaves header request m known c h honest r = go (presented_token sha256 header c) refl
    where
      own : (t : Token) → presented_token sha256 header c ≡ ok t → allows_all limit t.scopes ≡ true
      own t q =
          let (secret, n, p, l, same) = presented_token-Presents sha256 header c h.sound q in
          elim (honest secret p) [
            | inl i ↦ h.contains secret i n t l same
            | inr no_ ↦ absurd (no_ n t l same)
          ]

      go :
          (o : Result Token)
          → presented_token sha256 header c ≡ o
          → Leaves sha256 limit known (serve_token sha256 d o request m c)
      go (err e) q = h
      go (ok t) q =
          let used = record_use_of t m.now m.use_disk c in
          let alike = record_use_of-AreAlike sha256 t m.now m.use_disk c h.sound in
          let h' = alike-IsContained known c used alike h in
          elim (Option-cases (authorize (some t) (method_of request))) [
            | inr (e, f) ↦ rw f h'
            | inl f ↦ rw f (
                handle-Leaves sha256 limit d fits known used h' t (own t q) m request
                  (alike-IsRandom request m c used alike h.sound r))
          ]

  attack-IsContained :
      (calls : List ClientCall) (known : List Runes) (c : Catalogue Token)
      → IsContained sha256 limit known c
      → GuessesNothing sha256 d calls known c
      → IsContained sha256 limit (attack sha256 d calls known c).0 (attack sha256 d calls known c).1
  unfolding attack
  attack-IsContained [] known c h g = h
  attack-IsContained (call ∷ calls) known c h (honest, r, rest) =
      attack-IsContained calls _ _
        (serve-Leaves call.header call.request call.moment known c h honest r) rest

  -- Whatever calls a client makes with tokens that it knows or is issued on the way, a method that is
  -- authorized afterwards for a token that it knows has a scope that the limit allows, or needs none;
  -- as long as the tokens known at first were within the limit, no call presents a secret of
  -- another token, the daemon's fingerprint is valid or empty, and the secrets and IDs made at random
  -- are in no use.
  pub no_escalation :
      (calls : List ClientCall) (known : List Runes) (c : Catalogue Token)
      → IsContained sha256 limit known c
      → GuessesNothing sha256 d calls known c
      → (header : List Runes) (t : Token) (method scope : Runes)
      → ((secret : Runes) → Presents header secret → In secret (attack sha256 d calls known c).0)
      → presented_token sha256 header (attack sha256 d calls known c).1 ≡ ok t
      → lookup method method_scopes ≡ some scope
      → authorize (some t) method ≡ none
      → (scope ≡ []) ⊎ (allows limit scope ≡ true)
  unfolding authorize allowed_scope
  no_escalation calls known c h g header t method scope knows q l a =
      let after = attack-IsContained calls known c h g in
      let (secret, n, p, found, same) =
        presented_token-Presents sha256 header (attack sha256 d calls known c).1 after.sound q in
      let own = after.contains secret (knows secret p) n t found same in
      elim (Bool-cases (scope == [])) [
        | inl e ↦ inl ((runes_eq_iff scope []).0 e)
        | inr needs ↦ elim (Bool-cases (allows t.scopes scope)) [
          | inl y ↦ inr (allows_all_trans limit t.scopes scope own y)
          | inr n' ↦ cc (rw (l, needs, n') at a)
        ]
      ]
