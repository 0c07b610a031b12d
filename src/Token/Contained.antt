-- ===== src/Token/Contained.antt =====
-- The tokens whose secrets are known stay within given scopes, over each call about tokens.
use dicer.Prelude.{
  String, ◌≡◌, ◌≢◌, refl, sym, ap, ◌∙◌, inl, inr, true, none, some, List, ◌∷◌, string_Eq,
  Bool-cases, subst, In,
}
use dicer.Text.{Runes, runes_Eq}
use dicer.Maps.{lookup}
use dicer.Errors.{Error, Result, ok, err, permission_denied, invalid_state}
use dicer.Token.{Token}
use dicer.Token.Scope.{allows_all}
use dicer.Token.Value.{format, Parsed, parsed, refused, parse}
use dicer.Token.RoundTrip.{MayFollow, parse-format}
use dicer.Token.Grants.{allows_all_all}
use dicer.Token.Manager.{Issued}
use dicer.Token.Handler.{
  Answer, issued, listed, nothing, Daemon, Moment, Request, create_request, rotate_request,
  delete_request, get_request, list_request, other_method, check_caller_allows, check_serves_tcp,
  scopes_or_all, to_value, after_check, handle_create, rotate_checked, delete_checked, deleted,
  handle, got,
}
use dicer.Token.Issues.{IsUnused, Issues, create_token-Issues, rotate_token-Issues, found_at}
use dicer.Store.{Catalogue}
use dicer.Store.Definitions.{find, delete}
use dicer.Store.Sound.{IsSound}
use dicer.Store.Calls.{find_id}
use dicer.Store.Kept.{with_definition, delete-IsSound}
use dicer.Store.Found.{delete-From, with-From}
use dicer.Store.Kinds.{token_Kind}

-- What a caller knows after an answer: the secret in the value of a token, as its client reads it.
unfoldable pub read_secret : Parsed → List Runes → List Runes
read_secret (parsed secret fingerprint) known = secret ∷ known
read_secret (refused e) known = known

unfoldable pub learn : Result Answer → List Runes → List Runes
unfolding read_secret parse
learn (ok (issued t value)) known = read_secret (parse value) known
learn (ok (listed tokens)) known = known
learn (ok nothing) known = known
learn (err e) known = known

module _ (sha256 : Runes → Runes) where
  -- What is asked of the random numbers of a call: the new secret is a valid one that no token has,
  -- and the new ID is in no use.
  pub record IsRandom (request : Request) (m : Moment) (c : Catalogue Token) : Type 0 where
    pub unused : IsUnused sha256 c m.fresh.secret
    pub some_id : m.fresh.id ≢ ""
    pub free_name : lookup m.fresh.id c.by_name ≡ none
    pub free_id : lookup m.fresh.id c.names_by_id ≡ none
    pub not_asked :
        (name : String) (secret : Runes) (scopes : List Runes)
        → request ≡ create_request name secret scopes
        → m.fresh.id ≢ name

module _ (sha256 : Runes → Runes) (limit : List Runes) where
  -- Every token with a secret that is known allows only what the limit allows.
  abbrev pub Contains : List Runes → Catalogue Token → Type 0
  Contains known c =
      (secret : Runes)
      → In secret known
      → (n : String) (t : Token) → lookup n c.by_name ≡ some t
      → t.secret_sha256 ≡ sha256 secret
      → allows_all limit t.scopes ≡ true

  -- The tokens are sound, and those known are contained.
  pub record IsContained (known : List Runes) (c : Catalogue Token) : Type 0 where
    pub sound : IsSound c
    pub contains : Contains known c

  abbrev pub Leaves : List Runes → Catalogue Token × Result Answer → Type 0
  Leaves known out = IsContained (learn out.1 known) out.0

  module _ (d : Daemon) (fits : MayFollow d.fingerprint) (known : List Runes) (c : Catalogue Token)
      (h : IsContained known c) where
    unchanged : (e : Error) → Leaves known (c, err e)
    unfolding learn
    unchanged e = h

    issued-Leaves :
        (scopes : List Runes) (out : Catalogue Token × Result Issued)
        → Issues sha256 c scopes out
        → allows_all limit scopes ≡ true
        → Leaves known (to_value d out)
    unfolding to_value learn read_secret
    issued-Leaves scopes out (inl (e, q)) a =
        subst (λ o. Leaves known (to_value d o)) (sym q) (unchanged e)
    issued-Leaves scopes out (inr (t, secret, q, u, hash, e, sound)) a =
        subst (λ o. Leaves known (to_value d o)) (sym q)
          (subst (λ l. IsContained l (with_definition t c)) (sym learned) after)
      where
        learned : learn (ok (issued t (format secret d.fingerprint))) known ≡ secret ∷ known
        learned = ap (λ p. read_secret p known) (parse-format secret u.valid d.fingerprint fits)

        after : IsContained (secret ∷ known) (with_definition t c)
        after = record {
          sound = sound;
          contains = λ s i n w l same. elim (with-From none t c refl n w l) [
            | inr (eq, _) ↦
                subst (λ x. allows_all limit x ≡ true) (sym (ap (λ (x : Token). x.scopes) eq ∙ e)) a
            | inl old ↦ elim i [
              | inl is ↦ absurd (u.no_token n w old (same ∙ ap sha256 is))
              | inr known_ ↦ h.contains s known_ n w old same
            ]
          ];
        }

    -- The caller's own token is contained.
    module _ (caller : Token) (own : allows_all limit caller.scopes ≡ true) (m : Moment) where
      checked :
          (scopes : List Runes) (out : Catalogue Token × Result Answer)
          → (allows_all limit scopes ≡ true → Leaves known out)
          → Leaves known (after_check (check_caller_allows (some caller) scopes) c out)
      unfolding after_check check_caller_allows
      checked scopes out k = elim (Bool-cases (allows_all caller.scopes scopes)) [
        | inl y ↦ rw y (k (allows_all_all limit caller.scopes scopes own y))
        | inr n ↦ rw n (unchanged permission_denied)
      ]

      served :
          (out : Catalogue Token × Result Answer)
          → Leaves known out
          → Leaves known (after_check (check_serves_tcp d) c out)
      unfolding after_check check_serves_tcp
      served out k = elim (Bool-cases d.serves_tcp) [
        | inl y ↦ rw y k
        | inr n ↦ rw n (unchanged invalid_state)
      ]

      less : (k : String) → IsContained known (delete (λ v. none) k m.disk c).0
      less k = record {
        sound = delete-IsSound (λ v. none) k m.disk c h.sound;
        contains =
            λ s i n w l. h.contains s i n w (delete-From (λ v. none) k m.disk c h.sound n w l);
      }

      fewer :
          (k : String) (out : Catalogue Token × Result (Unit {0}))
          → out ≡ delete (λ v. none) k m.disk c
          → Leaves known (deleted sha256 d (some caller) m out)
      unfolding deleted learn
      fewer k (c', ok u) q =
          subst (IsContained known) (ap (λ (o : Catalogue Token × Result (Unit {0})). o.0) (sym q))
            (less k)
      fewer k (c', err e) q =
          subst (IsContained known) (ap (λ (o : Catalogue Token × Result (Unit {0})). o.0) (sym q))
            (less k)

      pub handle-Leaves :
          (request : Request)
          → IsRandom sha256 request m c
          → Leaves known (handle sha256 d (some caller) m request c)
      unfolding handle handle_create rotate_checked delete_checked got learn
      handle-Leaves (create_request name secret scopes) r = served _ (
          checked (scopes_or_all scopes) _ (λ a.
            issued-Leaves (scopes_or_all scopes) _
              (create_token-Issues sha256 c name secret (scopes_or_all scopes) m.fresh m.disk
                h.sound r.unused
                (record {
                  some_id = r.some_id;
                  not_name = r.not_asked name secret scopes refl;
                  free_name = r.free_name;
                  free_id = r.free_id;
                }))
              a))
      handle-Leaves (rotate_request name secret) r = served _ (found_one (find name c) refl)
        where
          found_one :
              (o : Result Token)
              → find name c ≡ o
              → Leaves known (rotate_checked sha256 d (some caller) m secret o c)
          found_one (err e) q = unchanged e
          found_one (ok t) q = checked t.scopes _ (λ a.
              issued-Leaves t.scopes _
                (rotate_token-Issues sha256 c t.id secret m.fresh m.disk t h.sound r.unused
                  (find_id t.name c h.sound (found_at sha256 c name t h.sound q)))
                a)
      handle-Leaves (delete_request name) r = delete_one (find name c)
        where
          delete_one :
              (o : Result Token) → Leaves known (delete_checked sha256 d (some caller) m o c)
          delete_one (err e) = unchanged e
          delete_one (ok t) = checked t.scopes _ (λ a. fewer t.id _ refl)
      handle-Leaves (get_request name) r = get_one (find name c)
        where
          get_one : (o : Result Token) → Leaves known (got sha256 d (some caller) m o c)
          get_one (err e) = h
          get_one (ok t) = h
      handle-Leaves list_request r = h
      handle-Leaves (other_method method) r = h
