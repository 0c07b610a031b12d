-- ===== src/Token/Manager.antt =====
-- internal/token/manager.go: creating and rotating tokens.
use dicer.Prelude.{Bool, false, not, none, List, [], ◌∷◌, if◌then◌else◌, String, string_Eq}
use dicer.Text.{Runes, runes_Eq, codes}
use dicer.Naming.{validate_name}
use dicer.Errors.{Result, ok, err, not_found, exists, invalid_argument}
use dicer.Token.{Token}
use dicer.Token.Scope.{validate_scopes}
use dicer.Token.Secret.{validate_secret, is_sha256_hex}
use dicer.Token.Access.{token_by_sha}
use dicer.Store.{Catalogue}
use dicer.Store.Definitions.{Disk, find, create, update}
use dicer.Store.Kinds.{token_Kind}

-- What is random in a call: the secret that `NewSecret` makes, and the ID.
pub record Fresh : Type 0 where
  pub secret : Runes
  pub id : String

-- A token that is issued, with its secret.
pub record Issued : Type 0 where
  pub token : Token
  pub secret : Runes

unfoldable pub unused : Runes → Result Token → Result Runes
unused given (ok t) = err exists
unused given (err not_found) = ok given
unused given (err e) = err e

-- `Token.Validate`.
unfoldable pub validate_token : Token → Bool
unfolding validate_scopes is_sha256_hex
validate_token t =
    if not (validate_name (codes t.name))
    then false
    else if not (is_sha256_hex t.secret_sha256)
    then false
    else validate_scopes t.scopes

-- The answer of a call of the store, which is the token and its secret if there is no error.
unfoldable pub answered :
    Issued → Catalogue Token × Result (Unit {0}) → Catalogue Token × Result Issued
answered issued (c, ok u) = (c, ok issued)
answered issued (c, err e) = (c, err e)

module _ (sha256 : Runes → Runes) where
  -- `newSecret`.
  unfoldable pub new_secret : Runes → Fresh → Catalogue Token → Result Runes
  unfolding unused token_by_sha validate_secret
  new_secret [] fresh c = ok fresh.secret
  new_secret (r ∷ s) fresh c =
      if not (validate_secret (r ∷ s))
      then err invalid_argument
      else unused (r ∷ s) (token_by_sha (sha256 (r ∷ s)) c.by_name)

  unfoldable pub create_with :
      String
      → List Runes
      → Fresh
      → Disk
      → Result Runes
      → Catalogue Token
      → Catalogue Token × Result Issued
  unfolding validate_token answered
  create_with name scopes fresh disk (err e) c = (c, err e)
  create_with name scopes fresh disk (ok secret) c =
      let t : Token = record {
        id = fresh.id;
        name = name;
        secret_sha256 = sha256 secret;
        scopes = scopes;
        last_used_at = 0;
      } in
      if not (validate_token t)
      then (c, err invalid_argument)
      else answered (record { token = t; secret = secret }) (create none t disk c)

  -- `Manager.Create`.
  unfoldable pub create_token :
      String → Runes → List Runes → Fresh → Disk → Catalogue Token → Catalogue Token × Result Issued
  unfolding new_secret create_with
  create_token name given scopes fresh disk c =
      create_with name scopes fresh disk (new_secret given fresh c) c

  unfoldable pub rotate_with :
      Token → Disk → Result Runes → Catalogue Token → Catalogue Token × Result Issued
  unfolding answered
  rotate_with t disk (err e) c = (c, err e)
  rotate_with t disk (ok secret) c =
      let t' : Token = record t { secret_sha256 = sha256 secret } in
      answered (record { token = t'; secret = secret }) (update none t' disk c)

  unfoldable pub rotate_found :
      Runes → Fresh → Disk → Result Token → Catalogue Token → Catalogue Token × Result Issued
  unfolding new_secret rotate_with
  rotate_found given fresh disk (err e) c = (c, err e)
  rotate_found given fresh disk (ok t) c = rotate_with t disk (new_secret given fresh c) c

  -- `Manager.Rotate`.
  unfoldable pub rotate_token :
      String → Runes → Fresh → Disk → Catalogue Token → Catalogue Token × Result Issued
  unfolding rotate_found
  rotate_token name_or_id given fresh disk c = rotate_found given fresh disk (find name_or_id c) c
