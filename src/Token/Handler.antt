-- ===== src/Token/Handler.antt =====
-- internal/grpcserver/token_handler.go: the calls about tokens, and a call from its header on. The
-- caller is the token that the call came with, if it came over TCP.
use dicer.Prelude.{ℕ, Bool, not, Option, none, some, List, [], ◌∷◌, if◌then◌else◌, String}
use dicer.Text.{Runes, codes}
use dicer.Errors.{Error, Result, ok, err, invalid_state, permission_denied}
use dicer.Token.{Token}
use dicer.Token.Scope.{scope_all, allows_all}
use dicer.Token.Value.{format}
use dicer.Token.Access.{authorize, presented_token, record_use_of}
use dicer.Token.Manager.{Fresh, Issued, create_token, rotate_token}
use dicer.Store.{Catalogue}
use dicer.Store.Definitions.{Disk, find, delete}
use dicer.Store.Kinds.{token_Kind}

-- `other_method` is any method that is not about tokens.
pub data Request : Type 0 where
  create_request : (name : String) (secret : Runes) (scopes : List Runes) → Request
  rotate_request : (name : String) (secret : Runes) → Request
  delete_request get_request : (name : String) → Request
  list_request : Request
  other_method : Runes → Request

unfoldable pub method_of : Request → Runes
method_of (create_request name secret scopes) = codes "CreateToken"
method_of (rotate_request name secret) = codes "RotateToken"
method_of (delete_request name) = codes "DeleteToken"
method_of (get_request name) = codes "GetToken"
method_of list_request = codes "ListTokens"
method_of (other_method method) = method

-- `value` is the text that a token is presented as.
pub data Answer : Type 0 where
  issued : (token : Token) (value : Runes) → Answer
  listed : List Token → Answer
  nothing : Answer

-- How the daemon is set up, and what the time, the random numbers and the disk are in a call.
pub record Daemon : Type 0 where
  pub serves_tcp : Bool
  pub fingerprint : Runes

pub record Moment : Type 0 where
  pub now : ℕ
  pub fresh : Fresh
  pub use_disk : Disk
  pub disk : Disk

-- `checkCallerAllows`.
unfoldable pub check_caller_allows : Option Token → List Runes → Option Error
unfolding allows_all
check_caller_allows none scopes = none
check_caller_allows (some caller) scopes =
    if not (allows_all caller.scopes scopes) then some permission_denied else none

-- `checkServesTCP`.
unfoldable pub check_serves_tcp : Daemon → Option Error
check_serves_tcp d = if d.serves_tcp then none else some invalid_state

unfoldable pub scopes_or_all : List Runes → List Runes
scopes_or_all [] = scope_all ∷ []
scopes_or_all (s ∷ scopes) = s ∷ scopes

abbrev pub Out : Type 0
Out = Catalogue Token × Result Answer

unfoldable pub to_value : Daemon → Catalogue Token × Result Issued → Out
unfolding format
to_value d (c, ok i) = (c, ok (issued i.token (format i.secret d.fingerprint)))
to_value d (c, err e) = (c, err e)

unfoldable pub after_check : Option Error → Catalogue Token → Out → Out
after_check (some e) c out = (c, err e)
after_check none c out = out

listed_tokens : List (String × Token) → List Token
listed_tokens [] = []
listed_tokens ((n, t) ∷ tokens) = t ∷ listed_tokens tokens

module _ (sha256 : Runes → Runes) (d : Daemon) (caller : Option Token) (m : Moment) where
  -- `CreateToken`.
  unfoldable pub handle_create : String → Runes → List Runes → Catalogue Token → Out
  unfolding check_serves_tcp check_caller_allows scopes_or_all after_check to_value create_token
  handle_create name secret scopes c = after_check (check_serves_tcp d) c (
      after_check (check_caller_allows caller (scopes_or_all scopes)) c
        (to_value d (create_token sha256 name secret (scopes_or_all scopes) m.fresh m.disk c)))

  -- `RotateToken`, after its lookup.
  unfoldable pub rotate_checked : Runes → Result Token → Catalogue Token → Out
  unfolding check_caller_allows after_check to_value rotate_token
  rotate_checked secret (err e) c = (c, err e)
  rotate_checked secret (ok t) c =
      after_check (check_caller_allows caller t.scopes) c
        (to_value d (rotate_token sha256 t.id secret m.fresh m.disk c))

  unfoldable pub deleted : Catalogue Token × Result (Unit {0}) → Out
  deleted (c, ok u) = (c, ok nothing)
  deleted (c, err e) = (c, err e)

  -- `DeleteToken`, after its lookup.
  unfoldable pub delete_checked : Result Token → Catalogue Token → Out
  unfolding check_caller_allows after_check deleted
  delete_checked (err e) c = (c, err e)
  delete_checked (ok t) c =
      after_check (check_caller_allows caller t.scopes) c
        (deleted (delete (λ v. none) t.id m.disk c))

  unfoldable pub got : Result Token → Catalogue Token → Out
  got (err e) c = (c, err e)
  got (ok t) c = (c, ok (listed (t ∷ [])))

  -- `tokenHandler`, of every call.
  unfoldable pub handle : Request → Catalogue Token → Out
  unfolding handle_create rotate_checked delete_checked got listed_tokens check_serves_tcp
      after_check
  handle (create_request name secret scopes) c = handle_create name secret scopes c
  handle (rotate_request name secret) c =
      after_check (check_serves_tcp d) c (rotate_checked secret (find name c) c)
  handle (delete_request name) c = delete_checked (find name c) c
  handle (get_request name) c = got (find name c) c
  handle list_request c = (c, ok (listed (listed_tokens c.by_name)))
  handle (other_method method) c = (c, ok nothing)

module _ (sha256 : Runes → Runes) (d : Daemon) where
  -- A call over TCP whose token is known: its use is recorded, its method is authorized and the
  -- handler runs.
  unfoldable pub serve_token : Result Token → Request → Moment → Catalogue Token → Out
  unfolding record_use_of authorize handle after_check
  serve_token (err e) request m c = (c, err e)
  serve_token (ok t) request m c =
      let used = record_use_of t m.now m.use_disk c in
      after_check (authorize (some t) (method_of request)) used
        (handle sha256 d (some t) m request used)

  -- The interceptors and the handler of a call over TCP.
  unfoldable pub serve : List Runes → Request → Moment → Catalogue Token → Out
  unfolding serve_token presented_token
  serve header request m c = serve_token (presented_token sha256 header c) request m c
