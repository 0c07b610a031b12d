-- ===== src/Token/Access.antt =====
-- internal/grpcserver/authentication.go and authorization.go: whose token a call presents, and which
-- methods it opens. `sha256` is the hex digest of a secret, which Go's standard library computes.
use dicer.Prelude.{
  ℕ, ◌+◌, ◌-◌, ◌%◌, not, ◌&&◌, Option, none, some, List, [], ◌∷◌, ◌==◌, if◌then◌else◌, String, ltb,
  string_Eq, nat_Eq,
}
use dicer.Text.{Runes, runes_Eq, codes, cut_prefix}
use dicer.Maps.{lookup}
use dicer.Errors.{Error, Result, ok, err, not_found, unauthenticated, permission_denied}
use dicer.Token.{Token}
use dicer.Token.Scope.{allows}
use dicer.Token.Value.{Parsed, parsed, refused, parse}
use dicer.Store.{Catalogue}
use dicer.Store.Definitions.{Disk}
use dicer.Store.Kinds.{token_Kind, record_token_use}

-- `methodScopes`: the scope of each method, nothing if any token may call it.
abbrev pub method_scopes : List (Runes × Runes)
method_scopes =
    (codes "CreateInstance", codes "instances:write")
    ∷ (codes "UpdateInstance", codes "instances:write")
    ∷ (codes "RenameInstance", codes "instances:write")
    ∷ (codes "StartInstance", codes "instances:write")
    ∷ (codes "StopInstance", codes "instances:write")
    ∷ (codes "PauseInstance", codes "instances:write")
    ∷ (codes "ResumeInstance", codes "instances:write")
    ∷ (codes "StandbyInstance", codes "instances:write")
    ∷ (codes "ForkInstance", codes "instances:write")
    ∷ (codes "ResizeInstance", codes "instances:write")
    ∷ (codes "DeleteInstance", codes "instances:write")
    ∷ (codes "ListInstances", codes "instances:read")
    ∷ (codes "GetInstance", codes "instances:read")
    ∷ (codes "WaitInstance", codes "instances:read")
    ∷ (codes "GetInstanceLogs", codes "instances:read")
    ∷ (codes "GetInstanceStats", codes "instances:read")
    ∷ (codes "ListInstanceProcesses", codes "instances:read")
    ∷ (codes "ExecInstance", codes "instances:write")
    ∷ (codes "CopyToInstance", codes "instances:write")
    ∷ (codes "CopyFromInstance", codes "instances:write")
    ∷ (codes "CreateSnapshot", codes "snapshots:write")
    ∷ (codes "ListSnapshots", codes "snapshots:read")
    ∷ (codes "GetSnapshot", codes "snapshots:read")
    ∷ (codes "DeleteSnapshot", codes "snapshots:write")
    ∷ (codes "RestoreSnapshot", codes "instances:write")
    ∷ (codes "ForkSnapshot", codes "instances:write")
    ∷ (codes "CreateNetwork", codes "networks:write")
    ∷ (codes "ListNetworks", codes "networks:read")
    ∷ (codes "GetNetwork", codes "networks:read")
    ∷ (codes "DeleteNetwork", codes "networks:write")
    ∷ (codes "ListNetworkAllocations", codes "networks:read")
    ∷ (codes "CreateVolume", codes "volumes:write")
    ∷ (codes "ListVolumes", codes "volumes:read")
    ∷ (codes "GetVolume", codes "volumes:read")
    ∷ (codes "DeleteVolume", codes "volumes:write")
    ∷ (codes "PullImage", codes "images:write")
    ∷ (codes "ListImages", codes "images:read")
    ∷ (codes "GetImage", codes "images:read")
    ∷ (codes "DeleteImage", codes "images:write")
    ∷ (codes "PruneImages", codes "images:write")
    ∷ (codes "ImportKernel", codes "kernels:write")
    ∷ (codes "ListKernels", codes "kernels:read")
    ∷ (codes "GetKernel", codes "kernels:read")
    ∷ (codes "DeleteKernel", codes "kernels:write")
    ∷ (codes "CreateToken", codes "tokens:write")
    ∷ (codes "ListTokens", codes "tokens:read")
    ∷ (codes "GetToken", codes "tokens:read")
    ∷ (codes "RotateToken", codes "tokens:write")
    ∷ (codes "DeleteToken", codes "tokens:write")
    ∷ (codes "GetHostInfo", codes "")
    ∷ (codes "CheckHost", codes "")
    ∷ (codes "GetResources", codes "instances:read")
    ∷ (codes "GetEvents", codes "events:read")
    ∷ []

unfoldable pub allowed_scope : Option Runes → Token → Option Error
unfolding allows
allowed_scope none t = some permission_denied
allowed_scope (some scope) t =
    if not (scope == []) && not (allows t.scopes scope) then some permission_denied else none

-- `authorize`, for the last part of the method's path, and the caller's token if the call came with
-- one.
unfoldable pub authorize : Option Token → Runes → Option Error
unfolding allowed_scope lookup
authorize none method = some permission_denied
authorize (some t) method = allowed_scope (lookup method method_scopes) t

-- The loop of `TokenBySecretSHA256`.
unfoldable pub token_by_sha : Runes → List (String × Token) → Result Token
token_by_sha sha [] = err not_found
token_by_sha sha ((n, t) ∷ tokens) =
    let rest = token_by_sha sha tokens in if t.secret_sha256 == sha then ok t else rest

unfoldable pub or_unknown : Result Token → Result Token
or_unknown (ok t) = ok t
or_unknown (err e) = err unauthenticated

module _ (sha256 : Runes → Runes) where
  unfoldable pub parsed_token : Parsed → Catalogue Token → Result Token
  unfolding token_by_sha or_unknown
  parsed_token (refused e) c = err unauthenticated
  parsed_token (parsed secret fingerprint) c = or_unknown (token_by_sha (sha256 secret) c.by_name)

  unfoldable pub bearer : Option Runes → Catalogue Token → Result Token
  unfolding parsed_token parse
  bearer none c = err unauthenticated
  bearer (some value) c = parsed_token (parse value) c

  -- `presentedToken`, of the values of the authorization header.
  unfoldable pub presented_token : List Runes → Catalogue Token → Result Token
  unfolding bearer cut_prefix
  presented_token [] c = err unauthenticated
  presented_token (value ∷ values) c = bearer (cut_prefix (codes "Bearer ") value) c

abbrev pub last_use_resolution : ℕ
last_use_resolution = 60000000000

-- `recordUse`: an error is only logged.
unfoldable pub record_use_of : Token → ℕ → Disk → Catalogue Token → Catalogue Token
unfolding record_token_use
record_use_of t now disk c =
    if ltb now (t.last_used_at + last_use_resolution)
    then c
    else (record_token_use t.id (now - now % last_use_resolution) disk c).0
