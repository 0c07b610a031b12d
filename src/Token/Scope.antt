-- ===== src/Token/Scope.antt =====
-- internal/token/token.go: scopes, and what a token's scopes allow.
use dicer.Prelude.{
  Bool, true, false, ◌&&◌, ◌||◌, not, Option, none, some, List, [], ◌∷◌, ◌++◌, ◌==◌, nat_Eq,
  if◌then◌else◌, ltb, length,
}
use dicer.Text.{Runes, runes_Eq, codes, cut_suffix}

-- `slices.Contains`.
unfoldable pub contains : List Runes → Runes → Bool
contains [] s = false
contains (x ∷ xs) s = (x == s) || contains xs s

abbrev pub scope_all : Runes
scope_all = codes "*"

abbrev pub read_suffix : Runes
read_suffix = codes ":read"

abbrev pub write_suffix : Runes
write_suffix = codes ":write"

abbrev pub resource_scopes : List Runes
resource_scopes =
    codes "instances:read"
    ∷ codes "instances:write"
    ∷ codes "snapshots:read"
    ∷ codes "snapshots:write"
    ∷ codes "networks:read"
    ∷ codes "networks:write"
    ∷ codes "volumes:read"
    ∷ codes "volumes:write"
    ∷ codes "images:read"
    ∷ codes "images:write"
    ∷ codes "kernels:read"
    ∷ codes "kernels:write"
    ∷ codes "tokens:read"
    ∷ codes "tokens:write"
    ∷ codes "events:read"
    ∷ []

-- `Scope.Validate`.
unfoldable pub is_scope : Runes → Bool
unfolding contains
is_scope s = (s == scope_all) || contains resource_scopes s

unfoldable pub writes : List Runes → Option Runes → Bool
unfolding contains
writes scopes none = false
writes scopes (some resource) = contains scopes (resource ++ write_suffix)

-- `Token.Allows`.
unfoldable pub allows : List Runes → Runes → Bool
unfolding contains writes cut_suffix
allows scopes scope =
    if contains scopes scope_all || contains scopes scope
    then true
    else writes scopes (cut_suffix read_suffix scope)

-- `Token.AllowsAll`.
unfoldable pub allows_all : List Runes → List Runes → Bool
unfolding allows
allows_all held [] = true
allows_all held (s ∷ scopes) =
    let rest = allows_all held scopes in if not (allows held s) then false else rest

-- The loop of `Token.Validate` over the scopes, after those in `seen`.
scopes_valid : List Runes → List Runes → Bool
unfolding is_scope contains
scopes_valid seen [] = true
scopes_valid seen (s ∷ scopes) =
    let rest = scopes_valid (seen ++ s ∷ []) scopes in
    if not (is_scope s) then false else if contains seen s then false else rest

-- The part of `Token.Validate` about scopes.
unfoldable pub validate_scopes : List Runes → Bool
unfolding contains scopes_valid is_scope
validate_scopes [] = false
validate_scopes (s ∷ scopes) =
    if not (scopes_valid [] (s ∷ scopes))
    then false
    else not (ltb 1 (length (s ∷ scopes)) && contains (s ∷ scopes) scope_all)
