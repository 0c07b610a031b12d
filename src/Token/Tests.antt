-- ===== src/Token/Tests.antt =====
-- Runs of the calls about tokens, and of the theorems. The digest here is a secret twice, which is
-- in hex for the secrets used.
use dicer.Prelude.{
  String, ◌≡◌, refl, sym, ap, ◌∙◌, ◌⊎◌, inl, inr, true, false, none, some, List, [], ◌∷◌, ◌++◌,
  string_Eq, In, subst, nat_Eq,
}
use dicer.Text.{Runes, runes_Eq, codes, cut_prefix, trim_space}
use dicer.Maps.{lookup, assign, put, remove}
use dicer.Maps.Lookup.{ne_of_beq, lookup-nil}
use dicer.Maps.Exact.{lookup-In}
use dicer.Errors.{ok, err, permission_denied, unauthenticated}
use dicer.Token.{Token}
use dicer.Token.Scope.{allows, allows_all, validate_scopes}
use dicer.Token.Secret.{validate_secret, is_fingerprint}
use dicer.Token.Value.{format, parsed, refused, bad_secret, bad_fingerprint, no_prefix, parse}
use dicer.Token.RoundTrip.{parse-format, parse-Reads, MayFollow}
use dicer.Token.Grants.{allows_all_trans}
use dicer.Token.Access.{presented_token, authorize, record_use_of, method_scopes}
use dicer.Token.Handler.{Daemon, Moment, Request, create_request, issued, serve, method_of, handle}
use dicer.Token.Contained.{IsContained, IsRandom}
use dicer.Token.Attack.{Presents}
use dicer.Token.Escalation.{ClientCall, attack, no_escalation}
use dicer.Token.Refusals.{serve-Refuses, IsUnknown, MayCall, MayNotCall}
use dicer.Naming.{validate_name}
use dicer.Store.{Catalogue}
use dicer.Store.Definitions.{done, create, find, is_found, write_definition}
use dicer.Store.Sound.{IsSound}
use dicer.Store.Calls.{empty-IsSound}
use dicer.Store.Kept.{create-IsSound}
use dicer.Store.Kinds.{token_Kind}

abbrev secret : Runes
secret = codes "aaaabbbbccccddddaaaabbbbccccdddd"

abbrev child_secret : Runes
child_secret = codes "0000111122223333000011112222333f"

abbrev fingerprint : Runes
fingerprint = secret ++ secret

secret_valid : validate_secret secret ≡ true
unfolding validate_secret
secret_valid = refl

fingerprint_valid : is_fingerprint fingerprint ≡ true
unfolding is_fingerprint
fingerprint_valid = refl

upper_case_refused :
    is_fingerprint (codes "AAAABBBBCCCCDDDDaaaabbbbccccddddAAAABBBBCCCCDDDDaaaabbbbccccdddd")
    ≡ false
unfolding is_fingerprint
upper_case_refused = refl

spaces_read : parse (codes "  dicer_aaaabbbbccccddddaaaabbbbccccdddd_ ") ≡ parsed secret []
unfolding parse
spaces_read = refl

short_refused : parse (codes "dicer_abc") ≡ refused bad_secret
unfolding parse
short_refused = refl

no_prefix_refused : parse (codes "token_abc") ≡ refused no_prefix
unfolding parse
no_prefix_refused = refl

other_text_refused :
    parse (codes "dicer_aaaabbbbccccddddaaaabbbbccccdddd_x") ≡ refused bad_fingerprint
unfolding parse
other_text_refused = refl

write_reads : allows (codes "volumes:write" ∷ []) (codes "volumes:read") ≡ true
unfolding allows
write_reads = refl

read_writes_not : allows (codes "volumes:read" ∷ []) (codes "volumes:write") ≡ false
unfolding allows
read_writes_not = refl

all_alone : validate_scopes (codes "*" ∷ codes "volumes:read" ∷ []) ≡ false
unfolding validate_scopes
all_alone = refl

parse-format_example : parse (format secret fingerprint) ≡ parsed secret fingerprint
parse-format_example = parse-format secret secret_valid fingerprint (inr fingerprint_valid)

parse-Reads_example :
    (validate_secret secret ≡ true)
    × MayFollow []
    × ((trim_space (codes "  dicer_aaaabbbbccccddddaaaabbbbccccdddd_ ") ≡ format secret [])
        ⊎ (trim_space (codes "  dicer_aaaabbbbccccddddaaaabbbbccccdddd_ ")
            ≡ format secret [] ++ codes "_"))
parse-Reads_example =
    parse-Reads (codes "  dicer_aaaabbbbccccddddaaaabbbbccccdddd_ ") secret [] spaces_read

abbrev held : List Runes
held = codes "volumes:write" ∷ codes "tokens:write" ∷ []

held_reads : allows_all held (codes "volumes:read" ∷ []) ≡ true
unfolding allows_all
held_reads = refl

reads : allows (codes "volumes:read" ∷ []) (codes "volumes:read") ≡ true
unfolding allows
reads = refl

allows_all_trans_example : allows held (codes "volumes:read") ≡ true
allows_all_trans_example =
    allows_all_trans held (codes "volumes:read" ∷ []) (codes "volumes:read") held_reads reads

abbrev digest : Runes → Runes
digest s = s ++ s

abbrev holder : Token
holder = record {
  id = "t1";
  name = "ci";
  secret_sha256 = digest secret;
  scopes = held;
  last_used_at = 0;
}

abbrev tokens : Catalogue Token
tokens = record {
  by_name = ("ci", holder) ∷ [];
  names_by_id = ("t1", "ci") ∷ [];
  files = ("ci", some holder) ∷ [];
}

tokens_created :
    (create none holder done (record { by_name = []; names_by_id = []; files = [] })).0 ≡ tokens
unfolding create validate_name find is_found lookup assign put remove write_definition
tokens_created = refl

tokens_IsSound : IsSound tokens
tokens_IsSound = subst IsSound tokens_created (
    create-IsSound none holder done (record { by_name = []; names_by_id = []; files = [] })
      (empty-IsSound [])
      (record {
        some_id = ne_of_beq "t1" "" refl;
        not_name = ne_of_beq "t1" "ci" refl;
        free_name = lookup-nil {K = String} {V = Token} ⦃e = string_Eq⦄ "t1";
        free_id = lookup-nil {K = String} {V = String} ⦃e = string_Eq⦄ "t1";
      }))

abbrev daemon : Daemon
daemon = record { serves_tcp = true; fingerprint = fingerprint }

abbrev moment : Moment
moment = record {
  now = 90000000000;
  fresh = record { secret = child_secret; id = "t2" };
  use_disk = done;
  disk = done;
}

abbrev header : List Runes
header = codes "Bearer dicer_aaaabbbbccccddddaaaabbbbccccdddd" ∷ []

abbrev make_child : Request
make_child = create_request "child" [] (codes "volumes:read" ∷ [])

abbrev child : Token
child = record {
  id = "t2";
  name = "child";
  secret_sha256 = digest child_secret;
  scopes = codes "volumes:read" ∷ [];
  last_used_at = 0;
}

-- The use of the holder's token is recorded to the minute, and the child is issued.
abbrev used : Token
used = record holder { last_used_at = 60000000000 }

abbrev tokens_after : Catalogue Token
tokens_after = record {
  by_name = ("child", child) ∷ ("ci", used) ∷ [];
  names_by_id = ("t2", "child") ∷ ("t1", "ci") ∷ [];
  files = ("child", some child) ∷ ("ci", some used) ∷ [];
}

child_issued :
    serve digest daemon header make_child moment tokens
    ≡ (tokens_after, ok (issued child (format child_secret fingerprint)))
unfolding serve find is_found write_definition create validate_name lookup assign put remove
    method_of
child_issued = refl

-- A scope that the holder does not have is not given on.
too_much_denied : serve digest daemon header (create_request "child" [] []) moment tokens ≡ (
  record tokens { by_name = ("ci", used) ∷ []; files = ("ci", some used) ∷ [] },
  err permission_denied,
)
unfolding serve find is_found write_definition create validate_name lookup assign put remove
    method_of
too_much_denied = refl

unknown_denied : serve digest daemon [] make_child moment tokens ≡ (tokens, err unauthenticated)
unfolding serve
unknown_denied = refl

-- What a header with a token presents.
header-Presents :
    (value token given : Runes) (h : List Runes)
    → cut_prefix (codes "Bearer ") value ≡ some token
    → parse token ≡ parsed given []
    → h ≡ value ∷ []
    → (s : Runes) → Presents h s
    → s ≡ given
header-Presents value token given h c p e s (v, rest, tok, f, e', c', p') =
    let same_value : v ≡ value = cc (e, e') in
    let same_token : tok ≡ token = cc (c, c', same_value) in cc (p, p', same_token)

bearer_cut :
    cut_prefix (codes "Bearer ") (codes "Bearer dicer_aaaabbbbccccddddaaaabbbbccccdddd")
    ≡ some (codes "dicer_aaaabbbbccccddddaaaabbbbccccdddd")
unfolding cut_prefix
bearer_cut = refl

bearer_parsed : parse (codes "dicer_aaaabbbbccccddddaaaabbbbccccdddd") ≡ parsed secret []
unfolding parse
bearer_parsed = refl

abbrev child_header : List Runes
child_header = codes "Bearer dicer_0000111122223333000011112222333f" ∷ []

child_cut :
    cut_prefix (codes "Bearer ") (codes "Bearer dicer_0000111122223333000011112222333f")
    ≡ some (codes "dicer_0000111122223333000011112222333f")
unfolding cut_prefix
child_cut = refl

child_parsed : parse (codes "dicer_0000111122223333000011112222333f") ≡ parsed child_secret []
unfolding parse
child_parsed = refl

holder_only : (n : String) (t : Token) → lookup n tokens.by_name ≡ some t → t ≡ holder
holder_only n t l = elim (lookup-In n tokens.by_name l) [
  | inl e ↦ ap (λ (x : String × Token). x.1) e
  | inr i ↦ absurd i.1
]

held_held : allows_all held held ≡ true
unfolding allows_all
held_held = refl

tokens_IsContained : IsContained digest held (secret ∷ []) tokens
tokens_IsContained = record {
  sound = tokens_IsSound;
  contains = λ s i n t l same.
      subst (λ (x : Token). allows_all held x.scopes ≡ true) (sym (holder_only n t l)) held_held;
}

asked_name : Request → String
asked_name (create_request name _ _) = name
asked_name _ = ""

child_valid : validate_secret child_secret ≡ true
unfolding validate_secret
child_valid = refl

not_found_there : (lookup "t2" tokens.by_name ≡ none) × (lookup "t2" tokens.names_by_id ≡ none)
unfolding lookup
not_found_there = (refl, refl)

child_IsRandom : IsRandom digest make_child moment tokens
unfolding asked_name
child_IsRandom = record {
  unused = record {
    valid = child_valid;
    no_token = λ n t l e.
        ne_of_beq (digest secret) (digest child_secret) refl
          (ap (λ (x : Token). x.secret_sha256) (sym (holder_only n t l)) ∙ e);
  };
  some_id = ne_of_beq "t2" "" refl;
  free_name = not_found_there.0;
  free_id = not_found_there.1;
  not_asked = λ name s scopes e q. ne_of_beq "t2" "child" refl (q ∙ ap asked_name (sym e));
}

abbrev client_calls : List ClientCall
client_calls = record { header = header; request = make_child; moment = moment } ∷ []

attacked :
    attack digest daemon client_calls (secret ∷ []) tokens
    ≡ (child_secret ∷ secret ∷ [], tokens_after)
unfolding attack find is_found write_definition create validate_name lookup assign put remove
    method_of
attacked = refl

child_accepted :
    presented_token digest child_header (attack digest daemon client_calls (secret ∷ []) tokens).1
    ≡ ok child
unfolding presented_token attack find is_found write_definition create validate_name lookup assign
    put remove method_of
child_accepted = refl

volumes_scope : lookup (codes "ListVolumes") method_scopes ≡ some (codes "volumes:read")
unfolding lookup
volumes_scope = refl

child_authorized : authorize (some child) (codes "ListVolumes") ≡ none
unfolding authorize
child_authorized = refl

no_escalation_example : (codes "volumes:read" ≡ []) ⊎ (allows held (codes "volumes:read") ≡ true)
no_escalation_example =
    no_escalation digest held daemon (inr fingerprint_valid) client_calls (secret ∷ []) tokens
      tokens_IsContained
      (
        (λ s p. inl (inl (header-Presents _ _ secret header bearer_cut bearer_parsed refl s p))),
        child_IsRandom,
        tt,
      )
      child_header child (codes "ListVolumes") (codes "volumes:read")
      (λ s p.
        subst (λ (o : List Runes × Catalogue Token). In s o.0) (sym attacked)
          (inl (header-Presents _ _ child_secret child_header child_cut child_parsed refl s p)))
      child_accepted volumes_scope child_authorized

serve-Refuses_example :
    (IsUnknown digest header tokens
      × (serve digest daemon header make_child moment tokens ≡ (tokens, err unauthenticated)))
    ⊎ ((t : Token) × (s : Runes) × (n : String) × Presents header s
        × (lookup n tokens.by_name ≡ some t)
        × (t.secret_sha256 ≡ digest s)
        × ((MayNotCall t (method_of make_child)
              × (serve digest daemon header make_child moment tokens
                  ≡ (record_use_of t moment.now done tokens, err permission_denied)))
            ⊎ (MayCall t (method_of make_child)
                × (serve digest daemon header make_child moment tokens
                    ≡ handle digest daemon
                        (some t)
                        moment
                        make_child
                        (record_use_of t moment.now done tokens)))))
serve-Refuses_example = serve-Refuses digest daemon header make_child moment tokens tokens_IsSound
