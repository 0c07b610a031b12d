-- ===== src/Token/Value.antt =====
-- internal/token/token.go: Format and Parse.
use dicer.Prelude.{◌&&◌, not, Option, none, some, [], ◌++◌, ◌==◌, if◌then◌else◌, nat_Eq}
use dicer.Text.{Runes, runes_Eq, codes, cut_prefix, Cut, cut, trim_space}
use dicer.Token.Secret.{validate_secret, is_fingerprint}

abbrev pub token_prefix : Runes
token_prefix = codes "dicer_"

abbrev pub separator : Runes
separator = codes "_"

-- `Format`.
unfoldable pub format : Runes → Runes → Runes
format secret fingerprint =
    if fingerprint == []
    then token_prefix ++ secret
    else token_prefix ++ secret ++ separator ++ fingerprint

pub data ParseError : Type 0 where
  no_prefix bad_secret bad_fingerprint : ParseError

pub data Parsed : Type 0 where
  parsed : (secret fingerprint : Runes) → Parsed
  refused : ParseError → Parsed

unfoldable pub parse_cut : Cut → Parsed
unfolding validate_secret is_fingerprint
parse_cut c =
    if not (validate_secret c.before)
    then refused bad_secret
    else if not (c.after == []) && not (is_fingerprint c.after)
    then refused bad_fingerprint
    else parsed c.before c.after

unfoldable pub parse_rest : Option Runes → Parsed
unfolding parse_cut cut
parse_rest none = refused no_prefix
parse_rest (some rest) = parse_cut (cut b'_' rest)

-- `Parse`.
unfoldable pub parse : Runes → Parsed
unfolding parse_rest cut_prefix trim_space
parse s = parse_rest (cut_prefix token_prefix (trim_space s))
