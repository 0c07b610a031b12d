-- ===== src/Store/Definitions.antt =====
-- internal/filestore: what the store does with the definitions of one kind. The code has a copy
-- for each kind: instances.go, snapshots.go, networks.go, volumes.go, kernels.go and tokens.go.
use dicer.Prelude.{
  String, Bool, true, false, not, Option, none, some, List, [], ◌∷◌, ◌==◌, string_Eq, if◌then◌else◌,
}
use dicer.Text.{codes}
use dicer.Naming.{validate_name}
use dicer.Maps.{lookup, assign, remove}
use dicer.Errors.{Error, Result, ok, err, not_found, exists, invalid_argument, other}
use dicer.Store.{Kind, Catalogue}

-- What the file system makes of a call: all of it, nothing, or a part, where the code makes two
-- changes or removes a directory.
pub data Disk : Type 0 where
  done failed half : Disk

module _ {V : Type 0} ⦃kind : Kind V⦄ where
  unfoldable pub value_or_zero : Option V → V
  value_or_zero none = kind.zero_value
  value_or_zero (some v) = v

  unfoldable pub found_by_id : Option String → Catalogue V → Result V
  unfolding value_or_zero
  found_by_id none c = err not_found
  found_by_id (some name) c = ok (value_or_zero (lookup name c.by_name))

  unfoldable pub found : Option V → Option String → Catalogue V → Result V
  unfolding found_by_id
  found (some v) name c = ok v
  found none name c = found_by_id name c

  -- A definition by name or ID: `Store.Instance`, `Store.Network` and so on.
  unfoldable pub find : String → Catalogue V → Result V
  unfolding found
  find name_or_id c = found (lookup name_or_id c.by_name) (lookup name_or_id c.names_by_id) c

  unfoldable pub is_found : Result V → Bool
  is_found (ok v) = true
  is_found (err e) = false

  -- `putInstance` and so on.
  unfoldable pub put_definition : V → Catalogue V → Catalogue V
  put_definition v c = record c {
    by_name = assign (kind.name_of v) v c.by_name;
    names_by_id =
        if kind.id_of v == ""
        then c.names_by_id
        else assign (kind.id_of v) (kind.name_of v) c.names_by_id;
  }

  unfoldable pub write_definition : V → Disk → Catalogue V → Catalogue V × Result (Unit {0})
  unfolding put_definition
  write_definition v done c =
      (put_definition v (record c { files = assign (kind.name_of v) (some v) c.files }), ok tt)
  write_definition v failed c = (c, err other)
  write_definition v half c = (c, err other)

  unfoldable pub write_unless :
      Option Error → V → Disk → Catalogue V → Catalogue V × Result (Unit {0})
  unfolding write_definition
  write_unless (some e) v disk c = (c, err e)
  write_unless none v disk c = write_definition v disk c

  -- `CreateInstance` and so on, where `refused` is what the checks of the kind itself answer.
  unfoldable pub create : Option Error → V → Disk → Catalogue V → Catalogue V × Result (Unit {0})
  unfolding write_unless is_found
  create refused v disk c =
      if not (validate_name (codes (kind.name_of v)))
      then (c, err invalid_argument)
      else if is_found (find (kind.name_of v) c)
      then (c, err exists)
      else write_unless refused v disk c

  -- `UpdateInstance`, `UpdateKernel` and `UpdateToken`.
  unfoldable pub update : Option Error → V → Disk → Catalogue V → Catalogue V × Result (Unit {0})
  unfolding write_unless is_found
  update refused v disk c =
      if is_found (find (kind.name_of v) c)
      then write_unless refused v disk c
      else (c, err not_found)

  -- The removal of a directory that fails may have removed the definition in it.
  unfoldable pub remove_definition : V → Disk → Catalogue V → Catalogue V × Result (Unit {0})
  remove_definition v done c = (
    record c {
      by_name = remove (kind.name_of v) c.by_name;
      names_by_id = remove (kind.id_of v) c.names_by_id;
      files = remove (kind.name_of v) c.files;
    },
    ok tt,
  )
  remove_definition v failed c = (c, err other)
  remove_definition v half c = (record c { files = remove (kind.name_of v) c.files }, err other)

  unfoldable pub remove_unless :
      Option Error → V → Disk → Catalogue V → Catalogue V × Result (Unit {0})
  unfolding remove_definition
  remove_unless (some e) v disk c = (c, err e)
  remove_unless none v disk c = remove_definition v disk c

  unfoldable pub delete_found :
      (V → Option Error) → Result V → Disk → Catalogue V → Catalogue V × Result (Unit {0})
  unfolding remove_unless
  delete_found refused (err e) disk c = (c, err e)
  delete_found refused (ok v) disk c = remove_unless (refused v) v disk c

  -- `DeleteInstance` and so on, where `refused` says which definitions are in use.
  unfoldable pub delete :
      (V → Option Error) → String → Disk → Catalogue V → Catalogue V × Result (Unit {0})
  unfolding delete_found
  delete refused name_or_id disk c = delete_found refused (find name_or_id c) disk c

  -- The files are moved, and the definition is written where they are then; if that fails, the
  -- definition there has the old name.
  unfoldable pub move_definition : V → V → Disk → Catalogue V → Catalogue V × Result (Unit {0})
  unfolding put_definition
  move_definition v renamed done c = (
    put_definition renamed (record c {
      by_name = remove (kind.name_of v) c.by_name;
      files = assign (kind.name_of renamed) (some renamed) (remove (kind.name_of v) c.files);
    }),
    ok tt,
  )
  move_definition v renamed failed c = (c, err other)
  move_definition v renamed half c = (
    record c { files = assign (kind.name_of renamed) (some v) (remove (kind.name_of v) c.files) },
    err other,
  )

  unfoldable pub rename_found :
      Option Error → Result V → V → Disk → Catalogue V → Catalogue V × Result (Unit {0})
  unfolding is_found move_definition
  rename_found refused (err e) renamed disk c = (c, err e)
  rename_found (some e) (ok v) renamed disk c = (c, err e)
  rename_found none (ok v) renamed disk c =
      if not (validate_name (codes (kind.name_of renamed)))
      then (c, err invalid_argument)
      else if kind.name_of renamed == kind.name_of v
      then (c, ok tt)
      else if is_found (find (kind.name_of renamed) c)
      then (c, err exists)
      else move_definition v renamed disk c

  -- `RenameInstance`.
  unfoldable pub rename :
      Option Error → String → V → Disk → Catalogue V → Catalogue V × Result (Unit {0})
  unfolding rename_found
  rename refused name_or_id renamed disk c = rename_found refused (find name_or_id c) renamed disk c

  -- One round of the loop of `loadInstances` and so on: a file that is malformed, or whose name is
  -- not where it is, is skipped.
  unfoldable pub load_one : String → Option V → Catalogue V → Catalogue V
  unfolding put_definition
  load_one name none c = c
  load_one name (some v) c = if kind.name_of v == name then put_definition v c else c

  unfoldable pub load_from : List (String × Option V) → Catalogue V → Catalogue V
  unfolding load_one
  load_from [] c = c
  load_from ((name, v) ∷ files) c = load_from files (load_one name v c)

  -- `New` on the files of a kind.
  unfoldable pub load : List (String × Option V) → Catalogue V
  unfolding load_from
  load files = load_from files (record { by_name = []; names_by_id = []; files = files })
