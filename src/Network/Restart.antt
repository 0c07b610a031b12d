-- ===== src/Network/Restart.antt =====
-- A Manager's tables in memory are those that NewManager would load from its files.
use dicer.Prelude.{
  ℕ, ◌+◌, ◌-◌, ◌≡◌, refl, ap, ◌∙◌, inl, inr, Bool, true, false, List, [], ◌∷◌, String, string_Eq,
  ◌==◌, Bool-cases, length, Option, some, none, Option-cases,
}
use dicer.Network.{Network, Allocation, Error, Result, ok, err, unreadable_table}
use dicer.Network.Table.{AllocationTable, lookup, put, remove, assign, new_table}
use dicer.Network.Manager.{
  Manager, StaticIp, save_table, allocate, release, forget, reconcile, reconcile_table, kept,
  new_manager, read_tables, read_errors, table_of,
}
use dicer.Network.Calls.{allocate-cases, table_of-cases}
use dicer.Network.Releases.{release-cases}
use dicer.Network.Reconcile.{round-cases}

-- Loading the files gives the Manager again.
abbrev pub IsLoaded : Manager → Type 0
IsLoaded m = new_manager m.files ≡ m

abbrev Files : Type 0
Files = List (String × Option (List Allocation))

remove-read_tables :
    (network : String) (files : Files)
    → read_tables (remove network files) ≡ remove network (read_tables files)
unfolding remove read_tables
remove-read_tables network [] = refl
remove-read_tables network ((n, some es) ∷ files) = elim (Bool-cases (n == network)) [
  | inl same ↦ rw same (remove-read_tables network files)
  | inr other ↦ rw other (ap (λ rest. (n, new_table es) ∷ rest) (remove-read_tables network files))
]
remove-read_tables network ((n, none) ∷ files) = elim (Bool-cases (n == network)) [
  | inl same ↦ rw same (remove-read_tables network files)
  | inr other ↦ rw other (remove-read_tables network files)
]

remove-read_errors :
    (network : String) (files : Files)
    → read_errors (remove network files) ≡ remove network (read_errors files)
unfolding remove read_errors
remove-read_errors network [] = refl
remove-read_errors network ((n, some es) ∷ files) = elim (Bool-cases (n == network)) [
  | inl same ↦ rw same (remove-read_errors network files)
  | inr other ↦ rw other (remove-read_errors network files)
]
remove-read_errors network ((n, none) ∷ files) = elim (Bool-cases (n == network)) [
  | inl same ↦ rw same (remove-read_errors network files)
  | inr other ↦
      rw other (ap (λ rest. (n, unreadable_table) ∷ rest) (remove-read_errors network files))
]

-- Nothing is removed of a network without an error.
remove-absent :
    (network : String) (errors : List (String × Error))
    → lookup network errors ≡ none
    → remove network errors ≡ errors
unfolding remove lookup
remove-absent network [] h = refl
remove-absent network ((n, e) ∷ errors) h = elim (Bool-cases (n == network)) [
  | inl same ↦ cc (rw same at h)
  | inr other ↦ rw other (ap (λ rest. (n, e) ∷ rest) (remove-absent network errors (rw other at h)))
]

IsLoaded-of :
    (tables : List (String × AllocationTable)) (errors : List (String × Error)) (files : Files)
    → read_tables files ≡ tables
    → read_errors files ≡ errors
    → IsLoaded (record { tables = tables; table_errors = errors; files = files })
unfolding new_manager
IsLoaded-of tables errors files h k =
    λ i. record { tables = h i; table_errors = k i; files = files }

tables_of : (m : Manager) → IsLoaded m → read_tables m.files ≡ m.tables
unfolding new_manager
tables_of m h = ap (λ (k : Manager). k.tables) h

errors_of : (m : Manager) → IsLoaded m → read_errors m.files ≡ m.table_errors
unfolding new_manager
errors_of m h = ap (λ (k : Manager). k.table_errors) h

-- A network whose table is found has no error.
no_error :
    (network : String) (m : Manager) {t : AllocationTable}
    → table_of network m ≡ ok t
    → lookup network m.table_errors ≡ none
unfolding table_of
no_error network m h = elim (Option-cases (lookup network m.table_errors)) [
  | inl e ↦ e
  | inr (e, f) ↦ cc (rw f at h)
]

pub save_table-IsLoaded :
    (network : String) (es : List Allocation) (saved : Bool) (m : Manager) {t : AllocationTable}
    → table_of network m ≡ ok t
    → IsLoaded m
    → IsLoaded (save_table network es saved m).0
unfolding save_table assign put read_tables read_errors
save_table-IsLoaded network es false m r h = h
save_table-IsLoaded network es true m r h =
    IsLoaded-of (assign network (new_table es) m.tables) m.table_errors
      (assign network (some es) m.files)
      (ap (λ rest. (network, new_table es) ∷ rest)
        (remove-read_tables network m.files ∙ ap (remove network) (tables_of m h)))
      (remove-read_errors network m.files
        ∙ ap (remove network) (errors_of m h)
        ∙ remove-absent network m.table_errors (no_error network m r))

pub forget-IsLoaded :
    (network : String) (removed : Bool) (m : Manager)
    → IsLoaded m
    → IsLoaded (forget network removed m).0
unfolding forget
forget-IsLoaded network false m h = h
forget-IsLoaded network true m h =
    IsLoaded-of (remove network m.tables) (remove network m.table_errors) (remove network m.files)
      (remove-read_tables network m.files ∙ ap (remove network) (tables_of m h))
      (remove-read_errors network m.files ∙ ap (remove network) (errors_of m h))

pub allocate-IsLoaded :
    (n : Network) (id : String) (static : StaticIp) (draw : ℕ → ℕ) (bytes : Option (List ℕ))
    (saved : Bool) (m : Manager)
    → IsLoaded m
    → IsLoaded (allocate n id static draw bytes saved m).0
allocate-IsLoaded n id static draw bytes saved m h =
    elim (allocate-cases n id static draw bytes saved m) [
      | inl (e, out) ↦ rw out h
      | inr (inl (t, a, _, _, out)) ↦ rw out h
      | inr (inr (t, a, f, _, _, _, out)) ↦ rw out (save_table-IsLoaded n.name _ true m f h)
    ]

pub release-IsLoaded :
    (network id : String) (saved : Bool) (m : Manager)
    → IsLoaded m
    → IsLoaded (release network id saved m).0
release-IsLoaded network id saved m h = elim (release-cases network id saved m) [
  | inl (e, out) ↦ rw out h
  | inr (inl (t, _, _, out)) ↦ rw out h
  | inr (inr (t, i, f, _, out)) ↦ rw out (save_table-IsLoaded network _ true m f h)
]

round-IsLoaded :
    (network : String) (live : List String) (saved : Bool) (t : AllocationTable) (m : Manager)
    → table_of network m ≡ ok t
    → IsLoaded m
    → IsLoaded (reconcile_table network live saved t m).0
round-IsLoaded network live saved t m f h = elim (round-cases network live saved t m) [
  | inl (e, out) ↦ rw out h
  | inr (inl (_, out)) ↦ rw out h
  | inr (inr out) ↦ rw out (save_table-IsLoaded network _ true m f h)
]

pub reconcile-IsLoaded :
    (networks live : List String) (saved : String → Bool) (released : ℕ) (m : Manager)
    → IsLoaded m
    → IsLoaded (reconcile networks live saved released m).0
unfolding reconcile
reconcile-IsLoaded [] live saved released m h = h
reconcile-IsLoaded (network ∷ networks) live saved released m h = elim (table_of-cases network m) [
  | inl (e, f) ↦ rw (reconcile, f) h
  | inr (t, f) ↦
      let now : ℕ = released + (length t.allocations - length (kept live t.allocations)) in
      rw (reconcile, f)
        (later now (λ m' g. reconcile-IsLoaded networks live saved now m' g)
          (reconcile_table network live (saved network) t m)
          (round-IsLoaded network live (saved network) t m f h))
]
  where
    rest : ℕ → Manager × Result (Unit {0}) → Manager × ℕ × Result (Unit {0})
    rest now o = elim o.1 [
      | err e ↦ (o.0, now, err e)
      | ok _ ↦ reconcile networks live saved now o.0
    ]

    later :
        (now : ℕ)
        → ((m' : Manager) → IsLoaded m' → IsLoaded (reconcile networks live saved now m').0)
        → (o : Manager × Result (Unit {0})) → IsLoaded o.0
        → IsLoaded (rest now o).0
    later now k (m', err e) g = g
    later now k (m', ok _) g = k m' g
