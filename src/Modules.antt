-- ===== src/Modules.antt =====
-- The loader of ES modules: hbf/qjs/module_loader.c.
pub mod Resolve
use hbf.Base.{
  ℕ, ◌+◌, Bool, true, false, not, ◌&&◌, Option, none, some, List, [], ◌∷◌, ◌++◌, Bytes, c_str,
  length, drop, leb, ◌==◌, if◌then◌else◌,
}
use hbf.Overlay.Schema.{Db}
use hbf.Overlay.Read.{select_latest}

-- What SQLite and `strdup` answer; `text` says that sqlite3_column_text is not NULL.
pub record SourceCalls : Type 0 where
  pub prepare : Bool
  pub bind : Bool
  pub step : Bool
  pub text : Bool
  pub strdup : Bool

-- `hbf_qjs_get_module_source(db, module_path)`; `none` is NULL. The copy ends at the first NUL.
unfoldable pub hbf_qjs_get_module_source : SourceCalls → Option Db → Bytes → Option Bytes
unfolding select_latest
hbf_qjs_get_module_source calls none path = none
hbf_qjs_get_module_source calls (some db) path =
    if not calls.prepare
    then none
    else if not calls.bind
    then none
    else if not calls.step
    then none
    else elim (select_latest path db) [
      | none ↦ none
      | some v ↦
          if not calls.text then none else if not calls.strdup then none else some (c_str v.content)
    ]

-- module_name[0] == '.' && module_name[1] == '/'
unfoldable pub is_relative : Bytes → Bool
is_relative [] = false
is_relative (c ∷ []) = false
is_relative (c ∷ d ∷ name) = c == 46 && d == 47

-- What stands before the last slash.
unfoldable pub directory : Bytes → Option Bytes
directory [] = none
directory (c ∷ cs) = elim (directory cs) [
  | some dir ↦ some (c ∷ dir)
  | none ↦ if c == 47 then some [] else none
]

unfoldable pub base_directory : Option Bytes → Option Bytes
unfolding directory
base_directory none = none
base_directory (some base) = directory base

unfoldable pub js_strdup : Bool → Bytes → Option Bytes
js_strdup succeeds name = if succeeds then some name else none

-- The two checks against the 512 characters of `buffer`.
unfoldable pub join_path : Bool → Bytes → Bytes → Option Bytes
unfolding js_strdup
join_path succeeds dir rel =
    if leb 511 (length dir)
    then none
    else if leb 512 (length dir + 1 + length rel)
    then none
    else js_strdup succeeds (dir ++ 47 ∷ rel)

-- `hbf_qjs_module_normalize`; `none` is NULL, and `succeeds` says what js_strdup does.
unfoldable pub hbf_qjs_module_normalize : Bool → Option Bytes → Bytes → Option Bytes
unfolding is_relative base_directory join_path js_strdup
hbf_qjs_module_normalize succeeds base name =
    if is_relative name
    then (elim (base_directory base) [
      | none ↦ js_strdup succeeds (drop 2 name)
      | some dir ↦ join_path succeeds dir (drop 2 name)
    ])
    else js_strdup succeeds name

-- `hbf_qjs_module_loader`: the source that is compiled; `none` is NULL. `compiles` is whether
-- JS_Eval compiles a source.
unfoldable pub hbf_qjs_module_loader :
    SourceCalls → (Bytes → Bool) → Option Db → Bytes → Option Bytes
unfolding hbf_qjs_get_module_source
hbf_qjs_module_loader calls compiles none name = none
hbf_qjs_module_loader calls compiles (some db) name =
    elim (hbf_qjs_get_module_source calls (some db) name) [
      | none ↦ none
      | some src ↦ if compiles src then some src else none
    ]
